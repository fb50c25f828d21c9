-- ===== src/Server/Tests.antt =====
-- One packet and one state for each theorem about the server.
use uturn.Common.{
  ℕ, ◌*◌, ◌^◌, ◌≡◌, refl, true, List, [], ◌∷◌, arith, length, lookup, insert, ◌≤◌, nat_key, IsDone,
}
use uturn.Common.Bytes.{Bytes}
use uturn.Addr.{IpAddr, IpAddr-discrete, v4, SocketAddr, ip_key, socket_key, octets_key}
use uturn.Config.{Config, new_config, auth_enabled}
use uturn.Demux.Stun.Attributes.{parse_attributes}
use uturn.Demux.Stun.Header.{class_bits, class_of, method_bits, method_of}
use uturn.Lookup.Allocation.{new_allocation}
use uturn.Lookup.RateLimit.{allocation_count, drop_expired, check_allocation_request}
use uturn.Lookup.Table.{insert_new, claim_client}
use uturn.Lookup.Table.Census.{census, clients_at}
use uturn.Server.Books.Serve.{serve-clients_at}
use uturn.Server.State.{Env}
use uturn.Server.Packets.{Event, received, tick, new_world, serve}
use uturn.Server.Packets.History.{serve_ops}
use uturn.Server.Frames as Frames
use uturn.Server.Frames.{indication_packet}
use uturn.Server.Frames.Agree.{build_data_indication-indication_packet}
use uturn.Turn.Encode as Encode
use uturn.Server.Relay.Inspect.{is_stun, is_rtp, extract_stun_ufrags}
use uturn.Server.Relay.Inspect.Totality.{extract_stun_ufrags-IsDone}

abbrev pub server_ip : IpAddr
server_ip = v4 203 0 113 1

abbrev pub client : SocketAddr
client = record { ip = v4 198 51 100 7; port = 40000 }

abbrev pub anonymous : Config
anonymous = new_config server_ip (1 ∷ 2 ∷ 3 ∷ [])

-- A stand-in for the keyed hash, of the right length.
abbrev pub keyed : Bytes → Bytes → Bytes
keyed key message =
    1 ∷ 2 ∷ 3 ∷ 4 ∷ 5 ∷ 6 ∷ 7 ∷ 8 ∷ 9 ∷ 10 ∷ 11 ∷ 12 ∷ 13 ∷ 14 ∷ 15 ∷ 16 ∷ 17 ∷ 18 ∷ 19 ∷ 20 ∷ []

abbrev pub txn : Bytes
txn = 1 ∷ 2 ∷ 3 ∷ 4 ∷ 5 ∷ 6 ∷ 7 ∷ 8 ∷ 9 ∷ 10 ∷ 11 ∷ 12 ∷ []

abbrev pub env_of : Config → ℕ → Env
env_of config now = record {
  config = config;
  now = now;
  instant = now * 10 ^ 6;
  unix_secs = 5;
  txn_id = λ n. txn;
  hmac_sha1 = keyed;
  md5 = λ message. 7 ∷ [];
  base64 = λ message. 65 ∷ [];
  accepts = λ addr packet. true;
}

-- An Allocate request without attributes.
abbrev pub allocate_packet : Bytes
allocate_packet = 0x00 ∷ 0x03 ∷ 0x00 ∷ 0x00 ∷ 0x21 ∷ 0x12 ∷ 0xa4 ∷ 0x42 ∷ txn

-- An Allocate request, and a round of the cleanup that finds nothing to drop.
abbrev busy_day : List Event
busy_day =
    received (env_of anonymous 1000) allocate_packet client ∷ tick (env_of anonymous 1500) ∷ []

few_ops : length (serve_ops busy_day (new_world anonymous)) ≡ 6
unfolding serve_ops new_world new_config auth_enabled lookup insert new_allocation drop_expired
    check_allocation_request insert_new claim_client class_bits class_of method_bits method_of
    parse_attributes
few_ops = refl

extract_stun_ufrags-IsDone_example :
    IsDone (extract_stun_ufrags allocate_packet)
    × (IsDone (is_stun allocate_packet) × IsDone (is_rtp allocate_packet))
extract_stun_ufrags-IsDone_example = extract_stun_ufrags-IsDone allocate_packet

build_data_indication-indication_packet_example :
    (Encode.build_data_indication client (1 ∷ 2 ∷ 3 ∷ []) txn
      ≡ indication_packet client (1 ∷ 2 ∷ 3 ∷ []) txn)
    × (Frames.server_indication client (1 ∷ 2 ∷ 3 ∷ []) txn
        ≡ indication_packet client (1 ∷ 2 ∷ 3 ∷ []) txn)
build_data_indication-indication_packet_example =
    build_data_indication-indication_packet client (1 ∷ 2 ∷ 3 ∷ []) txn

serve-clients_at_example :
    (allocation_count (serve busy_day (new_world anonymous)).limiter client.ip
      ≡ clients_at client.ip (serve busy_day (new_world anonymous)).table)
    × (clients_at client.ip (serve busy_day (new_world anonymous)).table ≤ 200)
unfolding new_config
serve-clients_at_example =
    serve-clients_at anonymous busy_day (omega arith) (omega arith) (omega (arith, few_ops))
      client.ip

one_client : clients_at client.ip (serve busy_day (new_world anonymous)).table ≡ 1
unfolding serve new_world new_config auth_enabled lookup insert new_allocation drop_expired
    check_allocation_request insert_new claim_client class_bits class_of method_bits method_of
    parse_attributes census IpAddr-discrete
one_client = refl
