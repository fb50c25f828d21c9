-- ===== src/Server/Egress/Tests.antt =====
-- A client with a permission and a channel, and what its packets send.
use uturn.Common.{◌≡◌, refl, some, [], ◌∷◌, lookup, insert}
use uturn.Addr.{v4, SocketAddr, SocketAddr-discrete}
use uturn.Config.{new_config, with_credential}
use uturn.Demux.Stun.{StunInfo, no_attrs}
use uturn.Lookup.Allocation.{Allocation, new_allocation}
use uturn.Server.State.{World, evaluate}
use uturn.Server.Egress.{Guarded, MaySend}
use uturn.Server.Egress.Send.{handle_send-Guarded}
use uturn.Server.Egress.Inside.{MayForward}
use uturn.Server.Egress.Channel.{handle_channel_data-Guarded}
use uturn.Server.Egress.Peers.{IsTaker, handle_peer-Guarded}
use uturn.Server.Packets.{new_world}
use uturn.Server.Relay.Channel.{handle_channel_data}
use uturn.Server.Relay.Peers.{handle_rtp, handle_rtcp, handle_dtls, handle_peer_data}
use uturn.Server.Tests.{client, txn}
use uturn.Server.Turn.Send.{handle_send}
use uturn.Server.Turn.Tests.{one_user, env, plain_request}

abbrev peer : SocketAddr
peer = record { ip = v4 192 0 2 9; port = 5000 }

abbrev bound : Allocation
bound = record (new_allocation 1 1000 client [] 600 txn) {
  permissions = (peer.ip, 9000) ∷ [];
  channels_reverse = (peer, 0x4000) ∷ [];
  channels = (0x4000, record { peer_addr = peer; expires_ms = 9000 }) ∷ [];
}

-- One client, which has bound channel 0x4000 to the peer.
abbrev served : World
served = record (new_world one_user) {
  table = record (new_world one_user).table {
    allocations = (1, bound) ∷ [];
    by_client = (client, 1) ∷ [];
    by_permission = (peer.ip, 1 ∷ []) ∷ [];
    next_id = 2;
  };
}

abbrev send_indication : StunInfo
send_indication = record plain_request {
  attrs = record no_attrs { xor_peer_addresses = peer ∷ []; payload = some (1 ∷ 2 ∷ []) };
}

indication_goes_out :
    (evaluate env (handle_send env send_indication client) served).0.sent ≡ (peer, 1 ∷ 2 ∷ []) ∷ []
unfolding evaluate handle_send lookup SocketAddr-discrete with_credential new_config new_world
indication_goes_out = refl

channel_data_goes_out :
    (evaluate env (handle_channel_data env 0x4000 (1 ∷ 2 ∷ []) client) served).0.sent
    ≡ (peer, 1 ∷ 2 ∷ []) ∷ []
unfolding evaluate handle_channel_data lookup SocketAddr-discrete with_credential new_config
    new_world
channel_data_goes_out = refl

handle_send-Guarded_example :
    Guarded (MaySend env client) (handle_send env send_indication client) served
handle_send-Guarded_example = handle_send-Guarded env send_indication client served

handle_channel_data-Guarded_example :
    Guarded (MayForward env client) (handle_channel_data env 0x4000 (1 ∷ 2 ∷ []) client) served
handle_channel_data-Guarded_example =
    handle_channel_data-Guarded env 0x4000 (1 ∷ 2 ∷ []) client served

peer_data_comes_in :
    (evaluate env (handle_peer_data env (1 ∷ 2 ∷ []) peer) served).0.sent
    ≡ (client, 0x40 ∷ 0 ∷ 0 ∷ 2 ∷ 1 ∷ 2 ∷ 0 ∷ 0 ∷ []) ∷ []
unfolding evaluate handle_peer_data lookup insert SocketAddr-discrete with_credential new_config
    new_world new_allocation
peer_data_comes_in = refl

handle_peer-Guarded_example :
    Guarded (IsTaker env peer) (handle_rtp env 5 (1 ∷ 2 ∷ []) peer) served
    × Guarded (IsTaker env peer) (handle_rtcp env (1 ∷ 2 ∷ []) peer) served
    × Guarded (IsTaker env peer) (handle_dtls env (1 ∷ 2 ∷ []) peer) served
    × Guarded (IsTaker env peer) (handle_peer_data env (1 ∷ 2 ∷ []) peer) served
handle_peer-Guarded_example = handle_peer-Guarded env 5 (1 ∷ 2 ∷ []) peer served
