-- ===== src/Server/Relay/Delivery.antt =====
-- src/relay/engine.rs: deliveries to clients.
use uturn.Common.{
  ℕ, Bool, true, false, not, ◌&&◌, Option, none, some, List, [], ◌∷◌, ◌=?◌, length, lookup,
  if◌then◌else◌,
}
use uturn.Common.Bytes.{Bytes, Str}
use uturn.Addr.{SocketAddr, ip_key, socket_key}
use uturn.Config.{is_nil}
use uturn.Lookup.Allocation.{Allocation, is_permitted, channel_for_peer}
use uturn.Lookup.Table.{AllocationTable, get}
use uturn.Lookup.Table.Steps.{touch_op, touch_relay_success_op, touch_relay_attempt_op}
use uturn.Server.State.{Env, Io, pure, look, ◌>>=◌, ◌>>◌, lift, call_on, send_to}
use uturn.Server.Turn.Requests.{is_some}
use uturn.Server.Frames.{channel_packet, indication_packet}

pub record Delivery : Type 0 where
  pub id : ℕ
  pub client_addr : SocketAddr
  pub channel : Option ℕ

module _ (env : Env) where
  unfoldable pub send_channel_data : ℕ → Bytes → SocketAddr → Io Unit
  unfolding channel_packet
  send_channel_data channel payload client_addr =
      send_to client_addr (channel_packet channel payload)

  unfoldable pub send_data_indication : SocketAddr → Bytes → SocketAddr → Io Unit
  unfolding ◌>>=◌ lift indication_packet
  send_data_indication peer_addr payload client_addr = do
    packet ← look (λ w. lift (indication_packet peer_addr payload (env.txn_id (length w.sent))))
    send_to client_addr packet

  unfoldable pub deliver_by : Option ℕ → SocketAddr → SocketAddr → Bytes → Io Unit
  unfolding send_channel_data send_data_indication
  deliver_by (some channel) client_addr peer_addr payload =
      send_channel_data channel payload client_addr
  deliver_by none client_addr peer_addr payload = send_data_indication peer_addr payload client_addr

  unfoldable pub deliver : Delivery → SocketAddr → Bytes → Io Unit
  unfolding deliver_by
  deliver d peer_addr payload = deliver_by d.channel d.client_addr peer_addr payload

  abbrev pub touch_id : ℕ → Io Unit
  touch_id id = call_on id (touch_op env.now)

  -- `touch_relay`, here and in src/server.rs
  unfoldable pub touch_relay : ℕ → Bool → Io Unit
  touch_relay id relayed =
      if relayed
      then call_on id (touch_relay_success_op env.now)
      else call_on id (touch_relay_attempt_op env.now)

  -- `for d in deliveries { self.deliver(..).await?; self.touch(d.id); }`; whether there was one.
  unfoldable pub deliver_all : List Delivery → SocketAddr → Bytes → Io Bool
  unfolding ◌>>=◌ deliver
  deliver_all [] peer_addr payload = pure false
  deliver_all (d ∷ deliveries) peer_addr payload = do
    deliver d peer_addr payload
    touch_id d.id
    deliver_all deliveries peer_addr payload
    pure true

  abbrev pub channel_if : Bool → Allocation → SocketAddr → Option ℕ
  channel_if use_channels alloc peer_addr =
      if use_channels then channel_for_peer env.now alloc peer_addr else none

  abbrev pub may_receive : SocketAddr → Bool → Allocation → Bool
  may_receive peer_addr skip_same_ip alloc =
      is_permitted env.now alloc peer_addr.ip
      && not (skip_same_ip && (alloc.client_addr.ip =? peer_addr.ip))

  abbrev pub taken :
      Option Allocation → ℕ → SocketAddr → Bool → Bool → List Delivery → List Delivery
  taken none id peer_addr skip_same_ip use_channels rest = rest
  taken (some alloc) id peer_addr skip_same_ip use_channels rest =
      if may_receive peer_addr skip_same_ip alloc
      then record {
        id = id;
        client_addr = alloc.client_addr;
        channel = channel_if use_channels alloc peer_addr;
      }
        ∷ rest
      else rest

  unfoldable pub snapshot_peer_deliveries :
      AllocationTable → List ℕ → SocketAddr → Bool → Bool → List Delivery
  unfolding get is_permitted channel_for_peer
  snapshot_peer_deliveries t [] peer_addr skip_same_ip use_channels = []
  snapshot_peer_deliveries t (id ∷ ids) peer_addr skip_same_ip use_channels =
      taken (get t id) id peer_addr skip_same_ip use_channels
        (snapshot_peer_deliveries t ids peer_addr skip_same_ip use_channels)

  -- The candidates with a channel to the peer, and those without that know it.
  unfoldable pub affine : AllocationTable → List ℕ → SocketAddr → List ℕ × List ℕ
  unfolding get channel_for_peer
  affine t [] peer_addr = ([], [])
  affine t (id ∷ ids) peer_addr =
      let (with_channel, with_known) = affine t ids peer_addr in
      elim (get t id) [
        | none ↦ (with_channel, with_known)
        | some alloc ↦
            if is_some (channel_for_peer env.now alloc peer_addr)
            then (id ∷ with_channel, with_known)
            else if is_some (lookup peer_addr alloc.known_peers)
            then (with_channel, id ∷ with_known)
            else (with_channel, with_known)
      ]

  unfoldable pub narrow_peer_candidates : AllocationTable → List ℕ → SocketAddr → List ℕ
  unfolding affine
  narrow_peer_candidates t candidates peer_addr =
      let (with_channel, with_known) = affine t candidates peer_addr in
      if not (is_nil with_channel)
      then with_channel
      else if not (is_nil with_known)
      then with_known
      else candidates

  abbrev pub ufrags_of : Option Allocation → Option Str × Option Str
  ufrags_of none = (none, none)
  ufrags_of (some a) = (a.ice_ufrag, a.ice_remote_ufrag)

  unfoldable pub sender_ufrags : AllocationTable → ℕ → Option Str × Option Str
  unfolding get
  sender_ufrags t id = ufrags_of (get t id)
