-- ===== src/Server/Relay/Peers.antt =====
-- src/relay/engine.rs: what peers outside send, handed to the clients that permit them.
use uturn.Common.{ℕ, Bool, true, false, List, [], ◌∷◌}
use uturn.Common.Bytes.{Bytes}
use uturn.Addr.{SocketAddr}
use uturn.Lookup.Table.{lookup_by_peer_addr}
use uturn.Lookup.Table.Steps.{register_tuple_op}
use uturn.Server.State.{Env, Io, pure, ◌>>=◌, ◌>>◌, skip, reads, operate}
use uturn.Server.Relay.Delivery.{snapshot_peer_deliveries, narrow_peer_candidates, deliver_all}

module _ (env : Env) where
  abbrev pub snapshot_to : List ℕ → SocketAddr → Bool → Bool → Bytes → Io Unit
  snapshot_to ids peer_addr skip_same_ip use_channels payload = do
    deliveries ← reads (λ t. snapshot_peer_deliveries env t ids peer_addr skip_same_ip use_channels)
    deliver_all env deliveries peer_addr payload
    skip

  abbrev pub register_tuple : ℕ → SocketAddr → Io Unit
  register_tuple id peer_addr = operate (register_tuple_op env.now id peer_addr)

  -- A match that stands alone gets the fast path.
  abbrev pub register_only : List ℕ → SocketAddr → Io Unit
  register_only [] peer_addr = skip
  register_only (id ∷ []) peer_addr = register_tuple id peer_addr
  register_only (id ∷ next ∷ ids) peer_addr = skip

  -- `if is_unique { register_peer_tuple(candidates[0], ..) }`
  abbrev pub register_unique : Bool → ℕ → SocketAddr → Io Unit
  register_unique true first peer_addr = register_tuple first peer_addr
  register_unique false first peer_addr = skip

  abbrev pub peer_data_to : List ℕ → Bool → Bytes → SocketAddr → Io Unit
  peer_data_to [] is_unique payload peer_addr = skip
  peer_data_to (first ∷ ids) is_unique payload peer_addr = do
    register_unique is_unique first peer_addr
    snapshot_to (first ∷ ids) peer_addr true true payload

  unfoldable pub handle_peer_data : Bytes → SocketAddr → Io Unit
  unfolding ◌>>=◌ lookup_by_peer_addr snapshot_peer_deliveries deliver_all
  handle_peer_data payload peer_addr = do
    (candidates, is_unique) ← reads (λ t. lookup_by_peer_addr t peer_addr)
    peer_data_to candidates is_unique payload peer_addr

  -- The candidates narrowed by affinity; one that is left is registered.
  unfoldable pub narrow : List ℕ → SocketAddr → Io (List ℕ)
  unfolding ◌>>=◌ narrow_peer_candidates
  narrow candidates peer_addr = do
    narrowed ← reads (λ t. narrow_peer_candidates env t candidates peer_addr)
    register_only narrowed peer_addr
    pure narrowed

  unfoldable pub relay_rtp : Bool → ℕ → List ℕ → Bytes → SocketAddr → Io Unit
  unfolding ◌>>=◌ narrow snapshot_peer_deliveries deliver_all
  relay_rtp true first ids payload peer_addr = do
    register_tuple first peer_addr
    snapshot_to (first ∷ ids) peer_addr false true payload
  relay_rtp false first ids payload peer_addr = do
    narrowed ← narrow (first ∷ ids) peer_addr
    snapshot_to narrowed peer_addr true true payload

  abbrev pub rtp_to : List ℕ → Bool → Bytes → SocketAddr → Io Unit
  rtp_to [] is_unique payload peer_addr = skip
  rtp_to (first ∷ ids) is_unique payload peer_addr = relay_rtp is_unique first ids payload peer_addr

  unfoldable pub handle_rtp : ℕ → Bytes → SocketAddr → Io Unit
  unfolding ◌>>=◌ lookup_by_peer_addr relay_rtp
  handle_rtp ssrc payload peer_addr = do
    (candidates, is_unique) ← reads (λ t. lookup_by_peer_addr t peer_addr)
    rtp_to candidates is_unique payload peer_addr

  -- `chosen` of RTCP and DTLS
  unfoldable pub choose : Bool → ℕ → List ℕ → SocketAddr → Io (List ℕ)
  unfolding ◌>>=◌ narrow
  choose true first ids peer_addr = do register_tuple first peer_addr; pure (first ∷ ids)
  choose false first ids peer_addr = narrow (first ∷ ids) peer_addr

  -- `use_channels` is false for DTLS.
  abbrev pub chosen_to : Bool → List ℕ → Bool → Bytes → SocketAddr → Io Unit
  chosen_to use_channels [] is_unique payload peer_addr = skip
  chosen_to use_channels (first ∷ ids) is_unique payload peer_addr = do
    chosen ← choose is_unique first ids peer_addr
    snapshot_to chosen peer_addr true use_channels payload

  unfoldable pub handle_rtcp : Bytes → SocketAddr → Io Unit
  unfolding ◌>>=◌ lookup_by_peer_addr choose snapshot_peer_deliveries deliver_all
  handle_rtcp payload peer_addr = do
    (candidates, is_unique) ← reads (λ t. lookup_by_peer_addr t peer_addr)
    chosen_to true candidates is_unique payload peer_addr

  -- Never as ChannelData.
  unfoldable pub handle_dtls : Bytes → SocketAddr → Io Unit
  unfolding ◌>>=◌ lookup_by_peer_addr choose snapshot_peer_deliveries deliver_all
  handle_dtls payload peer_addr = do
    (candidates, is_unique) ← reads (λ t. lookup_by_peer_addr t peer_addr)
    chosen_to false candidates is_unique payload peer_addr
