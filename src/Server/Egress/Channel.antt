-- ===== src/Server/Egress/Channel.antt =====
-- src/relay/engine.rs: ChannelData of a client goes only where it may.
use uturn.Common.{ℕ, ◌≡◌, refl, true, false, not, Option, none, some, ◌=?◌, arith, nat_key, lookup}
use uturn.Common.Bytes.{Bytes}
use uturn.Addr.{SocketAddr, socket_key, ip_key}
use uturn.Lookup.Allocation.{Allocation, is_permitted, peer_for_channel, channel_for_peer}
use uturn.Lookup.Table.{AllocationTable, get, get_by_client}
use uturn.Server.State.{Env, World, ◌>>=◌, relay_addr}
use uturn.Server.Egress.{Guarded, Guarded->>=, if-Guarded, IsPermittedPeer, IsWillingClient}
use uturn.Server.Egress.Deliver.{deliver_by-Guarded}
use uturn.Server.Egress.Inside.{MayForward, to_peer, to_willing, relay_inside-Guarded}
use uturn.Server.Relay.Channel.{
  relay_inside, touch_sender, forward, relay_outside, relay_from, relay_to_bound, relay_of,
  handle_channel_data,
}
use uturn.Server.Relay.Delivery.{deliver}
use uturn.Server.Turn.Binding.{may_relay}
use uturn.Turn.Peers.{is_forbidden_peer_addr}

-- A client that the index names, and that permits the relay, is a willing one.
found-IsWilling :
    (env : Env) (t : AllocationTable) (o : Option ℕ) (a : Allocation)
    → elim o as (λ _. Option Allocation) [ none ↦ none | some id ↦ lookup id t.allocations ]
      ≡ some a
    → may_relay env a ≡ true
    → IsWillingClient env t a.client_addr
unfolding get get_by_client
found-IsWilling env t none a e h = ground (arith, e)
found-IsWilling env t (some id) a e h = record {
  id = id;
  client = a;
  found = e;
  address = refl;
  permits = h;
}

module _ (env : Env) (src_addr : SocketAddr) where
  forward-Guarded :
      (id : ℕ) (peer_addr : SocketAddr) (payload : Bytes) (o : Option Allocation) (w : World)
      → get_by_client w.table peer_addr ≡ o
      → (is_forbidden_peer_addr env.config peer_addr ≡ false
          → IsPermittedPeer env src_addr w.table peer_addr)
      → Guarded (MayForward env src_addr) (forward env id src_addr peer_addr payload o) w
  unfolding Guarded forward deliver ◌>>=◌ get_by_client
  forward-Guarded id peer_addr payload none w e h =
      if-Guarded (MayForward env src_addr) (is_forbidden_peer_addr env.config peer_addr) _ _ w
        (λ _. tt) λ fine. (to_peer (h fine), tt)
  forward-Guarded id peer_addr payload (some a) w e h =
      if-Guarded (MayForward env src_addr) (not (may_relay env a)) _ _ w (λ _. tt)
        λ granted.
          deliver_by-Guarded env (MayForward env src_addr) (channel_for_peer env.now a src_addr)
            a.client_addr src_addr payload _ w
            (to_willing (
              found-IsWilling env w.table (lookup peer_addr w.table.by_client) a e
                (ground (arith, granted))))
            λ _ _. tt

  relay_from-Guarded :
      (a : Allocation) (peer_addr : SocketAddr) (payload : Bytes) (w : World)
      → get_by_client w.table src_addr ≡ some a
      → Guarded (MayForward env src_addr) (relay_from env a src_addr peer_addr payload) w
  unfolding Guarded relay_from relay_outside ◌>>=◌
  relay_from-Guarded a peer_addr payload w e =
      if-Guarded (MayForward env src_addr) (not (is_permitted env.now a peer_addr.ip)) _ _ w
        (λ _. tt)
        λ granted.
          if-Guarded (MayForward env src_addr) (peer_addr =? relay_addr env) _ _ w
            (λ _.
              Guarded->>= (MayForward env src_addr) (relay_inside env a.id src_addr payload)
                (λ _. touch_sender env a.id) w (relay_inside-Guarded env src_addr a.id payload w)
                λ _ _. tt)
            λ _.
              if-Guarded (MayForward env src_addr) (peer_addr =? src_addr) _ _ w (λ _. tt)
                λ _. forward-Guarded a.id peer_addr payload _ w refl λ fine. record {
                  sender = a;
                  found = e;
                  permitted = ground (arith, granted);
                  not_forbidden = fine;
                }

  relay_of-Guarded :
      (channel : ℕ) (payload : Bytes) (o : Option Allocation) (w : World)
      → get_by_client w.table src_addr ≡ o
      → Guarded (MayForward env src_addr) (relay_of env channel payload src_addr o) w
  unfolding Guarded
  relay_of-Guarded channel payload none w e = tt
  relay_of-Guarded channel payload (some a) w e = bound (peer_for_channel env.now a channel)
    where
      bound :
          (o : Option SocketAddr)
          → Guarded (MayForward env src_addr) (relay_to_bound env a src_addr payload o) w
      bound none = tt
      bound (some peer_addr) = relay_from-Guarded a peer_addr payload w e

-- Whatever a client sends on a channel, and in whatever state: each datagram that goes out because
-- of it goes to an address which the sender's allocation permits at that moment and which is not a
-- forbidden one, or to a client whose allocation permits the relay address, or to another client
-- of this server than the sender.
pub handle_channel_data-Guarded :
    (env : Env) (channel : ℕ) (payload : Bytes) (src_addr : SocketAddr) (w : World)
    → Guarded (MayForward env src_addr) (handle_channel_data env channel payload src_addr) w
unfolding Guarded handle_channel_data ◌>>=◌
handle_channel_data-Guarded env channel payload src_addr w =
    relay_of-Guarded env src_addr channel payload _ w refl
