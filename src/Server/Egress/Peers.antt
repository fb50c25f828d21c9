-- ===== src/Server/Egress/Peers.antt =====
-- src/relay/engine.rs: what a peer sends reaches only clients that permit the peer.
use uturn.Common.{
  ℕ, ◌≡◌, refl, sym, ap, ◌∙◌, subst, Bool, true, false, ◌&&◌, Option, none, some, List, [], ◌∷◌,
  arith, All, nat_key, Bool-cases, Option-cases, inl, inr, lookup, insert, lookup-insert_self,
  lookup-insert_ne,
}
use uturn.Common.Bytes.{Bytes}
use uturn.Addr.{SocketAddr, ip_key}
use uturn.Lookup.Allocation.{Allocation, is_permitted, touch}
use uturn.Lookup.Table.{AllocationTable, get}
use uturn.Lookup.Table.Steps.{method_op, step, touch_op, call}
use uturn.Server.State.{Env, World, pure, ◌>>=◌, skip}
use uturn.Server.Egress.{Guarded, Guarded->>=}
use uturn.Server.Egress.Deliver.{deliver_by-Guarded}
use uturn.Server.Relay.Delivery.{
  Delivery, deliver, deliver_all, snapshot_peer_deliveries, taken, may_receive,
}
use uturn.Server.Relay.Peers.{
  snapshot_to, register_only, peer_data_to, handle_peer_data, narrow, relay_rtp, rtp_to, handle_rtp,
  choose, chosen_to, handle_rtcp, handle_dtls,
}

-- The address is that of a client whose allocation permits the peer.
pub record IsTaker (env : Env) (peer_addr : SocketAddr) (t : AllocationTable) (addr : SocketAddr)
    : Type 0 where
  pub id : ℕ
  pub client : Allocation
  pub found : get t id ≡ some client
  pub address : client.client_addr ≡ addr
  pub permits : is_permitted env.now client peer_addr.ip ≡ true

module _ (env : Env) (peer_addr : SocketAddr) where
  -- The touch of an allocation keeps its client and its permissions.
  put-IsTaker :
      (t : AllocationTable) (j : ℕ) (a : Allocation) (addr : SocketAddr)
      → lookup j t.allocations ≡ some a
      → IsTaker env peer_addr t addr
      → IsTaker env peer_addr
          (record t { allocations = insert j (call (touch_op env.now) a) t.allocations })
          addr
  unfolding get call touch is_permitted
  put-IsTaker t j a addr e h = elim (nat_key.dec h.id j) [
    | yes same ↦ record {
      id = j;
      client = call (touch_op env.now) a;
      found = lookup-insert_self j _ t.allocations;
      address = ap (λ x. x.client_addr) (it same) ∙ h.address;
      permits = ap (λ x. is_permitted env.now x peer_addr.ip) (it same) ∙ h.permits;
    }
    | no differs ↦ record {
      id = h.id;
      client = h.client;
      found = lookup-insert_ne j h.id _ t.allocations differs ∙ h.found;
      address = h.address;
      permits = h.permits;
    }
  ]
    where
      it : h.id ≡ j → a ≡ h.client
      it same = cc

  touch-IsTaker :
      (t : AllocationTable) (j : ℕ) (addr : SocketAddr)
      → IsTaker env peer_addr t addr
      → IsTaker env peer_addr (step (method_op j (touch_op env.now)) t) addr
  unfolding step
  touch-IsTaker t j addr h = elim (Option-cases (lookup j t.allocations)) [
    | inl e ↦ rw (e, step) h
    | inr (a, e) ↦ rw (e, step) (put-IsTaker t j a addr e h)
  ]

  touched-All :
      (t : AllocationTable) (j : ℕ) (ds : List Delivery)
      → All (λ d. IsTaker env peer_addr t d.client_addr) ds
      → All (λ d. IsTaker env peer_addr (step (method_op j (touch_op env.now)) t) d.client_addr) ds
  touched-All t j [] h = tt
  touched-All t j (d ∷ ds) (hd, h) = (touch-IsTaker t j d.client_addr hd, touched-All t j ds h)

  taken-All :
      (t : AllocationTable) (found : Option Allocation) (id : ℕ) (skip_same_ip use_channels : Bool)
      → (rest : List Delivery) → get t id ≡ found
      → All (λ d. IsTaker env peer_addr t d.client_addr) rest
      → All
          (λ d. IsTaker env peer_addr t d.client_addr)
          (taken env found id peer_addr skip_same_ip use_channels rest)
  taken-All t none id skip_same_ip use_channels rest e h = h
  taken-All t (some a) id skip_same_ip use_channels rest e h =
      elim (Bool-cases (may_receive env peer_addr skip_same_ip a)) [
        | inr refused ↦ rw refused h
        | inl takes ↦ rw takes (
          record {
            id = id;
            client = a;
            found = e;
            address = refl;
            permits = and_left (is_permitted env.now a peer_addr.ip) _ takes;
          },
          h,
        )
      ]
    where
      and_left : (b c : Bool) → (b && c) ≡ true → b ≡ true
      and_left true c e = refl
      and_left false c e = ground (arith, e)

  snapshot-All :
      (t : AllocationTable) (ids : List ℕ) (skip_same_ip use_channels : Bool)
      → All
          (λ d. IsTaker env peer_addr t d.client_addr)
          (snapshot_peer_deliveries env t ids peer_addr skip_same_ip use_channels)
  unfolding snapshot_peer_deliveries
  snapshot-All t [] skip_same_ip use_channels = tt
  snapshot-All t (id ∷ ids) skip_same_ip use_channels =
      taken-All t (get t id) id skip_same_ip use_channels _ refl
        (snapshot-All t ids skip_same_ip use_channels)

  abbrev T : AllocationTable → SocketAddr → Type 0
  T = IsTaker env peer_addr

  deliver_all-Guarded :
      (ds : List Delivery) (payload : Bytes) (w : World)
      → All (λ d. IsTaker env peer_addr w.table d.client_addr) ds
      → Guarded T (deliver_all env ds peer_addr payload) w
  unfolding Guarded deliver_all deliver ◌>>=◌
  deliver_all-Guarded [] payload w h = tt
  deliver_all-Guarded (d ∷ ds) payload w (hd, h) =
      deliver_by-Guarded env T d.channel d.client_addr peer_addr payload _ w hd λ v e.
        Guarded->>= T (deliver_all env ds peer_addr payload) (λ _. pure true) _
          (deliver_all-Guarded ds payload _ (
            touched-All v.table d.id ds
              (subst (λ t. All (λ d. IsTaker env peer_addr t d.client_addr) ds) (sym e) h)))
          λ _ _. tt

  snapshot_to-Guarded :
      (ids : List ℕ) (skip_same_ip use_channels : Bool) (payload : Bytes) (w : World)
      → Guarded T (snapshot_to env ids peer_addr skip_same_ip use_channels payload) w
  unfolding Guarded ◌>>=◌
  snapshot_to-Guarded ids skip_same_ip use_channels payload w =
      Guarded->>= T (deliver_all env _ peer_addr payload) (λ _. skip) w
        (deliver_all-Guarded _ payload w (snapshot-All w.table ids skip_same_ip use_channels))
        λ _ _. tt

  register_only-Guarded : (ids : List ℕ) (w : World) → Guarded T (register_only env ids peer_addr) w
  unfolding Guarded
  register_only-Guarded [] w = tt
  register_only-Guarded (id ∷ []) w = tt
  register_only-Guarded (id ∷ next ∷ ids) w = tt

  narrow-Guarded : (ids : List ℕ) (w : World) → Guarded T (narrow env ids peer_addr) w
  unfolding Guarded narrow ◌>>=◌
  narrow-Guarded ids w =
      Guarded->>= T (register_only env _ peer_addr) (λ _. pure _) w (register_only-Guarded _ w)
        λ _ _. tt

  choose-Guarded :
      (is_unique : Bool) (first : ℕ) (ids : List ℕ) (w : World)
      → Guarded T (choose env is_unique first ids peer_addr) w
  unfolding Guarded choose ◌>>=◌
  choose-Guarded true first ids w = tt
  choose-Guarded false first ids w = narrow-Guarded (first ∷ ids) w

  peer_data_to-Guarded :
      (ids : List ℕ) (is_unique : Bool) (payload : Bytes) (w : World)
      → Guarded T (peer_data_to env ids is_unique payload peer_addr) w
  unfolding Guarded ◌>>=◌
  peer_data_to-Guarded [] is_unique payload w = tt
  peer_data_to-Guarded (first ∷ ids) true payload w =
      snapshot_to-Guarded (first ∷ ids) true true payload _
  peer_data_to-Guarded (first ∷ ids) false payload w =
      snapshot_to-Guarded (first ∷ ids) true true payload w

  rtp_to-Guarded :
      (ids : List ℕ) (is_unique : Bool) (payload : Bytes) (w : World)
      → Guarded T (rtp_to env ids is_unique payload peer_addr) w
  unfolding Guarded relay_rtp ◌>>=◌
  rtp_to-Guarded [] is_unique payload w = tt
  rtp_to-Guarded (first ∷ ids) true payload w =
      snapshot_to-Guarded (first ∷ ids) false true payload _
  rtp_to-Guarded (first ∷ ids) false payload w =
      Guarded->>= T (narrow env (first ∷ ids) peer_addr)
        (λ narrowed. snapshot_to env narrowed peer_addr true true payload) w
        (narrow-Guarded (first ∷ ids) w)
        λ narrowed v. snapshot_to-Guarded narrowed true true payload v

  chosen_to-Guarded :
      (use_channels : Bool) (ids : List ℕ) (is_unique : Bool) (payload : Bytes) (w : World)
      → Guarded T (chosen_to env use_channels ids is_unique payload peer_addr) w
  unfolding Guarded
  chosen_to-Guarded use_channels [] is_unique payload w = tt
  chosen_to-Guarded use_channels (first ∷ ids) is_unique payload w =
      Guarded->>= T (choose env is_unique first ids peer_addr)
        (λ chosen. snapshot_to env chosen peer_addr true use_channels payload) w
        (choose-Guarded is_unique first ids w)
        λ chosen v. snapshot_to-Guarded chosen true use_channels payload v

-- What comes from a peer, as RTP, RTCP, DTLS or unknown data, and in whatever state: each datagram
-- that goes out because of it goes to a client whose allocation permits the peer's address at that
-- moment.
pub handle_peer-Guarded :
    (env : Env) (ssrc : ℕ) (payload : Bytes) (peer_addr : SocketAddr) (w : World)
    → Guarded (IsTaker env peer_addr) (handle_rtp env ssrc payload peer_addr) w
      × Guarded (IsTaker env peer_addr) (handle_rtcp env payload peer_addr) w
      × Guarded (IsTaker env peer_addr) (handle_dtls env payload peer_addr) w
      × Guarded (IsTaker env peer_addr) (handle_peer_data env payload peer_addr) w
unfolding Guarded handle_rtp handle_rtcp handle_dtls handle_peer_data ◌>>=◌
handle_peer-Guarded env ssrc payload peer_addr w = (
  rtp_to-Guarded env peer_addr _ _ payload w,
  chosen_to-Guarded env peer_addr true _ _ payload w,
  chosen_to-Guarded env peer_addr false _ _ payload w,
  peer_data_to-Guarded env peer_addr _ _ payload w,
)
