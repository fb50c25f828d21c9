-- ===== src/Server/Egress/Inside.antt =====
-- src/relay/engine.rs: where a payload for the relay address goes.
use uturn.Common.{
  ℕ, ◌≡◌, ◌≢◌, refl, sym, ap, ◌∙◌, subst, Bool, true, false, Option, none, some, List, [], ◌∷◌,
  ◌=?◌, arith, All, nat_key, Bool-cases, inl, inr, if◌then◌else◌,
}
use uturn.Common.Bytes.{Bytes, Str}
use uturn.Addr.{SocketAddr, socket_key, ip_key}
use uturn.Lookup.Allocation.{Allocation}
use uturn.Lookup.Table.{AllocationTable, get}
use uturn.Lookup.Table.Clients.{client_at, client_of}
use uturn.Lookup.Table.Steps.{Method, method_op, step, touch_op}
use uturn.Lookup.Table.Updates.{call-SameClients}
use uturn.Server.State.{Env, World, Io, pure, ◌>>=◌, ◌>>◌, skip, reads, relay_addr}
use uturn.Server.Egress.{
  Guarded, Guarded->>=, lift-Guarded, if-Guarded, IsPermittedPeer, IsWillingClient,
}
use uturn.Server.Egress.Deliver.{deliver_by-Guarded}
use uturn.Server.Relay.Channel.{
  delivery_to, cons_some, listener_deliveries, relay_to_listeners, delivery_at, holder_delivery,
  deliver_if, try_holder, paired, relay_stun, media_to, relay_media, relay_inside,
}
use uturn.Server.Relay.Delivery.{Delivery, deliver, deliver_all, touch_relay}
use uturn.Server.Relay.Inspect.{is_stun, extract_stun_ufrags}

-- The address is that of a client of this server other than the sender.
pub record IsOtherClient (src_addr : SocketAddr) (t : AllocationTable) (addr : SocketAddr)
    : Type 0 where
  pub id : ℕ
  pub at : client_at t id ≡ some addr
  pub other : addr ≢ src_addr

-- The ways a datagram may go because of a client's ChannelData.
pub data MayForward (env : Env) (src_addr : SocketAddr) (t : AllocationTable) (addr : SocketAddr)
    : Type 0 where
  to_peer : IsPermittedPeer env src_addr t addr → MayForward env src_addr t addr
  to_willing : IsWillingClient env t addr → MayForward env src_addr t addr
  to_other : IsOtherClient src_addr t addr → MayForward env src_addr t addr

-- A delivery to another client.
abbrev IsOther : SocketAddr → AllocationTable → Delivery → Type 0
IsOther src_addr t d = IsOtherClient src_addr t d.client_addr

abbrev IsOtherIf : SocketAddr → AllocationTable → Option Delivery → Type 0
IsOtherIf src_addr t none = Unit
IsOtherIf src_addr t (some d) = IsOther src_addr t d

module _ (env : Env) (src_addr : SocketAddr) where
  abbrev P : AllocationTable → SocketAddr → Type 0
  P = MayForward env src_addr

  delivery_to-IsOtherIf :
      (t : AllocationTable) (id : ℕ) (found : Option Allocation)
      → get t id ≡ found
      → IsOtherIf src_addr t (delivery_to env src_addr id found)
  unfolding get
  delivery_to-IsOtherIf t id none e = tt
  delivery_to-IsOtherIf t id (some a) e = elim (Bool-cases (a.client_addr =? src_addr)) [
    | inl same ↦ rw same tt
    | inr differs ↦
        rw differs
          (record { id = id; at = ap client_of e; other = λ p. ground (arith, differs, p) })
  ]

  listener_deliveries-All :
      (t : AllocationTable) (ids : List ℕ)
      → All (IsOther src_addr t) (listener_deliveries env t src_addr ids)
  unfolding listener_deliveries
  listener_deliveries-All t [] = tt
  listener_deliveries-All t (id ∷ ids) =
      joined (delivery_to env src_addr id (get t id)) (listener_deliveries env t src_addr ids)
        (delivery_to-IsOtherIf t id (get t id) refl) (listener_deliveries-All t ids)
    where
      joined :
          (o : Option Delivery) (rest : List Delivery)
          → IsOtherIf src_addr t o
          → All (IsOther src_addr t) rest
          → All (IsOther src_addr t) (cons_some env o rest)
      joined none rest ho h = h
      joined (some d) rest ho h = (ho, h)

  -- Touching an allocation changes no client.
  touched-All :
      (t : AllocationTable) (id : ℕ) (m : Method) (ds : List Delivery)
      → All (IsOther src_addr t) ds
      → All (IsOther src_addr (step (method_op id m) t)) ds
  touched-All t id m [] h = tt
  touched-All t id m (d ∷ ds) (hd, h) = (
    record { id = hd.id; at = (call-SameClients t id m).at hd.id ∙ hd.at; other = hd.other },
    touched-All t id m ds h,
  )

  deliver_all-Guarded :
      (ds : List Delivery) (peer_addr : SocketAddr) (payload : Bytes) (w : World)
      → All (IsOther src_addr w.table) ds
      → Guarded P (deliver_all env ds peer_addr payload) w
  unfolding Guarded deliver_all deliver ◌>>=◌
  deliver_all-Guarded [] peer_addr payload w h = tt
  deliver_all-Guarded (d ∷ ds) peer_addr payload w (hd, h) =
      deliver_by-Guarded env P d.channel d.client_addr peer_addr payload _ w (to_other hd) λ v e.
        Guarded->>= P (deliver_all env ds peer_addr payload) (λ _. pure true) _
          (deliver_all-Guarded ds peer_addr payload _ (
            touched-All v.table d.id (touch_op env.now) ds
              (subst (λ t. All (IsOther src_addr t) ds) (sym e) h)))
          λ _ _. tt

  deliver_if-Guarded :
      (o : Option Delivery) (payload : Bytes) (w : World)
      → IsOtherIf src_addr w.table o
      → Guarded P (deliver_if env payload o) w
  unfolding Guarded deliver ◌>>=◌
  deliver_if-Guarded none payload w h = tt
  deliver_if-Guarded (some d) payload w h =
      deliver_by-Guarded env P d.channel d.client_addr (relay_addr env) payload _ w (to_other h)
        λ _ _. tt

  delivery_at-IsOtherIf :
      (t : AllocationTable) (o : Option ℕ) → IsOtherIf src_addr t (delivery_at env t src_addr o)
  unfolding delivery_at
  delivery_at-IsOtherIf t none = tt
  delivery_at-IsOtherIf t (some id) = delivery_to-IsOtherIf t id (get t id) refl

  relay_to_listeners-Guarded :
      (payload : Bytes) (ids : List ℕ) (w : World)
      → Guarded P (relay_to_listeners env payload src_addr ids) w
  unfolding Guarded relay_to_listeners ◌>>=◌
  relay_to_listeners-Guarded payload ids w =
      deliver_all-Guarded _ (relay_addr env) payload w (listener_deliveries-All w.table ids)

  try_holder-Guarded :
      (id : ℕ) (payload : Bytes) (o : Option (Str × Str)) (w : World)
      → Guarded P (try_holder env id src_addr payload o) w
  unfolding Guarded try_holder holder_delivery ◌>>=◌
  try_holder-Guarded id payload none w = tt
  try_holder-Guarded id payload (some (remote_ufrag, local_ufrag)) w =
      deliver_if-Guarded _ payload _ (delivery_at-IsOtherIf _ _)

  abbrev to_pair : ℕ → Bytes → Io Unit
  to_pair id payload = do
    peers ← reads (λ t. paired env t id)
    relay_to_listeners env payload src_addr peers
    skip

  to_pair-Guarded : (id : ℕ) (payload : Bytes) (w : World) → Guarded P (to_pair id payload) w
  unfolding Guarded ◌>>=◌
  to_pair-Guarded id payload w =
      Guarded->>= P (relay_to_listeners env payload src_addr (paired env w.table id)) (λ _. skip) w
        (relay_to_listeners-Guarded payload _ w) λ _ _. tt

  relay_stun-Guarded :
      (id : ℕ) (payload : Bytes) (w : World) → Guarded P (relay_stun env id src_addr payload) w
  unfolding Guarded relay_stun
  relay_stun-Guarded id payload w = lift-Guarded P (extract_stun_ufrags payload) _ w λ ufrags.
      Guarded->>= P (try_holder env id src_addr payload ufrags)
        (λ sent. if sent then skip else to_pair id payload) w
        (try_holder-Guarded id payload ufrags w)
        λ sent v.
          if-Guarded P sent skip (to_pair id payload) v (λ _. tt) λ _. to_pair-Guarded id payload v

  touch_relay-Guarded :
      (id : ℕ) (relayed : Bool) (w : World) → Guarded P (touch_relay env id relayed) w
  unfolding Guarded touch_relay
  touch_relay-Guarded id true w = tt
  touch_relay-Guarded id false w = tt

  media_to-Guarded :
      (id : ℕ) (payload : Bytes) (peers : List ℕ) (w : World)
      → Guarded P (media_to env id src_addr payload peers) w
  unfolding Guarded
  media_to-Guarded id payload [] w = touch_relay-Guarded id false w
  media_to-Guarded id payload (peer ∷ more) w =
      Guarded->>= P (relay_to_listeners env payload src_addr (peer ∷ more)) (touch_relay env id) w
        (relay_to_listeners-Guarded payload (peer ∷ more) w)
        λ relayed v. touch_relay-Guarded id relayed v

  pub relay_inside-Guarded :
      (id : ℕ) (payload : Bytes) (w : World) → Guarded P (relay_inside env id src_addr payload) w
  unfolding Guarded relay_inside relay_media ◌>>=◌
  relay_inside-Guarded id payload w = lift-Guarded P (is_stun payload) _ w λ stun.
      if-Guarded P stun _ _ w (λ _. relay_stun-Guarded id payload w)
        λ _. media_to-Guarded id payload _ w
