-- ===== src/Lookup/Allocation/Channels.antt =====
-- The two channel maps are inverse to one another, whatever is bound, refreshed and reaped.
use uturn.Common.{
  ℕ, ◌+◌, ◌^◌, ◌<◌, ◌≡◌, ◌≢◌, ◌↔◌, ◌∙◌, subst, inl, inr, Option, none, some, arith, ite, nat_key,
  ltb, ℕ_discrete, Option-cases, lookup, lookup-insert, lookup-erase, if◌then◌else◌,
}
use uturn.Addr.{SocketAddr, SocketAddr-discrete, socket_key}
use uturn.Clock.{add64}
use uturn.Lookup.Allocation.{
  Allocation, ChannelBinding, bind_forward, bind_reverse, bind_channel, channel_for_peer,
  live_channel, live_peer, peer_for_channel, channel_lifetime_ms,
}

abbrev pub peer_of : Option ChannelBinding → Option SocketAddr
peer_of none = none
peer_of (some b) = some b.peer_addr

abbrev pub expiry_of : Option ChannelBinding → Option ℕ
expiry_of none = none
expiry_of (some b) = some b.expires_ms

-- The peer that a channel is bound to, live or lapsed.
abbrev pub bound_peer : Allocation → ℕ → Option SocketAddr
bound_peer a channel = peer_of (lookup channel a.channels)

-- The channel that a peer is bound to, live or lapsed.
abbrev pub bound_channel : Allocation → SocketAddr → Option ℕ
bound_channel a peer = lookup peer a.channels_reverse

-- Channel and peer are bound to one another in both maps or in neither.
abbrev pub IsConsistent : Allocation → Type 0
IsConsistent a =
    (channel : ℕ) (peer : SocketAddr)
    → (bound_peer a channel ≡ some peer) ↔ (bound_channel a peer ≡ some channel)

module _ (a : Allocation) (channel : ℕ) (peer : SocketAddr) (expires : ℕ) where
  abbrev half : Allocation
  half = bind_forward channel peer expires (lookup channel a.channels) a

  half_forward :
      (c : ℕ) → bound_peer half c ≡ ite (ℕ_discrete c channel) (some peer) (bound_peer a c)
  unfolding bind_forward
  half_forward c = elim (Option-cases (lookup channel a.channels)) [
    | inl e ↦
        rw (e, bind_forward)
          (ground (
            arith,
            lookup-insert channel c (record { peer_addr = peer; expires_ms = expires }) a.channels,
          ))
    | inr (old, e) ↦
        rw (e, bind_forward)
          (ground (
            arith,
            lookup-insert channel c (record old { expires_ms = expires }) a.channels,
            lookup-insert channel c (record { peer_addr = peer; expires_ms = expires }) a.channels,
          ))
  ]

  half_reverse_none :
      lookup channel a.channels ≡ none → (p : SocketAddr) → bound_channel half p ≡ bound_channel a p
  unfolding bind_forward
  half_reverse_none e p = rw (e, bind_forward)

  half_reverse_same :
      (old : ChannelBinding)
      → lookup channel a.channels ≡ some old
      → old.peer_addr ≡ peer
      → (p : SocketAddr) → bound_channel half p ≡ bound_channel a p
  unfolding bind_forward
  half_reverse_same old e same p = rw (e, bind_forward) (ground arith)

  half_reverse_other :
      (old : ChannelBinding)
      → lookup channel a.channels ≡ some old
      → old.peer_addr ≢ peer
      → (p : SocketAddr)
      → bound_channel half p ≡ ite (SocketAddr-discrete p old.peer_addr) none (bound_channel a p)
  unfolding bind_forward
  half_reverse_other old e other p =
      rw (e, bind_forward) (ground (arith, lookup-erase old.peer_addr p a.channels_reverse))

  -- Halfway only the channel itself is out of step.
  half_reverse :
      IsConsistent a
      → (c : ℕ) (p : SocketAddr)
      → (bound_channel half p ≡ some c)
        ↔ ((bound_channel a p ≡ some c) × ((c ≡ channel) → (p ≡ peer)))
  half_reverse h c p = elim (Option-cases (lookup channel a.channels)) [
    | inl e ↦ ground (arith, half_reverse_none e p, (h c p).1)
    | inr (old, e) ↦ elim (SocketAddr-discrete old.peer_addr peer) [
      | yes same ↦ ground (arith, half_reverse_same old e same p, (h c p).1, (h c p).0)
      | no other ↦
          ground (arith, half_reverse_other old e other p, (h c p).1, (h channel old.peer_addr).0)
    ]
  ]

  abbrev bound : Allocation
  bound = bind_reverse channel peer (lookup peer half.channels_reverse) half

  bound_reverse :
      (p : SocketAddr)
      → bound_channel bound p
        ≡ ite (SocketAddr-discrete p peer) (some channel) (bound_channel half p)
  unfolding bind_reverse
  bound_reverse p = elim (Option-cases (lookup peer half.channels_reverse)) [
    | inl e ↦ rw (e, bind_reverse) (lookup-insert peer p channel half.channels_reverse)
    | inr (old, e) ↦ rw (e, bind_reverse) (lookup-insert peer p channel half.channels_reverse)
  ]

  bound_forward_none :
      bound_channel half peer ≡ none → (c : ℕ) → bound_peer bound c ≡ bound_peer half c
  unfolding bind_reverse
  bound_forward_none e c = rw (e, bind_reverse)

  bound_forward_some :
      (old : ℕ)
      → bound_channel half peer ≡ some old
      → (c : ℕ)
      → bound_peer bound c
        ≡ ite
            (ℕ_discrete old channel)
            (bound_peer half c)
            (ite (ℕ_discrete c old) none (bound_peer half c))
  unfolding bind_reverse
  bound_forward_some old e c =
      rw (e, bind_reverse) (ground (arith, lookup-erase old c half.channels))

  bound-IsConsistent : IsConsistent a → IsConsistent bound
  bound-IsConsistent h c p = elim (Option-cases (bound_channel half peer)) [
    | inl e ↦ ground (
      arith,
      bound_reverse p,
      bound_forward_none e c,
      half_forward c,
      (half_reverse h c p).0,
      (half_reverse h c p).1,
      (half_reverse h c peer).1,
      (h c p).0,
      (h c p).1,
    )
    | inr (old, e) ↦ ground (
      arith,
      bound_reverse p,
      bound_forward_some old e c,
      half_forward c,
      (half_reverse h c p).0,
      (half_reverse h c p).1,
      (half_reverse h c peer).1,
      (half_reverse h old peer).0,
      (half_reverse h c peer).0,
      (h c peer).0,
      (h c peer).1,
      (h c p).0,
      (h c p).1,
    )
  ]

  half_expiry : expiry_of (lookup channel half.channels) ≡ some expires
  unfolding bind_forward
  half_expiry = elim (Option-cases (lookup channel a.channels)) [
    | inl e ↦
        rw (e, bind_forward)
          (ground (
            arith,
            lookup-insert channel channel (record { peer_addr = peer; expires_ms = expires })
                a.channels,
          ))
    | inr (old, e) ↦
        rw (e, bind_forward)
          (ground (
            arith,
            lookup-insert channel channel (record old { expires_ms = expires }) a.channels,
            lookup-insert channel channel (record { peer_addr = peer; expires_ms = expires })
                a.channels,
          ))
  ]

  bound_expiry : IsConsistent a → expiry_of (lookup channel bound.channels) ≡ some expires
  unfolding bind_reverse
  bound_expiry h = elim (Option-cases (bound_channel half peer)) [
    | inl e ↦ rw (e, bind_reverse) half_expiry
    | inr (old, e) ↦
        rw (e, bind_reverse) (ground (arith, half_expiry, lookup-erase old channel half.channels))
  ]

  bound_forward : IsConsistent a → bound_peer bound channel ≡ some peer
  bound_forward h = (bound-IsConsistent h channel peer).1 (bound_reverse peer ∙ ite_same)
    where
      ite_same :
          ite (SocketAddr-discrete peer peer) (some channel) (bound_channel half peer)
          ≡ some channel
      ite_same = ground arith

-- `bind_channel` keeps the channel map and the reverse map inverse to one another, whatever the
-- channel and the peer were bound to before: no peer keeps a channel that was taken from it.
pub bind_channel-IsConsistent :
    (now : ℕ) (a : Allocation) (channel : ℕ) (peer : SocketAddr)
    → IsConsistent a
    → IsConsistent (bind_channel now a channel peer)
unfolding bind_channel
bind_channel-IsConsistent now a channel peer =
    bound-IsConsistent a channel peer (add64 now channel_lifetime_ms)

live_peer-bound :
    (t : ℕ) (o : Option ChannelBinding) (p : SocketAddr) (e : ℕ)
    → peer_of o ≡ some p
    → expiry_of o ≡ some e
    → live_peer t o ≡ (if ltb t e then some p else none)
live_peer-bound t none p e hp he = ground arith
live_peer-bound t (some b) p e hp he = ground arith

live_channel-bound :
    (t : ℕ) (o : Option ChannelBinding) (p : SocketAddr) (c e : ℕ)
    → peer_of o ≡ some p
    → expiry_of o ≡ some e
    → live_channel t p c o ≡ (if ltb t e then some c else none)
live_channel-bound t none p c e hp he = ground arith
live_channel-bound t (some b) p c e hp he = ground arith

channel_for_peer-found :
    (t : ℕ) (a : Allocation) (peer : SocketAddr) (channel : ℕ)
    → lookup peer a.channels_reverse ≡ some channel
    → channel_for_peer t a peer ≡ live_channel t peer channel (lookup channel a.channels)
unfolding channel_for_peer
channel_for_peer-found t a peer channel e = rw (e, channel_for_peer)

module _ (t : ℕ) (a : Allocation) (channel : ℕ) (peer : SocketAddr) (e : ℕ)
    (h : IsConsistent a) where
  peer_for_channel-bound :
      peer_for_channel t (bound a channel peer e) channel ≡ (if ltb t e then some peer else none)
  unfolding peer_for_channel
  peer_for_channel-bound =
      live_peer-bound t _ peer e (bound_forward a channel peer e h)
        (bound_expiry a channel peer e h)

  bound_back : lookup peer (bound a channel peer e).channels_reverse ≡ some channel
  bound_back =
      (bound-IsConsistent a channel peer e h channel peer).0 (bound_forward a channel peer e h)

  channel_for_peer-bound :
      channel_for_peer t (bound a channel peer e) peer ≡ (if ltb t e then some channel else none)
  channel_for_peer-bound =
      channel_for_peer-found t (bound a channel peer e) peer channel bound_back
      ∙ (live_channel-bound t _ peer channel e (bound_forward a channel peer e h)
          (bound_expiry a channel peer e h))

-- After `bind_channel`, and until ten minutes later but no longer, the channel leads to the peer
-- and the peer to the channel, when the two maps were inverse before and the clock is not within
-- ten minutes of 2 ^ 64 milliseconds.
pub bind_channel-lifetime :
    (now t : ℕ) (a : Allocation) (channel : ℕ) (peer : SocketAddr)
    → IsConsistent a
    → now + 600_000 < 2 ^ 64
    → (peer_for_channel t (bind_channel now a channel peer) channel
        ≡ (if ltb t (now + 600_000) then some peer else none))
      × (channel_for_peer t (bind_channel now a channel peer) peer
          ≡ (if ltb t (now + 600_000) then some channel else none))
unfolding bind_channel
bind_channel-lifetime now t a channel peer h small =
    subst
      (λ e.
        (peer_for_channel t (bound a channel peer e) channel
          ≡ (if ltb t (now + 600_000) then some peer else none))
        × (channel_for_peer t (bound a channel peer e) peer
            ≡ (if ltb t (now + 600_000) then some channel else none)))
      in_range
      (
        peer_for_channel-bound t a channel peer (now + 600_000) h,
        channel_for_peer-bound t a channel peer (now + 600_000) h,
      )
  where
    in_range : now + 600_000 ≡ add64 now channel_lifetime_ms
    in_range = omega arith
