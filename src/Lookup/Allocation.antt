-- ===== src/Lookup/Allocation.antt =====
-- src/lookup/table.rs: one TURN allocation. The coarse clock's reading is the argument `now`; the
-- atomics and the locked maps are plain fields, since each method reads and writes them in one go.
pub mod Channels
pub mod Permissions
pub mod Timers
use uturn.Common.{
  ℕ, suc, ◌+◌, ◌-◌, ◌*◌, ◌/◌, ◌%◌, ◌^◌, Bool, true, false, ◌&&◌, not, Option, none, some, List, [],
  ◌∷◌, ltb, leb, if◌then◌else◌, ◌=?◌, nat_key, lookup, insert, erase,
}
use uturn.Common.Bytes.{Bytes, Str}
use uturn.Addr.{IpAddr, SocketAddr, ip_key, socket_key, octets_key, Octets-discrete}
use uturn.Clock.{add64, is_expired_secs}

abbrev pub channel_lifetime_ms : ℕ
channel_lifetime_ms = 600_000

abbrev pub permission_lifetime_ms : ℕ
permission_lifetime_ms = 300_000

pub record ChannelBinding : Type 0 where
  pub peer_addr : SocketAddr
  pub expires_ms : ℕ

-- `PeerInfo`
pub record PeerInfo : Type 0 where
  pub last_seen_ms : ℕ

pub record Allocation : Type 0 where
  pub id : ℕ
  pub client_addr : SocketAddr
  pub permissions : List (IpAddr × ℕ)
  pub channels : List (ℕ × ChannelBinding)
  pub channels_reverse : List (SocketAddr × ℕ)
  pub known_peers : List (SocketAddr × PeerInfo)
  pub expires_at_ms : ℕ
  pub lifetime_secs : ℕ
  pub last_activity_ms : ℕ
  pub last_received_ms : ℕ
  pub last_successful_relay_ms : ℕ
  pub has_relay_attempt : Bool
  pub username : Str
  pub allocate_txn_id : Bytes
  pub ice_ufrag : Option Str
  pub ice_remote_ufrag : Option Str

-- `Allocation::new`, under the id that the counter gave
unfoldable pub new_allocation : ℕ → ℕ → SocketAddr → Str → ℕ → Bytes → Allocation
new_allocation id now client_addr username lifetime_secs allocate_txn_id = record {
  id = id;
  client_addr = client_addr;
  permissions = [];
  channels = [];
  channels_reverse = [];
  known_peers = [];
  expires_at_ms = add64 now (lifetime_secs * 1000);
  lifetime_secs = lifetime_secs;
  last_activity_ms = now;
  last_received_ms = now;
  last_successful_relay_ms = 0;
  has_relay_attempt = false;
  username = username;
  allocate_txn_id = allocate_txn_id;
  ice_ufrag = none;
  ice_remote_ufrag = none;
}

-- `guard.as_ref() == Some(&ufrag)`
abbrev pub holds_ufrag : Option Str → Str → Bool
holds_ufrag none ufrag = false
holds_ufrag (some u) ufrag = u =? ufrag

unfoldable pub set_ice_ufrag : Allocation → Str → Allocation × Bool
set_ice_ufrag a ufrag =
    if holds_ufrag a.ice_ufrag ufrag
    then (a, false)
    else (record a { ice_ufrag = some ufrag }, true)

unfoldable pub set_ice_remote_ufrag : Allocation → Str → Allocation × Bool
set_ice_remote_ufrag a ufrag =
    if holds_ufrag a.ice_remote_ufrag ufrag
    then (a, false)
    else (record a { ice_remote_ufrag = some ufrag }, true)

abbrev pub before : ℕ → Option ℕ → Bool
before now none = false
before now (some expires_ms) = ltb now expires_ms

unfoldable pub is_permitted : ℕ → Allocation → IpAddr → Bool
is_permitted now a peer_ip = before now (lookup peer_ip a.permissions)

-- `Allocation::add_permission`
unfoldable pub permit : ℕ → Allocation → IpAddr → Allocation
permit now a peer_ip = record a {
  permissions = insert peer_ip (add64 now permission_lifetime_ms) a.permissions;
}

unfoldable pub count_live : ℕ → List (IpAddr × ℕ) → ℕ
count_live now [] = 0
count_live now ((_, expires) ∷ perms) =
    if ltb now expires then suc (count_live now perms) else count_live now perms

unfoldable pub permissions_count : ℕ → Allocation → ℕ
unfolding count_live
permissions_count now a = count_live now a.permissions

unfoldable pub expired_ips : ℕ → List (IpAddr × ℕ) → List IpAddr
expired_ips now [] = []
expired_ips now ((ip, expires) ∷ perms) =
    if leb expires now then ip ∷ expired_ips now perms else expired_ips now perms

-- `for ip in &expired { perms.remove(ip); }`
unfoldable pub erase_all : List IpAddr → List (IpAddr × ℕ) → List (IpAddr × ℕ)
erase_all [] perms = perms
erase_all (ip ∷ ips) perms = erase_all ips (erase ip perms)

unfoldable pub cleanup_expired_permissions : ℕ → Allocation → Allocation × List IpAddr
unfolding expired_ips erase_all
cleanup_expired_permissions now a =
    let expired = expired_ips now a.permissions in
    (record a { permissions = erase_all expired a.permissions }, expired)

-- `ChannelBinding::is_live`
unfoldable pub is_live : ℕ → ChannelBinding → Bool
is_live now b = ltb now b.expires_ms

-- The channel's entry in `channels`: refreshed, replaced, or made.
unfoldable pub bind_forward : ℕ → SocketAddr → ℕ → Option ChannelBinding → Allocation → Allocation
bind_forward channel peer_addr expires_ms none a = record a {
  channels = insert channel (record { peer_addr = peer_addr; expires_ms = expires_ms }) a.channels;
}
bind_forward channel peer_addr expires_ms (some old) a =
    if old.peer_addr =? peer_addr
    then record a { channels = insert channel (record old { expires_ms = expires_ms }) a.channels }
    else record a {
      channels =
          insert channel (record { peer_addr = peer_addr; expires_ms = expires_ms }) a.channels;
      channels_reverse = erase old.peer_addr a.channels_reverse;
    }

-- The peer's entry in `channels_reverse`, and what it displaced.
unfoldable pub bind_reverse : ℕ → SocketAddr → Option ℕ → Allocation → Allocation
bind_reverse channel peer_addr none a = record a {
  channels_reverse = insert peer_addr channel a.channels_reverse;
}
bind_reverse channel peer_addr (some old_channel) a = record a {
  channels_reverse = insert peer_addr channel a.channels_reverse;
  channels = if old_channel =? channel then a.channels else erase old_channel a.channels;
}

unfoldable pub bind_channel : ℕ → Allocation → ℕ → SocketAddr → Allocation
unfolding bind_forward bind_reverse
bind_channel now a channel peer_addr =
    let a' =
      bind_forward channel peer_addr (add64 now channel_lifetime_ms) (lookup channel a.channels)
        a in
    bind_reverse channel peer_addr (lookup peer_addr a'.channels_reverse) a'

unfoldable pub count_channels : ℕ → List (ℕ × ChannelBinding) → ℕ
unfolding is_live
count_channels now [] = 0
count_channels now ((_, b) ∷ channels) =
    if is_live now b then suc (count_channels now channels) else count_channels now channels

unfoldable pub channels_count : ℕ → Allocation → ℕ
unfolding count_channels
channels_count now a = count_channels now a.channels

abbrev pub live_channel : ℕ → SocketAddr → ℕ → Option ChannelBinding → Option ℕ
live_channel now peer_addr channel none = none
live_channel now peer_addr channel (some b) =
    if (b.peer_addr =? peer_addr) && ltb now b.expires_ms then some channel else none

unfoldable pub channel_for_peer : ℕ → Allocation → SocketAddr → Option ℕ
channel_for_peer now a peer_addr = elim (lookup peer_addr a.channels_reverse) [
  | none ↦ none
  | some channel ↦ live_channel now peer_addr channel (lookup channel a.channels)
]

abbrev pub live_peer : ℕ → Option ChannelBinding → Option SocketAddr
live_peer now none = none
live_peer now (some b) = if ltb now b.expires_ms then some b.peer_addr else none

unfoldable pub peer_for_channel : ℕ → Allocation → ℕ → Option SocketAddr
peer_for_channel now a channel = live_peer now (lookup channel a.channels)

unfoldable pub lapsed_channels : ℕ → List (ℕ × ChannelBinding) → List (ℕ × SocketAddr)
unfolding is_live
lapsed_channels now [] = []
lapsed_channels now ((channel, b) ∷ channels) =
    if not (is_live now b)
    then (channel, b.peer_addr) ∷ lapsed_channels now channels
    else lapsed_channels now channels

-- `channels_reverse.remove_if(&peer_addr, |_, &ch| ch == channel)`
unfoldable pub forget_reverse : ℕ → SocketAddr → List (SocketAddr × ℕ) → List (SocketAddr × ℕ)
forget_reverse channel peer_addr reverse = elim (lookup peer_addr reverse) [
  | none ↦ reverse
  | some ch ↦ if ch =? channel then erase peer_addr reverse else reverse
]

unfoldable pub drop_channels : List (ℕ × SocketAddr) → Allocation → Allocation
unfolding forget_reverse
drop_channels [] a = a
drop_channels ((channel, peer_addr) ∷ lapsed) a = drop_channels lapsed (record a {
  channels = erase channel a.channels;
  channels_reverse = forget_reverse channel peer_addr a.channels_reverse;
})

unfoldable pub cleanup_expired_channels : ℕ → Allocation → Allocation
unfolding lapsed_channels drop_channels
cleanup_expired_channels now a = drop_channels (lapsed_channels now a.channels) a

unfoldable pub touch : ℕ → Allocation → Allocation
touch now a = record a { last_activity_ms = now }

unfoldable pub touch_received : ℕ → Allocation → Allocation
touch_received now a = record a { last_received_ms = now; last_activity_ms = now }

unfoldable pub is_inactive : ℕ → Allocation → ℕ → Bool
unfolding is_expired_secs
is_inactive now a timeout_secs = is_expired_secs now a.last_received_ms timeout_secs

unfoldable pub touch_relay_success : ℕ → Allocation → Allocation
touch_relay_success now a = record a { last_successful_relay_ms = now; has_relay_attempt = true }

unfoldable pub touch_relay_attempt : ℕ → Allocation → Allocation
touch_relay_attempt now a =
    if a.has_relay_attempt
    then a
    else record a { has_relay_attempt = true; last_successful_relay_ms = now }

unfoldable pub is_orphaned_sender : ℕ → Allocation → ℕ → Bool
unfolding is_expired_secs
is_orphaned_sender now a timeout_secs =
    if not a.has_relay_attempt
    then false
    else is_expired_secs now a.last_successful_relay_ms timeout_secs

unfoldable pub is_expired : ℕ → Allocation → Bool
is_expired now a = ltb a.expires_at_ms now

unfoldable pub refresh : ℕ → Allocation → ℕ → Allocation
refresh now a lifetime_secs = record a {
  expires_at_ms = add64 now (lifetime_secs * 1000);
  lifetime_secs = lifetime_secs;
}

-- The cast `as u32` is written out.
unfoldable pub remaining_lifetime : ℕ → Allocation → ℕ
remaining_lifetime now a =
    if ltb now a.expires_at_ms then (a.expires_at_ms - now) / 1000 % 2 ^ 32 else 0
