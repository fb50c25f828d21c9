-- ===== src/Turn/Peers.antt =====
-- src/turn/handler.rs: the peer addresses that the server refuses to relay to. The predicates of
-- `std::net` are written out.
use Prim.Native.Nat.{bit_and}
use uturn.Common.{
  ℕ, Bool, true, false, not, ◌&&◌, ◌||◌, Option, none, some, List, [], ◌∷◌, leb, ◌==◌, ◌=?◌, take,
  drop, replicate, ◌++◌, if◌then◌else◌,
}
use uturn.Common.Bytes.{Bytes, be16}
use uturn.Addr.{IpAddr, v4, v6, SocketAddr, ip_key, octets_key}
use uturn.Config.{Config}

unfoldable pub is_forbidden_v4 : ℕ → ℕ → ℕ → ℕ → Bool
is_forbidden_v4 a b c d =
    a == 127
    || ((leb 224 a && leb a 239)
        || ((a == 255 && (b == 255 && (c == 255 && d == 255)))
            || ((a == 0 && (b == 0 && (c == 0 && d == 0))) || (a == 169 && b == 254))))

abbrev pub all_zero : Bytes → Bool
all_zero [] = true
all_zero (x ∷ xs) = x == 0 && all_zero xs

-- `::ffff:a.b.c.d`
unfoldable pub mapped_tail : Bytes → Option (List ℕ)
mapped_tail (x ∷ y ∷ octets) = if x == 255 && y == 255 then some octets else none
mapped_tail octets = none

unfoldable pub to_ipv4_mapped : Bytes → Option (List ℕ)
unfolding mapped_tail
to_ipv4_mapped octets = if all_zero (take 10 octets) then mapped_tail (drop 10 octets) else none

-- `segments()[0]`
abbrev pub first_segment : Bytes → ℕ
first_segment (a ∷ b ∷ octets) = be16 a b
first_segment octets = 0

abbrev pub first_octet : Bytes → ℕ
first_octet (a ∷ octets) = a
first_octet [] = 0

-- Not an IPv4-mapped address.
unfoldable pub is_forbidden_v6 : Bytes → Bool
is_forbidden_v6 octets =
    (octets =? (replicate 15 0 ++ (1 ∷ [])))
    || ((first_octet octets == 255)
        || ((octets =? replicate 16 0) || (bit_and (first_segment octets) 0xffc0 == 0xfe80)))

unfoldable pub forbidden_mapped : List ℕ → Bool
unfolding is_forbidden_v4
forbidden_mapped (a ∷ b ∷ c ∷ d ∷ octets) = is_forbidden_v4 a b c d
forbidden_mapped octets = false

unfoldable pub is_forbidden_peer_ip : IpAddr → Bool
unfolding is_forbidden_v4 is_forbidden_v6 forbidden_mapped to_ipv4_mapped
is_forbidden_peer_ip (v4 a b c d) = is_forbidden_v4 a b c d
is_forbidden_peer_ip (v6 octets) = elim (to_ipv4_mapped octets) [
  | some mapped ↦ forbidden_mapped mapped
  | none ↦ is_forbidden_v6 octets
]

unfoldable pub is_forbidden_peer_addr : Config → SocketAddr → Bool
unfolding is_forbidden_peer_ip
is_forbidden_peer_addr config addr =
    is_forbidden_peer_ip addr.ip
    || ((addr.ip =? config.external_ip) && not (addr.port == config.port))
