-- ===== src/Server/Relay/Inspect.antt =====
-- src/relay/engine.rs: the tests on a payload's first bytes, and the fragments that a Binding
-- request names.
pub mod Totality
use Prim.Native.Nat.{bit_and}
use uturn.Common.{
  ℕ, zero, suc, ◌+◌, ◌-◌, ◌/◌, Bool, false, not, ◌&&◌, Option, none, some, ◌∷◌, leb, ltb, ◌==◌,
  ◌=?◌, length, slice, if◌then◌else◌, Run, done, out_of_fuel, ◌>>=◌, index,
}
use uturn.Common.Bytes.{Bytes, Str, read16, from_utf8, padded}
use uturn.Addr.{octets_key}
use uturn.Demux.Stun.Attributes.{magic_bytes}
use uturn.Demux.Stun.Parse.{split_colon}

unfoldable pub is_dtls : Bytes → Run Bool
is_dtls bytes = if ltb (length bytes) 3 then done false else do
  content_type ← index bytes 0
  if not (leb 0x14 content_type && leb content_type 0x19)
      then done false
      else do version ← index bytes 1; done (version == 0xFE)

-- The code asks this for its log only.
unfoldable pub is_rtp : Bytes → Run Bool
unfolding is_dtls
is_rtp bytes = if ltb (length bytes) 2 then done false else do
  dtls ← is_dtls bytes
  if dtls then done false else do
    second ← index bytes 1
    done (not (leb 64 (bit_and second 0x7F) && ltb (bit_and second 0x7F) 96))

unfoldable pub is_stun : Bytes → Run Bool
unfolding slice
is_stun bytes = if ltb (length bytes) 20 then done false else do
  first ← index bytes 0
  if not (first / 64 == 0)
      then done false
      else do cookie ← slice bytes 4 8; done (cookie =? magic_bytes)

-- The names in a USERNAME attribute that reads as UTF-8 with a colon
abbrev pub ufrags_in : ℕ → Bytes → Option (Str × Str)
ufrags_in attr_type value =
    if attr_type == 0x0006
    then elim (from_utf8 value) [ none ↦ none | some username ↦ split_colon username ]
    else none

unfoldable pub find_ufrags : ℕ → Bytes → ℕ → ℕ → Run (Option (Str × Str))
unfolding read16 padded slice
find_ufrags zero bytes msg_len offset = out_of_fuel
find_ufrags (suc fuel) bytes msg_len offset =
    if ltb (20 + msg_len) (offset + 4) then done none else do
      attr_type ← read16 bytes offset
      attr_len ← read16 bytes (offset + 2)
      let rest = find_ufrags fuel bytes msg_len (offset + (4 + padded attr_len))
      if ltb (length bytes) (offset + 4 + attr_len) then done none else do
        value ← slice bytes (offset + 4) (offset + 4 + attr_len)
        elim (ufrags_in attr_type value) [ some ufrags ↦ done (some ufrags) | none ↦ rest ]

-- Each round moves on by four bytes at least.
unfoldable pub extract_stun_ufrags : Bytes → Run (Option (Str × Str))
unfolding read16 find_ufrags
extract_stun_ufrags bytes = if ltb (length bytes) 20 then done none else do
  msg_len ← read16 bytes 2
  if ltb (length bytes) (20 + msg_len)
      then done none
      else find_ufrags (suc msg_len) bytes msg_len 20
