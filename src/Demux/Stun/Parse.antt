-- ===== src/Demux/Stun/Parse.antt =====
-- src/demux/stun.rs: `StunInfo::parse` and `parse_ice_username`.
use uturn.Common.{
  ℕ, ◌+◌, Option, none, some, [], ◌∷◌, ltb, ◌==◌, if◌then◌else◌, not, Run, done, ◌>>=◌, slice,
  length,
}
use uturn.Common.Bytes.{Bytes, Str, read16, read32}
use uturn.Demux.Stun.{StunClass, StunInfo, magic_cookie}
use uturn.Demux.Stun.Header.{class_bits, class_of, method_bits, method_of}
use uturn.Demux.Stun.Attributes.{parse_attributes}

-- From the message length on.
unfoldable pub parse_body : Bytes → ℕ → StunClass → Run (Option StunInfo)
unfolding read16
parse_body bytes msg_type class = do
  msg_len ← read16 bytes 2
  if ltb (length bytes) (20 + msg_len) then done none else do
    transaction_id ← slice bytes 8 20
    body ← slice bytes 20 (20 + msg_len)
    attrs ← parse_attributes body transaction_id
    done (
        some (record {
          class = class;
          method = method_of (method_bits msg_type);
          transaction_id = transaction_id;
          attrs = attrs;
          raw = bytes;
        }))

unfoldable pub parse : Bytes → Run (Option StunInfo)
unfolding parse_body read16 read32
parse bytes = if ltb (length bytes) 20 then done none else do
  magic ← read32 bytes 4
  if not (magic == magic_cookie) then done none else do
    msg_type ← read16 bytes 0
    elim (class_of (class_bits msg_type)) [
      | none ↦ done none
      | some class ↦ parse_body bytes msg_type class
    ]

-- `splitn(2, ':')`: `none` when there is no colon.
unfoldable pub split_colon : Str → Option (Str × Str)
split_colon [] = none
split_colon (c ∷ s) =
    if c == b':'
    then some ([], s)
    else elim (split_colon s) [ none ↦ none | some (a, b) ↦ some (c ∷ a, b) ]

unfoldable pub parse_ice_username : StunInfo → Option (Str × Str)
unfolding split_colon
parse_ice_username info = elim info.username [ none ↦ none | some u ↦ split_colon u ]
