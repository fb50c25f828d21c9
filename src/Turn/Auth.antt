-- ===== src/Turn/Auth.antt =====
-- src/turn/auth.rs: long-term and time-limited credentials, MESSAGE-INTEGRITY and nonces. The
-- HMAC-SHA1, MD5 and base64 of the crates are parameters; the seconds of the system clock are the
-- argument `now` or `timestamp`.
pub mod Compare
use Prim.Native.Nat.{bit_and, bit_or, bit_xor}
use uturn.Common.{
  ℕ, zero, suc, ◌+◌, ◌-◌, ◌*◌, ◌/◌, ◌%◌, ◌^◌, Bool, true, false, not, ◌&&◌, ◌||◌, Option, none,
  some, List, [], ◌∷◌, ◌++◌, ltb, leb, ◌==◌, if◌then◌else◌, length,
}
use uturn.Common.Bytes.{Bytes, Str}
use uturn.Demux.Stun.Parse.{split_colon}

unfoldable pub compute_key : (Bytes → Bytes) → Str → Str → Str → Bytes
compute_key md5 username realm password = md5 (username ++ (b':' ∷ (realm ++ (b':' ∷ password))))

unfoldable pub all_digits : Str → Bool
all_digits [] = true
all_digits (c ∷ s) = (leb b'0' c && leb c b'9') && all_digits s

unfoldable pub decimal : Str → ℕ → ℕ
decimal [] n = n
decimal (c ∷ s) n = decimal s (n * 10 + (c - b'0'))

abbrev pub in_u64 : ℕ → Option ℕ
in_u64 n = if ltb n (2 ^ 64) then some n else none

-- The inner function of `ephemeral_expiry`; `parse` fails where the number does not fit a `u64`.
unfoldable pub timestamp_of : Str → Option ℕ
unfolding all_digits decimal
timestamp_of s = if length s == 0 || not (all_digits s) then none else in_u64 (decimal s 0)

abbrev pub or_else : Option ℕ → Option ℕ → Option ℕ
or_else none other = other
or_else (some n) other = some n

unfoldable pub ephemeral_expiry : Str → Option ℕ
unfolding timestamp_of
ephemeral_expiry username = elim (split_colon username) [
  | some (head, tail) ↦ or_else (timestamp_of head) (timestamp_of tail)
  | none ↦ timestamp_of username
]

unfoldable pub ephemeral_password : (Bytes → Bytes → Bytes) → (Bytes → Str) → Str → Str → Str
ephemeral_password hmac_sha1 base64 secret username = base64 (hmac_sha1 secret username)

unfoldable pub compute_message_integrity : (Bytes → Bytes → Bytes) → Bytes → Bytes → Bytes
compute_message_integrity hmac_sha1 message key = hmac_sha1 key message

-- `for (a, b) in computed.iter().zip(..) { diff |= a ^ b; }`
unfoldable pub diff_of : Bytes → Bytes → ℕ → ℕ
diff_of (a ∷ computed) (b ∷ received) diff = diff_of computed received (bit_or diff (bit_xor a b))
diff_of computed received diff = diff

unfoldable pub verify_message_integrity : (Bytes → Bytes → Bytes) → Bytes → Bytes → Bytes → Bool
unfolding compute_message_integrity diff_of
verify_message_integrity hmac_sha1 message received_integrity key =
    let computed = compute_message_integrity hmac_sha1 message key in
    if not (length received_integrity == 20)
    then false
    else diff_of computed received_integrity 0 == 0
