-- ===== src/Turn/Nonce.antt =====
-- src/turn/auth.rs: nonces. `format!("{:016x}")` and `u64::from_str_radix(.., 16)` are written out;
-- the system clock's seconds are the argument `timestamp` or `now`.
pub mod RoundTrip
use Prim.Native.Nat.{bit_xor}
use uturn.Common.{
  ℕ, zero, suc, ◌+◌, ◌-◌, ◌*◌, ◌/◌, ◌%◌, ◌^◌, Bool, true, false, ◌&&◌, Option, none, some, List, [],
  ◌∷◌, ◌++◌, ltb, leb, ◌==◌, if◌then◌else◌, take,
}
use uturn.Common.Bytes.{Bytes, Str, be32, bytes32}

-- `to_be_bytes` of a `u64`
unfoldable pub bytes64 : ℕ → Bytes
unfolding bytes32
bytes64 n = bytes32 (n / 2 ^ 32) ++ bytes32 n

-- `u64::from_be_bytes`
unfoldable pub number_of : Bytes → ℕ → ℕ
number_of [] n = n
number_of (b ∷ bs) n = number_of bs (n * 256 + b)

unfoldable pub hex_digit : ℕ → ℕ
hex_digit d = if ltb d 10 then b'0' + d else b'a' + (d - 10)

-- The `count` lowest digits, the highest first.
unfoldable pub hex : ℕ → ℕ → Str
hex zero n = []
hex (suc count) n = hex count (n / 16) ++ (hex_digit (n % 16) ∷ [])

unfoldable pub digit_of : ℕ → Option ℕ
digit_of c =
    if leb b'0' c && leb c b'9'
    then some (c - b'0')
    else if leb b'a' c && leb c b'f'
    then some (c - b'a' + 10)
    else if leb b'A' c && leb c b'F'
    then some (c - b'A' + 10)
    else none

-- Digits one by one, an error where one is none or where the number passes a `u64`.
unfoldable pub from_digits : Str → ℕ → Option ℕ
from_digits [] n = some n
from_digits (c ∷ s) n = elim (digit_of c) [
  | none ↦ none
  | some d ↦ if ltb (n * 16 + d) (2 ^ 64) then from_digits s (n * 16 + d) else none
]

unfoldable pub from_hex : Str → Option ℕ
unfolding from_digits digit_of
from_hex [] = none
from_hex (c ∷ []) = from_digits (c ∷ []) 0
from_hex (c ∷ d ∷ s) = if c == b'+' then from_digits (d ∷ s) 0 else from_digits (c ∷ d ∷ s) 0

-- `split(':')`: the part before the first colon, and the parts behind it.
unfoldable pub split : Str → Str × List Str
split [] = ([], [])
split (c ∷ s) =
    let (part, parts) = split s in if c == b':' then ([], part ∷ parts) else (c ∷ part, parts)

-- The first eight bytes of the HMAC over the timestamp.
unfoldable pub nonce_hmac : (Bytes → Bytes → Bytes) → Bytes → ℕ → ℕ
unfolding bytes64 number_of
nonce_hmac hmac_sha1 secret timestamp = number_of (take 8 (hmac_sha1 secret (bytes64 timestamp))) 0

unfoldable pub generate_nonce : (Bytes → Bytes → Bytes) → ℕ → Bytes → Str
unfolding nonce_hmac hex
generate_nonce hmac_sha1 timestamp secret =
    hex 16 timestamp ++ (b':' ∷ hex 16 (nonce_hmac hmac_sha1 secret timestamp))

-- Both parts read: the HMAC and the age, each computed whatever the other says.
unfoldable pub validate_values :
    (Bytes → Bytes → Bytes) → ℕ → Option ℕ → Option ℕ → ℕ → Bytes → Bool
unfolding nonce_hmac
validate_values hmac_sha1 now none provided max_age_secs secret = false
validate_values hmac_sha1 now (some timestamp) none max_age_secs secret = false
validate_values hmac_sha1 now (some timestamp) (some provided_hmac) max_age_secs secret =
    (bit_xor provided_hmac (nonce_hmac hmac_sha1 secret timestamp) == 0)
    && (leb timestamp now && ltb (now - timestamp) max_age_secs)

unfoldable pub validate_parts : (Bytes → Bytes → Bytes) → ℕ → Str → Str → ℕ → Bytes → Bool
unfolding from_hex validate_values
validate_parts hmac_sha1 now stamp mac max_age_secs secret =
    validate_values hmac_sha1 now (from_hex stamp) (from_hex mac) max_age_secs secret

-- Exactly two parts
unfoldable pub validate_split : (Bytes → Bytes → Bytes) → ℕ → Str × List Str → ℕ → Bytes → Bool
unfolding validate_parts
validate_split hmac_sha1 now (stamp, []) max_age_secs secret = false
validate_split hmac_sha1 now (stamp, mac ∷ []) max_age_secs secret =
    validate_parts hmac_sha1 now stamp mac max_age_secs secret
validate_split hmac_sha1 now (stamp, mac ∷ extra ∷ parts) max_age_secs secret = false

unfoldable pub validate_nonce : (Bytes → Bytes → Bytes) → ℕ → Str → ℕ → Bytes → Bool
unfolding split validate_split
validate_nonce hmac_sha1 now nonce max_age_secs secret =
    validate_split hmac_sha1 now (split nonce) max_age_secs secret
