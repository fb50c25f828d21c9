-- ===== src/Turn/Nonce/RoundTrip.antt =====
-- A nonce that the server made passes its own check, until it is too old.
use Prim.Native.Nat.{bit_xor, bit_xor-bitwise, digits, differ}
use native.Mathlib.Nat.{pow-succ', mul_assoc}
use uturn.Turn.Auth.Compare.{AreBytes}
use uturn.Common.{
  ℕ, zero, suc, ◌+◌, ◌-◌, ◌*◌, ◌/◌, ◌%◌, ◌^◌, ◌<◌, ◌≤◌, ◌≡◌, ◌≢◌, refl, sym, ap, ◌∙◌, false, ◌&&◌,
  some, [], ◌∷◌, ◌++◌, ltb, leb, ◌==◌, arith, inl, inr, Option-cases, All, take, length,
  length-take, subst, if_false,
}
use uturn.Common.Bytes.{Bytes, Str}
use uturn.Turn.Nonce.{
  hex_digit, hex, digit_of, from_digits, from_hex, split, nonce_hmac, generate_nonce,
  validate_parts, validate_nonce, validate_split, validate_values, number_of, bytes64,
}

digit_of-hex_digit : (d : ℕ) → d < 16 → digit_of (hex_digit d) ≡ some d
unfolding digit_of hex_digit
digit_of-hex_digit d small = ground arith

hex_digit_ne_colon : (d : ℕ) → d < 16 → hex_digit d ≢ b':'
unfolding hex_digit
hex_digit_ne_colon d small e = ground arith

hex_digit_ne_plus : (d : ℕ) → d < 16 → (hex_digit d == b'+') ≡ false
unfolding hex_digit
hex_digit_ne_plus d small = ground arith

-- One digit more at the end.
from_digits-snoc :
    (s : Str) (c acc m d : ℕ)
    → from_digits s acc ≡ some m
    → digit_of c ≡ some d
    → m * 16 + d < 2 ^ 64
    → from_digits (s ++ (c ∷ [])) acc ≡ some (m * 16 + d)
unfolding from_digits
from_digits-snoc [] c acc m d e dc small = ground (arith, dc, e)
from_digits-snoc (x ∷ s) c acc m d e dc small = elim (Option-cases (digit_of x)) [
  | inl bad ↦ ground (arith, bad, e)
  | inr (y, good) ↦ ground (arith, good, e, dc, from_digits-snoc s c (acc * 16 + y) m d)
]

from_digits-hex : (count n : ℕ) → n < 16 ^ count → n < 2 ^ 64 → from_digits (hex count n) 0 ≡ some n
unfolding hex from_digits
from_digits-hex zero n under small = ap some (omega (arith, under))
from_digits-hex (suc count) n under small =
    let power = pow-succ' 16 count in
    let ih = from_digits-hex count (n / 16) (omega (arith, under, power)) (omega arith) in
    from_digits-snoc (hex count (n / 16)) (hex_digit (n % 16)) 0 (n / 16) (n % 16) ih
      (digit_of-hex_digit (n % 16) (omega arith)) (omega arith)
    ∙ ap some (omega arith)

-- What was printed in sixteen digits reads back.
from_hex-hex : (n : ℕ) → n < 2 ^ 64 → from_hex (hex 16 n) ≡ some n
unfolding from_hex hex
from_hex-hex n small =
    if_false _ _ _ (hex_digit_ne_plus _ (omega arith)) ∙ from_digits-hex 16 n (omega arith) small

All-snoc :
    (s : Str) (c : ℕ) → All (λ c. c ≢ b':') s → c ≢ b':' → All (λ c. c ≢ b':') (s ++ (c ∷ []))
All-snoc [] c h hc = (hc, tt)
All-snoc (x ∷ s) c (hx, h) hc = (hx, All-snoc s c h hc)

hex-All : (count n : ℕ) → All (λ c. c ≢ b':') (hex count n)
unfolding hex
hex-All zero n = tt
hex-All (suc count) n =
    All-snoc (hex count (n / 16)) (hex_digit (n % 16)) (hex-All count (n / 16))
      (hex_digit_ne_colon (n % 16) (omega arith))

split_whole : (s : Str) → All (λ c. c ≢ b':') s → split s ≡ (s, [])
unfolding split
split_whole [] h = refl
split_whole (c ∷ s) (hc, h) = ground (arith, hc, split_whole s h)

split_at_colon :
    (s u : Str) → All (λ c. c ≢ b':') s → split (s ++ (b':' ∷ u)) ≡ (s, (split u).0 ∷ (split u).1)
unfolding split
split_at_colon [] u h = refl
split_at_colon (c ∷ s) u (hc, h) = ground (arith, hc, split_at_colon s u h)

differ_self : (x : ℕ) → differ x x ≡ 0
differ_self zero = refl
differ_self (suc x) = differ_self x

digits-differ_self : (n a : ℕ) → a ≤ n → digits (λ b. b) differ n a a ≡ 0
digits-differ_self zero a h = omega arith
digits-differ_self (suc n) zero h = refl
digits-differ_self (suc n) (suc a) h =
    omega (arith, digits-differ_self n (suc a / 2) (omega arith), differ_self (suc a % 2))

bit_xor_self : (n : ℕ) → bit_xor n n ≡ 0
bit_xor_self n = bit_xor-bitwise n n ∙ digits-differ_self n n (omega arith)

number_of-lt :
    (bytes : Bytes) (n bound : ℕ)
    → AreBytes bytes
    → n < bound
    → number_of bytes n < bound * 256 ^ length bytes
unfolding number_of
number_of-lt [] n bound h under = omega (arith, under)
number_of-lt (b ∷ bytes) n bound (hb, h) under =
    let ih = number_of-lt bytes (n * 256 + b) (bound * 256) h (omega arith) in
    subst (λ m. number_of bytes (n * 256 + b) < m)
      (mul_assoc bound 256 (256 ^ length bytes)
        ∙ ap (λ p. bound * p) (sym (pow-succ' 256 (length bytes))))
      ih

-- What the model takes the crate's HMAC-SHA1 for: it gives twenty bytes.
abbrev pub IsDigest : (Bytes → Bytes → Bytes) → Type 0
IsDigest hmac_sha1 =
    (key message : Bytes) → AreBytes (hmac_sha1 key message) × (length (hmac_sha1 key message) ≡ 20)

take-AreBytes : (n : ℕ) (bytes : Bytes) → AreBytes bytes → AreBytes (take n bytes)
take-AreBytes zero bytes h = tt
take-AreBytes (suc n) [] h = tt
take-AreBytes (suc n) (b ∷ bytes) (hb, h) = (hb, take-AreBytes n bytes h)

module _ (hmac_sha1 : Bytes → Bytes → Bytes) (secret : Bytes) (digest : IsDigest hmac_sha1) where
  nonce_hmac-lt : (timestamp : ℕ) → nonce_hmac hmac_sha1 secret timestamp < 2 ^ 64
  unfolding nonce_hmac
  nonce_hmac-lt timestamp =
      let mac = hmac_sha1 secret (bytes64 timestamp) in
      let d = digest secret (bytes64 timestamp) in
      let eight : length (take 8 mac) ≡ 8 = omega (arith, length-take 8 mac, d.1) in
      subst (λ n. number_of (take 8 mac) 0 < 1 * 256 ^ n) eight
        (number_of-lt (take 8 mac) 0 1 (take-AreBytes 8 mac d.0) (omega arith))

  validate_parts_fresh :
      (timestamp now max_age_secs : ℕ)
      → timestamp < 2 ^ 64
      → validate_parts hmac_sha1 now
          (hex 16 timestamp)
          (hex 16 (nonce_hmac hmac_sha1 secret timestamp))
          max_age_secs
          secret
        ≡ (leb timestamp now && ltb (now - timestamp) max_age_secs)
  unfolding validate_parts validate_values
  validate_parts_fresh timestamp now max_age_secs small =
      let mac = nonce_hmac hmac_sha1 secret timestamp in
      ap (λ o. validate_values hmac_sha1 now o (from_hex (hex 16 mac)) max_age_secs secret)
        (from_hex-hex timestamp small)
      ∙ (ap (λ o. validate_values hmac_sha1 now (some timestamp) o max_age_secs secret)
            (from_hex-hex mac (nonce_hmac-lt timestamp))
          ∙ ap (λ x. (x == 0) && (leb timestamp now && ltb (now - timestamp) max_age_secs))
              (bit_xor_self mac))

  -- A nonce that the server made at `timestamp` passes the check exactly from that second on and
  -- until `max_age_secs` seconds have passed, where the timestamp fits 64 bits and the HMAC gives
  -- twenty bytes.
  pub validate_nonce-generate_nonce :
      (timestamp now max_age_secs : ℕ)
      → timestamp < 2 ^ 64
      → validate_nonce hmac_sha1 now (generate_nonce hmac_sha1 timestamp secret) max_age_secs secret
        ≡ (leb timestamp now && ltb (now - timestamp) max_age_secs)
  unfolding validate_nonce validate_split generate_nonce
  validate_nonce-generate_nonce timestamp now max_age_secs small =
      let mac = nonce_hmac hmac_sha1 secret timestamp in
      let two_parts : split (hex 16 timestamp ++ (b':' ∷ hex 16 mac))
          ≡ (hex 16 timestamp, hex 16 mac ∷ []) =
        split_at_colon (hex 16 timestamp) (hex 16 mac) (hex-All 16 timestamp)
        ∙ ap (λ r. (hex 16 timestamp, r.0 ∷ r.1)) (split_whole (hex 16 mac) (hex-All 16 mac)) in
      ap (λ parts. validate_split hmac_sha1 now parts max_age_secs secret) two_parts
      ∙ validate_parts_fresh timestamp now max_age_secs small
