-- ===== src/Turn/Auth/Compare.antt =====
-- The comparison in constant time is equality.
use Prim.Native.Nat.{bit_or, bit_xor}
use uturn.Common.{
  ℕ, ◌<◌, ◌≡◌, ◌↔◌, refl, sym, ◌∙◌, Bool, true, false, ◌&&◌, not, [], ◌∷◌, arith, length,
  ℕ_discrete, All, ltb, ◌==◌,
}
use uturn.Common.Bits.{every, every_at, bit_xor-lt}
use uturn.Common.Bytes.{Bytes}
use uturn.Turn.Auth.{diff_of, compute_message_integrity, verify_message_integrity}

abbrev same : Bool → Bool → Bool
same true b = b
same false b = not b

xor_zero_table : every (λ a. every (λ b. same (bit_xor a b == 0) (a == b)) 256) 256 ≡ true
unfolding every
xor_zero_table = refl

or_zero_table :
    every (λ a. every (λ b. same (bit_or a b == 0) ((a == 0) && (b == 0))) 256) 256 ≡ true
unfolding every
or_zero_table = refl

or_lt_table : every (λ a. every (λ b. ltb (bit_or a b) 256) 256) 256 ≡ true
unfolding every
or_lt_table = refl

module _ (a b : ℕ) (ha : a < 256) (hb : b < 256) where
  bit_xor_zero : (bit_xor a b ≡ 0) ↔ (a ≡ b)
  bit_xor_zero =
      let h = every_at _ 256 b hb (every_at _ 256 a ha xor_zero_table) in ground (arith, h)

  bit_xor_small : bit_xor a b < 256
  bit_xor_small = ground (arith, bit_xor-lt a b ha hb)

  bit_or_zero : (bit_or a b ≡ 0) ↔ ((a ≡ 0) × (b ≡ 0))
  bit_or_zero = let h = every_at _ 256 b hb (every_at _ 256 a ha or_zero_table) in ground (arith, h)

  bit_or_small : bit_or a b < 256
  bit_or_small = let h = every_at _ 256 b hb (every_at _ 256 a ha or_lt_table) in ground (arith, h)

abbrev pub AreBytes : Bytes → Type 0
AreBytes = All (λ x. x < 256)

diff_of_zero :
    (computed received : Bytes) (diff : ℕ)
    → AreBytes computed
    → AreBytes received
    → length computed ≡ length received
    → diff < 256
    → (diff_of computed received diff ≡ 0) ↔ ((diff ≡ 0) × (computed ≡ received))
unfolding diff_of
diff_of_zero [] [] diff hc hr l small = ground arith
diff_of_zero [] (b ∷ received) diff hc hr l small = absurd (omega (arith, l))
diff_of_zero (a ∷ computed) [] diff hc hr l small = absurd (omega (arith, l))
diff_of_zero (a ∷ computed) (b ∷ received) diff (ha, hc) (hb, hr) l small =
    let small_xor = bit_xor_small a b ha hb in
    let acc = bit_or diff (bit_xor a b) in
    let ih =
      diff_of_zero computed received acc hc hr (omega (arith, l))
        (bit_or_small diff (bit_xor a b) small small_xor) in
    let or = bit_or_zero diff (bit_xor a b) small small_xor in
    let xor = bit_xor_zero a b ha hb in ground (arith, ih.0, ih.1, or.0, or.1, xor.0, xor.1)

-- A MESSAGE-INTEGRITY is accepted exactly when it is the HMAC of the message under the key, where
-- the HMAC has twenty bytes: the comparison in constant time passes no other value and refuses
-- no correct one.
pub verify_message_integrity_iff :
    (hmac_sha1 : Bytes → Bytes → Bytes) (message received key : Bytes)
    → length (hmac_sha1 key message) ≡ 20
    → AreBytes (hmac_sha1 key message)
    → AreBytes received
    → (verify_message_integrity hmac_sha1 message received key ≡ true)
      ↔ (received ≡ hmac_sha1 key message)
unfolding verify_message_integrity compute_message_integrity
verify_message_integrity_iff hmac_sha1 message received key long hc hr =
    elim (ℕ_discrete (length received) 20) [
      | yes l ↦
          let h =
            diff_of_zero (hmac_sha1 key message) received 0 hc hr (long ∙ sym l) (omega arith) in
          ground (arith, l, h.0, h.1)
      | no l ↦ ground (arith, long)
    ]
