-- ===== src/Common/Bits.antt =====
-- Facts about the bit operations at machine widths, read off tables.
use Prim.Native.Nat.{ℕ, zero, suc, ◌-◌, ◌%◌, ◌^◌, ◌<◌, bit_and, bit_xor}
use mathlib.Core.Path.{◌≡◌, refl}
use mathlib.Core.Bool.{Bool, true, ◌&&◌}
use native.Mathlib.Omega.{arith}
use uturn.Common.Tests.{◌==◌, ==_iff, ltb}

-- A test holds of all the numbers under a bound.
unfoldable pub every : (ℕ → Bool) → ℕ → Bool
every test zero = true
every test (suc bound) = every test bound && test bound

pub every_at : (test : ℕ → Bool) (bound i : ℕ) → i < bound → every test bound ≡ true → test i ≡ true
unfolding every
every_at test zero i under holds = absurd (omega (arith, under))
every_at test (suc bound) i under holds = ground (arith, every_at test bound i)

-- `!3` at the width of `usize`.
abbrev pub not_three : ℕ
not_three = 2 ^ 64 - 4

round_table : every (λ x. bit_and x not_three == x - x % 4) 65539 ≡ true
unfolding every
round_table = refl

-- `x & !3` rounds down to a multiple of four (every length of a 16-bit field, and three more).
pub bit_and-not_three : (x : ℕ) → x < 65539 → bit_and x not_three ≡ x - x % 4
bit_and-not_three x h = (==_iff _ _).0 (every_at _ 65539 x h round_table)

xor_table : every (λ a. every (λ b. bit_xor (bit_xor a b) b == a) 256) 256 ≡ true
unfolding every
xor_table = refl

-- On bytes `^` undoes itself.
pub bit_xor_twice : (a b : ℕ) → a < 256 → b < 256 → bit_xor (bit_xor a b) b ≡ a
bit_xor_twice a b ha hb = (==_iff _ _).0 (every_at _ 256 b hb (every_at _ 256 a ha xor_table))

xor_lt_table : every (λ a. every (λ b. ltb (bit_xor a b) 256) 256) 256 ≡ true
unfolding every
xor_lt_table = refl

pub bit_xor-lt : (a b : ℕ) → a < 256 → b < 256 → ltb (bit_xor a b) 256 ≡ true
bit_xor-lt a b ha hb = every_at _ 256 b hb (every_at _ 256 a ha xor_lt_table)

abbrev pub cookie_high : ℕ
cookie_high = 0x2112

port_table : every (λ x. bit_xor (bit_xor x cookie_high) cookie_high == x) 65536 ≡ true
unfolding every
port_table = refl

pub port_twice : (x : ℕ) → x < 65536 → bit_xor (bit_xor x cookie_high) cookie_high ≡ x
port_twice x h = (==_iff _ _).0 (every_at _ 65536 x h port_table)

port_lt_table : every (λ x. ltb (bit_xor x cookie_high) 65536) 65536 ≡ true
unfolding every
port_lt_table = refl

pub port-lt : (x : ℕ) → x < 65536 → ltb (bit_xor x cookie_high) 65536 ≡ true
port-lt x h = every_at _ 65536 x h port_lt_table
