-- ===== src/Demux/Stun/Types.antt =====
-- The message type against the layout of RFC 5389 §6: the class bits stand at 4 and 8 among the
-- twelve method bits.
use uturn.Common.{
  ℕ, ◌+◌, ◌*◌, ◌/◌, ◌%◌, ◌<◌, ◌≡◌, refl, ap, ◌∙◌, some, true, ◌&&◌, ◌==◌, ==_iff, arith, and_left,
  and_right,
}
use uturn.Common.Bits.{every, every_at}
use uturn.Demux.Stun.{StunClass, request, indication, success_response, error_response}
use uturn.Demux.Stun.Header.{class_bits, class_of, method_bits, method_of}

abbrev pub class_code : StunClass → ℕ
class_code request = 0
class_code indication = 1
class_code success_response = 2
class_code error_response = 3

-- From the top: five method bits, a class bit, three method bits, a class bit, four method bits.
abbrev pub encode_type : ℕ → ℕ → ℕ
encode_type class method =
    method % 16 + class % 2 * 16 + method / 16 % 8 * 32 + class / 2 * 256 + method / 128 * 512

type_table :
    every
      (λ c.
        every
          (λ m. (class_bits (encode_type c m) == c) && (method_bits (encode_type c m) == m))
          4096)
      4
    ≡ true
unfolding every class_bits method_bits
type_table = refl

class_code-lt : (c : StunClass) → class_code c < 4
class_code-lt request = omega arith
class_code-lt _ = omega arith

class_of-class_code : (c : StunClass) → class_of (class_code c) ≡ some c
unfolding class_of
class_of-class_code request = refl
class_of-class_code _ = refl

-- The parser reads back every class and every 12-bit method from the RFC's layout of the two.
header-encode_type :
    (c : StunClass) (m : ℕ)
    → m < 4096
    → (class_of (class_bits (encode_type (class_code c) m)) ≡ some c)
      × (method_of (method_bits (encode_type (class_code c) m)) ≡ method_of m)
header-encode_type c m h =
    let both = every_at _ 4096 m h (every_at _ 4 (class_code c) (class_code-lt c) type_table) in
    (
      ap class_of ((==_iff _ (class_code c)).0 (and_left _ _ both)) ∙ class_of-class_code c,
      ap method_of ((==_iff _ m).0 (and_right _ _ both)),
    )
