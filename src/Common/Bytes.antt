-- ===== src/Common/Bytes.antt =====
-- Byte strings as lists of numbers: big-endian fields read and written, padding to four bytes, and
-- the validity test of `String::from_utf8`.
use Prim.Native.Char.{code}
use Prim.Native.String.{String}
use Prim.Native.Nat.{bit_and}
use mathlib.Core.List.{foldl}
use uturn.Common.{
  ℕ, ◌+◌, ◌-◌, ◌*◌, ◌/◌, ◌%◌, ◌≤◌, ◌<◌, ◌≡◌, refl, Bool, false, ◌&&◌, Option, none, some, List, [],
  ◌∷◌, ◌++◌, leb, ◌==◌, if◌then◌else◌, Run, done, ◌>>=◌, IsDone, IsDone-done, IsDone->>=, index,
  index-IsDone, slice, slice_eq, length, drop, arith, get_elem?-append_right, drop-append_right,
  take-append_left, length-append,
}
use uturn.Common.Bits.{not_three, bit_and-not_three}

abbrev pub Bytes : Type 0
Bytes = List ℕ

-- A `str` is its UTF-8 bytes.
abbrev pub Str : Type 0
Str = List ℕ

abbrev pub be16 : ℕ → ℕ → ℕ
be16 a b = a * 256 + b

abbrev pub be32 : ℕ → ℕ → ℕ → ℕ → ℕ
be32 a b c d = be16 a b * 65536 + be16 c d

-- `u16::from_be_bytes([data[i], data[i + 1]])`
unfoldable pub read16 : Bytes → ℕ → Run ℕ
read16 bs i = do a ← index bs i; b ← index bs (i + 1); done (be16 a b)

-- `u32::from_be_bytes([data[i], .., data[i + 3]])`
unfoldable pub read32 : Bytes → ℕ → Run ℕ
read32 bs i = do
  a ← index bs i
  b ← index bs (i + 1)
  c ← index bs (i + 2)
  d ← index bs (i + 3)
  done (be32 a b c d)

-- `to_be_bytes` of a `u16` and of a `u32`
unfoldable pub bytes16 : ℕ → Bytes
bytes16 n = n / 256 % 256 ∷ n % 256 ∷ []

unfoldable pub bytes32 : ℕ → Bytes
bytes32 n = n / 16777216 % 256 ∷ n / 65536 % 256 ∷ n / 256 % 256 ∷ n % 256 ∷ []

-- `(n + 3) & !3`
unfoldable pub padded : ℕ → ℕ
padded n = bit_and (n + 3) not_three

-- A character being read: how many continuation bytes are due, and the range of the next.
pub record Utf8 : Type 0 where
  pub due : ℕ
  pub low : ℕ
  pub high : ℕ

abbrev between : ℕ → ℕ → ℕ → Bool
between a b x = leb a x && leb x b

abbrev after_lead : ℕ → ℕ → ℕ → Option Utf8
after_lead n a b = some (record { due = n; low = a; high = b })

utf8_lead : ℕ → Option Utf8
utf8_lead b =
    if leb b 0x7f
    then after_lead 0 0 0
    else if between 0xc2 0xdf b
    then after_lead 1 0x80 0xbf
    else if b == 0xe0
    then after_lead 2 0xa0 0xbf
    else if b == 0xed
    then after_lead 2 0x80 0x9f
    else if between 0xe1 0xef b
    then after_lead 2 0x80 0xbf
    else if b == 0xf0
    then after_lead 3 0x90 0xbf
    else if between 0xf1 0xf3 b
    then after_lead 3 0x80 0xbf
    else if b == 0xf4
    then after_lead 3 0x80 0x8f
    else none

utf8_step : Option Utf8 → ℕ → Option Utf8
unfolding utf8_lead
utf8_step none b = none
utf8_step (some u) b =
    if u.due == 0
    then utf8_lead b
    else if between u.low u.high b
    then after_lead (u.due - 1) 0x80 0xbf
    else none

utf8_done : Option Utf8 → Bool
utf8_done none = false
utf8_done (some u) = u.due == 0

unfoldable pub is_utf8 : Bytes → Bool
unfolding utf8_step utf8_done
is_utf8 bs = utf8_done (foldl utf8_step (after_lead 0 0 0) bs)

-- `String::from_utf8(bytes).ok()`
unfoldable pub from_utf8 : Bytes → Option Str
unfolding is_utf8
from_utf8 bs = if is_utf8 bs then some bs else none

-- A read behind a prefix: the position `j` is a variable with an equation.
pub read16-append :
    (before bs : Bytes) (i j : ℕ) → length before + i ≡ j → read16 (before ++ bs) j ≡ read16 bs i
unfolding read16
read16-append before bs i j e = rw (
  get_elem?-append_right before bs i j e,
  get_elem?-append_right before bs (i + 1) (j + 1) (omega arith),
  index,
)

pub slice-append :
    (before bs rest : Bytes) (i j : ℕ) (skipped : Bytes)
    → length before + i ≡ j
    → length skipped ≡ i
    → slice (before ++ (skipped ++ (bs ++ rest))) j (j + length bs) ≡ done bs
slice-append before bs rest i j skipped e f =
    rw (slice_eq (before ++ (skipped ++ (bs ++ rest))) j (j + length bs) (omega arith) room, count)
      (rw (drop-append_right before (skipped ++ (bs ++ rest)) i j e, drop_skipped)
        (rw (take-append_left bs rest (length bs) refl)))
  where
    room : j + length bs ≤ length (before ++ (skipped ++ (bs ++ rest)))
    room = omega (
      arith,
      length-append before (skipped ++ (bs ++ rest)),
      length-append skipped (bs ++ rest),
      length-append bs rest,
    )

    count : j + length bs - j ≡ length bs
    count = omega arith

    drop_skipped : drop i (skipped ++ (bs ++ rest)) ≡ bs ++ rest
    drop_skipped = drop-append_right skipped (bs ++ rest) 0 i (omega arith)

pub be16-bytes16 : (n : ℕ) → n < 65536 → be16 (n / 256 % 256) (n % 256) ≡ n
be16-bytes16 n h = omega arith

pub padded_eq : (n : ℕ) → n < 65536 → padded n ≡ n + 3 - (n + 3) % 4
unfolding padded
padded_eq n h = bit_and-not_three (n + 3) (omega arith)

pub padded_bounds : (n : ℕ) → n < 65536 → (n ≤ padded n) × (padded n ≤ n + 3)
padded_bounds n h = omega (arith, padded_eq n h)

pub read16-IsDone : (bs : Bytes) (i : ℕ) → i + 2 ≤ length bs → IsDone (read16 bs i)
unfolding read16
read16-IsDone bs i h =
    IsDone->>= _ _ (index-IsDone bs i (omega arith))
      λ a _. IsDone->>= _ _ (index-IsDone bs (i + 1) (omega arith)) λ b _. IsDone-done (be16 a b)

pub read32-IsDone : (bs : Bytes) (i : ℕ) → i + 4 ≤ length bs → IsDone (read32 bs i)
unfolding read32
read32-IsDone bs i h = IsDone->>= _ _ (index-IsDone bs i (omega arith)) λ a _.
    IsDone->>= _ _ (index-IsDone bs (i + 1) (omega arith)) λ b _.
      IsDone->>= _ _ (index-IsDone bs (i + 2) (omega arith)) λ c _.
        IsDone->>= _ _ (index-IsDone bs (i + 3) (omega arith)) λ d _. IsDone-done (be32 a b c d)

-- The bytes of an ASCII literal.
abbrev pub ascii : String → Str
ascii String.[] = []
ascii (String.◌∷◌ letter rest) = code letter ∷ ascii rest
