-- ===== src/Common/Panic.antt =====
-- What a piece of Rust code ends in: a value, a panic (an index or a slice out of range), or, for
-- a loop modelled on fuel, the fuel running out. Totality theorems exclude the last two.
use Prim.Native.Nat.{ℕ, ◌-◌, ◌≤◌, ◌<◌}
use mathlib.Core.Path.{◌≡◌, refl, sym, ap, ◌∙◌}
use mathlib.Core.Bool.{Bool, true, false, ◌&&◌}
use mathlib.Core.Logic.{◌≢◌, inl, inr}
use mathlib.Core.List.{List}
use mathlib.Core.Option.{none, some}
use native.Mathlib.Omega.{arith}
use uturn.Common.Tests.{
  leb, le→leb, leb→le, if◌then◌else◌, if_true, if_false, and_left, and_right, Bool-cases,
}
use uturn.Common.Lists.{length, get_elem?, get_elem?-lt, take, drop, length-take, length-drop}

pub data Run {ℓ} (A : Type ℓ) : Type ℓ where
  done : A → Run A
  panic : Run A
  out_of_fuel : Run A

infixl 5 ◌>>=◌ ◌>>◌
abbrev pub ◌>>=◌ {ι κ} : {In : Type ι} {Out : Type κ} (first : Run In) → (In → Run Out) → Run Out
done x >>= rest = rest x
panic >>= rest = panic
out_of_fuel >>= rest = out_of_fuel

abbrev pub ◌>>◌ {ι κ} :
    {In : Type ι} {Out : Type κ} (first : Run In) (then_this : Run Out) → Run Out
first >> then_this = first >>= λ _. then_this

-- The code returned a value.
pub data IsDone {ℓ} {A : Type ℓ} (m : Run A) : Type ℓ where
  returns : (a : A) → m ≡ done a → IsDone m

pub IsDone-done {ℓ} : {A : Type ℓ} (a : A) → IsDone (done a)
IsDone-done a = returns a refl

pub IsDone-value {ℓ} : {A : Type ℓ} (m : Run A) → IsDone m → (a : A) × (m ≡ done a)
IsDone-value m (returns a e) = (a, e)

pub IsDone->>= {ℓ κ} :
    {A : Type ℓ} {B : Type κ} (m : Run A) (f : A → Run B)
    → IsDone m
    → ((a : A) → m ≡ done a → IsDone (f a))
    → IsDone (m >>= f)
IsDone->>= m f (returns a e) k = rw e (k a e)

-- A chain that returned: its first part did.
pub >>=-value {ι κ} :
    {A : Type ι} {B : Type κ} (m : Run A) (f : A → Run B) (b : B)
    → m >>= f ≡ done b
    → (a : A) × (m ≡ done a) × (f a ≡ done b)
>>=-value (done a) f b e = (a, refl, e)
>>=-value panic f b e = absurd (cc)
>>=-value out_of_fuel f b e = absurd (cc)

-- What holds of the value, if the code returned one.
abbrev pub Holds {ℓ κ} : {A : Type ℓ} → (A → Type κ) → Run A → Type κ
Holds P (done a) = P a
Holds P panic = Unit
Holds P out_of_fuel = Unit

module _ {ℓ κ} {A : Type ℓ} (P : A → Type κ) where
  pub Holds-if :
      (b : Bool) (m n : Run A)
      → (b ≡ true → Holds P m)
      → (b ≡ false → Holds P n)
      → Holds P (if b then m else n)
  Holds-if true m n hm hn = hm refl
  Holds-if false m n hm hn = hn refl

  pub Holds->>= {κ'} :
      {B : Type κ'} (m : Run B) (f : B → Run A)
      → ((b : B) → m ≡ done b → Holds P (f b))
      → Holds P (m >>= f)
  Holds->>= (done b) f h = h b refl
  Holds->>= panic f h = tt
  Holds->>= out_of_fuel f h = tt

pub done-injective {ℓ} : {A : Type ℓ} {a b : A} → done a ≡ done b → a ≡ b
done-injective e = cc

pub panic_ne_done {ℓ} : {A : Type ℓ} (a : A) → panic ≢ done a
panic_ne_done a e = cc

-- `data[i]`, and `&data[from..to]`: out of range both panic.
abbrev pub index {ℓ} : {A : Type ℓ} → List A → ℕ → Run A
index xs i = elim (get_elem? xs i) [ none ↦ panic | some a ↦ done a ]

unfoldable pub slice {ℓ} : {A : Type ℓ} → List A → ℕ → ℕ → Run (List A)
slice xs from to =
    if leb from to && leb to (length xs) then done (take (to - from) (drop from xs)) else panic

module _ {ℓ} {A : Type ℓ} where
  pub index-IsDone : (xs : List A) (i : ℕ) → i < length xs → IsDone (index xs i)
  index-IsDone xs i h = found (get_elem?-lt xs i h)
    where
      found : (a : A) × (get_elem? xs i ≡ some a) → IsDone (index xs i)
      found (a, e) = returns a (rw (e, index))

  pub slice_eq :
      (xs : List A) (from to : ℕ)
      → from ≤ to
      → to ≤ length xs
      → slice xs from to ≡ done (take (to - from) (drop from xs))
  unfolding slice
  slice_eq xs from to h k = rw (le→leb from to h, le→leb to (length xs) k)

  pub length-slice :
      (xs ys : List A) (from to : ℕ) → slice xs from to ≡ done ys → length ys ≡ to - from
  unfolding slice
  length-slice xs ys from to e = elim (Bool-cases (leb from to && leb to (length xs))) [
    | inl fits ↦
        let cut : take (to - from) (drop from xs) ≡ ys =
          done-injective (sym (if_true _ _ _ fits) ∙ e) in
        let room : leb to (length xs) ≡ true = and_right (leb from to) _ fits in
        omega (
          arith,
          ap length cut,
          length-take (to - from) (drop from xs),
          length-drop from xs,
          leb→le to (length xs) room,
        )
    | inr out ↦ absurd (panic_ne_done ys (sym (if_false _ _ _ out) ∙ e))
  ]

  pub IsDone-if :
      (b : Bool) (x y : Run A)
      → (b ≡ true → IsDone x)
      → (b ≡ false → IsDone y)
      → IsDone (if b then x else y)
  IsDone-if true x y hx hy = hx refl
  IsDone-if false x y hx hy = hy refl

  pub slice-IsDone :
      (xs : List A) (from to : ℕ) → from ≤ to → to ≤ length xs → IsDone (slice xs from to)
  slice-IsDone xs from to h k = returns (take (to - from) (drop from xs)) (slice_eq xs from to h k)

  -- A slice that was taken lay within the list.
  pub slice_bounds :
      (xs ys : List A) (from to : ℕ) → slice xs from to ≡ done ys → (from ≤ to) × (to ≤ length xs)
  unfolding slice
  slice_bounds xs ys from to e = elim (Bool-cases (leb from to && leb to (length xs))) [
    | inl fits ↦ (
      leb→le from to (and_left (leb from to) _ fits),
      leb→le to (length xs) (and_right (leb from to) _ fits),
    )
    | inr out ↦ absurd (panic_ne_done ys (sym (if_false _ _ _ out) ∙ e))
  ]
