-- ===== src/Common/Maps.antt =====
-- Hash maps (`HashMap`, `DashMap`) as association lists over keys with decidable equality.
use Prim.Native.Nat.{ℕ}
use mathlib.Core.Path.{◌≡◌, refl, sym, ◌∙◌, subst}
use native.Mathlib.Omega.{arith}
use mathlib.Core.Logic.{◌≢◌, ite, if_pos, if_neg}
use mathlib.Core.Bool.{Bool, true, false}
use mathlib.Core.List.{List, [], ◌∷◌}
use mathlib.Core.Option.{Option, none, some}
use native.Mathlib.Decide.{ℕ_discrete}

pub record Key {ℓ} (K : Type ℓ) : Type ℓ where
  pub dec : Discrete K

instance abbrev pub nat_key : Key ℕ
nat_key = record { dec = ℕ_discrete }

module _ {ℓ} {K : Type ℓ} ⦃key : Key K⦄ where
  -- `==` of the source, at a key type.
  infix 50 ◌=?◌
  abbrev pub ◌=?◌ : K → K → Bool
  a =? b = elim (key.dec a b) [ yes _ ↦ true | no _ ↦ false ]

  pub =?-eq : (a b : K) → a =? b ≡ true → a ≡ b
  =?-eq a b e = ground arith

module _ {ℓ κ} {K : Type ℓ} {V : Type κ} ⦃key : Key K⦄ where
  unfoldable pub lookup : K → List (K × V) → Option V
  lookup k [] = none
  lookup k ((j, v) ∷ m) = ite (key.dec k j) (some v) (lookup k m)

  unfoldable pub insert : K → V → List (K × V) → List (K × V)
  insert k v [] = (k, v) ∷ []
  insert k v ((j, w) ∷ m) = ite (key.dec k j) ((k, v) ∷ m) ((j, w) ∷ insert k v m)

  -- Every entry under the key goes, so that no assumption on duplicates is needed.
  unfoldable pub erase : K → List (K × V) → List (K × V)
  erase k [] = []
  erase k ((j, w) ∷ m) = ite (key.dec k j) (erase k m) ((j, w) ∷ erase k m)

  pub lookup-insert_self : (k : K) (v : V) (m : List (K × V)) → lookup k (insert k v m) ≡ some v
  unfolding lookup insert
  lookup-insert_self k v [] = rw (if_pos (key.dec k k) refl)
  lookup-insert_self k v ((i, w) ∷ m) = elim (key.dec k i) [
    | yes p ↦ rw (if_pos (key.dec k i) p, if_pos (key.dec k k) refl)
    | no p ↦ rw (if_neg (key.dec k i) p) (rw (if_neg (key.dec k i) p) (lookup-insert_self k v m))
  ]

  pub lookup-insert_ne :
      (k j : K) (v : V) (m : List (K × V)) → j ≢ k → lookup j (insert k v m) ≡ lookup j m
  unfolding lookup insert
  lookup-insert_ne k j v [] h = rw (if_neg (key.dec j k) h)
  lookup-insert_ne k j v ((i, w) ∷ m) h = elim (key.dec k i) [
    | yes p ↦
        rw (
          if_pos (key.dec k i) p,
          if_neg (key.dec j k) h,
          if_neg (key.dec j i) (λ e. h (e ∙ sym p)),
        )
    | no p ↦ rw (if_neg (key.dec k i) p, lookup-insert_ne k j v m h)
  ]

  pub lookup-erase_self : (k : K) (m : List (K × V)) → lookup k (erase k m) ≡ none
  unfolding lookup erase
  lookup-erase_self k [] = refl
  lookup-erase_self k ((i, w) ∷ m) = elim (key.dec k i) [
    | yes p ↦ rw (if_pos (key.dec k i) p) (lookup-erase_self k m)
    | no p ↦ rw (if_neg (key.dec k i) p) (rw (if_neg (key.dec k i) p) (lookup-erase_self k m))
  ]

  pub lookup-erase_ne : (k j : K) (m : List (K × V)) → j ≢ k → lookup j (erase k m) ≡ lookup j m
  unfolding lookup erase
  lookup-erase_ne k j [] h = refl
  lookup-erase_ne k j ((i, w) ∷ m) h = elim (key.dec k i) [
    | yes p ↦
        rw (
          if_pos (key.dec k i) p,
          lookup-erase_ne k j m h,
          if_neg (key.dec j i) (λ e. h (e ∙ sym p)),
        )
    | no p ↦ rw (if_neg (key.dec k i) p, lookup-erase_ne k j m h)
  ]

  -- The laws in one equation each: `ground` splits on the decision.
  pub lookup-insert :
      (k j : K) (v : V) (m : List (K × V))
      → lookup j (insert k v m) ≡ ite (key.dec j k) (some v) (lookup j m)
  lookup-insert k j v m = elim (key.dec j k) [
    | yes p ↦
        subst (λ i. lookup i (insert k v m) ≡ some v) (sym p) (lookup-insert_self k v m)
        ∙ sym (if_pos (key.dec j k) p _ _)
    | no p ↦ lookup-insert_ne k j v m p ∙ sym (if_neg (key.dec j k) p _ _)
  ]

  pub lookup-erase :
      (k j : K) (m : List (K × V)) → lookup j (erase k m) ≡ ite (key.dec j k) none (lookup j m)
  lookup-erase k j m = elim (key.dec j k) [
    | yes p ↦
        subst (λ i. lookup i (erase k m) ≡ none) (sym p) (lookup-erase_self k m)
        ∙ sym (if_pos (key.dec j k) p _ _)
    | no p ↦ lookup-erase_ne k j m p ∙ sym (if_neg (key.dec j k) p _ _)
  ]

  -- `retain`, whose closure may also change an entry: `none` drops it.
  unfoldable pub retain : (K → V → Option V) → List (K × V) → List (K × V)
  retain f [] = []
  retain f ((k, v) ∷ m) = elim (f k v) [
    | none ↦ erase k (retain f m)
    | some w ↦ (k, w) ∷ retain f m
  ]

  -- What `retain` leaves at an entry.
  abbrev pub kept : (K → V → Option V) → K → Option V → Option V
  kept f k none = none
  kept f k (some v) = f k v

  lookup-erase-none : (k j : K) (m : List (K × V)) → lookup j m ≡ none → lookup j (erase k m) ≡ none
  lookup-erase-none k j m h = elim (key.dec j k) [
    | yes p ↦ rw p (lookup-erase_self k m)
    | no p ↦ lookup-erase_ne k j m p ∙ h
  ]

  pub lookup-cons_self : (k : K) (v : V) (m : List (K × V)) → lookup k ((k, v) ∷ m) ≡ some v
  unfolding lookup
  lookup-cons_self k v m = if_pos (key.dec k k) refl _ _

  pub lookup-cons_ne :
      (j k : K) (v : V) (m : List (K × V)) → j ≢ k → lookup j ((k, v) ∷ m) ≡ lookup j m
  unfolding lookup
  lookup-cons_ne j k v m h = if_neg (key.dec j k) h _ _

  retain_drop :
      (f : K → V → Option V) (k : K) (v : V) (m : List (K × V))
      → f k v ≡ none
      → retain f ((k, v) ∷ m) ≡ erase k (retain f m)
  unfolding retain
  retain_drop f k v m e = rw (e, retain)

  retain_keep :
      (f : K → V → Option V) (k : K) (v w : V) (m : List (K × V))
      → f k v ≡ some w
      → retain f ((k, v) ∷ m) ≡ (k, w) ∷ retain f m
  unfolding retain
  retain_keep f k v w m e = rw (e, retain)

  pub lookup-retain :
      (f : K → V → Option V) (j : K) (m : List (K × V))
      → lookup j (retain f m) ≡ kept f j (lookup j m)
  unfolding retain
  lookup-retain f j [] = unfold lookup in refl
  lookup-retain f j ((k, v) ∷ m) = elim (key.dec j k) [
    | yes p ↦
        subst (λ i. lookup i (retain f ((k, v) ∷ m)) ≡ kept f i (lookup i ((k, v) ∷ m))) (sym p)
          (rw (lookup-cons_self k v m) (at_key (f k v) refl))
    | no p ↦ rw (lookup-cons_ne j k v m p) (elsewhere p (lookup-retain f j m) (f k v) refl)
  ]
    where
      at_key : (r : Option V) → f k v ≡ r → lookup k (retain f ((k, v) ∷ m)) ≡ f k v
      at_key none e = rw (retain_drop f k v m e, e) (lookup-erase_self k (retain f m))
      at_key (some w) e = rw (retain_keep f k v w m e, e) (lookup-cons_self k w (retain f m))

      elsewhere :
          j ≢ k
          → lookup j (retain f m) ≡ kept f j (lookup j m)
          → (r : Option V) → f k v ≡ r
          → lookup j (retain f ((k, v) ∷ m)) ≡ kept f j (lookup j m)
      elsewhere p ih none e = rw (retain_drop f k v m e) (lookup-erase_ne k j (retain f m) p ∙ ih)
      elsewhere p ih (some w) e =
          rw (retain_keep f k v w m e) (lookup-cons_ne j k w (retain f m) p ∙ ih)

  -- No key stands twice.
  abbrev pub UniqueKeys : List (K × V) → Type κ
  UniqueKeys [] = Unit
  UniqueKeys (e ∷ m) = (lookup e.0 m ≡ none) × UniqueKeys m

  lookup_empty : (j : K) → lookup j [] ≡ none
  unfolding lookup
  lookup_empty j = refl

  pub insert-UniqueKeys :
      (k : K) (v : V) (m : List (K × V)) → UniqueKeys m → UniqueKeys (insert k v m)
  unfolding insert
  insert-UniqueKeys k v [] u = (lookup_empty k, u)
  insert-UniqueKeys k v ((j, w) ∷ m) (fresh, u) = elim (key.dec k j) [
    | yes p ↦ rw (if_pos (key.dec k j) p) ((subst (λ i. lookup i m ≡ none) (sym p) fresh, u))
    | no p ↦
        rw (if_neg (key.dec k j) p)
          ((lookup-insert_ne k j v m (λ e. p (sym e)) ∙ fresh, insert-UniqueKeys k v m u))
  ]

  pub erase-UniqueKeys : (k : K) (m : List (K × V)) → UniqueKeys m → UniqueKeys (erase k m)
  unfolding erase
  erase-UniqueKeys k [] u = u
  erase-UniqueKeys k ((j, w) ∷ m) (fresh, u) = elim (key.dec k j) [
    | yes p ↦ rw (if_pos (key.dec k j) p) (erase-UniqueKeys k m u)
    | no p ↦
        rw (if_neg (key.dec k j) p)
          ((lookup-erase_ne k j m (λ e. p (sym e)) ∙ fresh, erase-UniqueKeys k m u))
  ]

module _ {ℓ} {K : Type ℓ} ⦃key : Key K⦄ where
  -- `contains` on a sequence
  unfoldable pub elem : K → List K → Bool
  elem x [] = false
  elem x (y ∷ ys) = ite (key.dec x y) true (elem x ys)
