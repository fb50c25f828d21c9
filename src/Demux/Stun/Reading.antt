-- ===== src/Demux/Stun/Reading.antt =====
-- The attribute loop reads a framed list as the reference reading does, whatever follows a
-- MESSAGE-INTEGRITY.
use uturn.Common.{
  ℕ, zero, suc, ◌+◌, ◌<◌, ◌≤◌, ◌≡◌, refl, ap, ◌∙◌, ◌⊎◌, inl, inr, List, [], ◌∷◌, ◌++◌, append_assoc,
  arith, lt→ltb, Run, done, panic, out_of_fuel, ◌>>=◌, All, length, length-append, length-replicate,
}
use mathlib.Core.Path.{subst₂, subst}
use uturn.Common.Bytes.{Bytes, bytes16, padded, padded_eq}
use uturn.Demux.Stun.{ParsedAttrs, no_attrs}
use uturn.Demux.Stun.Attributes.{Flow, next, stop, on_attribute, attribute_loop, parse_attributes}
use uturn.Demux.Stun.Framing.{
  Attribute, IsAttribute, gap, padding, encode_attribute, encode_attributes, interpret,
  attribute_loop-round, IsMessageIntegrity, HasIntegrity,
}

-- Two continuations that agree where the loop goes on give the same run.
same_rounds :
    (m : Run Flow) (k k' : ParsedAttrs → Run ParsedAttrs)
    → ((r : ParsedAttrs) → m ≡ done (next r) → k r ≡ k' r)
    → (m >>= λ flow. elim flow [ next r ↦ k r | stop r ↦ done r ])
      ≡ (m >>= λ flow. elim flow [ next r ↦ k' r | stop r ↦ done r ])
same_rounds (done (next r)) k k' h = h r refl
same_rounds (done (stop r)) k k' h = refl
same_rounds panic k k' h = refl
same_rounds out_of_fuel k k' h = refl

integrity_stops :
    (a : Attribute) (transaction_id : Bytes) (offset : ℕ) (r r' : ParsedAttrs)
    → IsMessageIntegrity a
    → ¬ (on_attribute a.kind a.value transaction_id offset r ≡ done (next r'))
unfolding on_attribute
integrity_stops a transaction_id offset r r' (k, l) e = ground arith

attribute_loop_end :
    (fuel : ℕ) (bytes transaction_id : Bytes) (offset : ℕ) (r : ParsedAttrs)
    → length bytes < offset + 4
    → attribute_loop (suc fuel) bytes transaction_id offset r ≡ done r
unfolding attribute_loop
attribute_loop_end fuel bytes transaction_id offset r h = rw (lt→ltb (length bytes) (offset + 4) h)

-- The attribute's own bytes.
framed : Attribute → Bytes
framed a = bytes16 a.kind ++ (bytes16 (length a.value) ++ (a.value ++ padding a))

-- The code's rounding is the padding of the framing.
padded-gap : (n : ℕ) → n < 65536 → padded n ≡ n + gap n
padded-gap n small = omega (arith, padded_eq n small)

length-framed : (a : Attribute) → length (framed a) ≡ 4 + (length a.value + gap (length a.value))
unfolding framed bytes16
length-framed a =
    omega
      (arith, length-append a.value (padding a), length-replicate {A = ℕ} (gap (length a.value)) 0)

framed-append : (a : Attribute) (rest : Bytes) → framed a ++ rest ≡ encode_attribute a rest
unfolding framed bytes16
framed-append a rest =
    ap (λ bs. bytes16 a.kind ++ (bytes16 (length a.value) ++ bs))
      (append_assoc a.value (padding a) rest)

-- The next attribute stands behind this one.
module _ (before : Bytes) (a : Attribute) (rest : Bytes) (fits : IsAttribute a) where
  moved : (before ++ framed a) ++ rest ≡ before ++ encode_attribute a rest
  moved = append_assoc before (framed a) rest ∙ ap (◌++◌ before) (framed-append a rest)

  moved_offset :
      length (before ++ framed a) ≡ length before + (4 + (length a.value + gap (length a.value)))
  moved_offset = omega (arith, length-append before (framed a), length-framed a)

  same_offset :
      length before + (4 + (length a.value + gap (length a.value)))
      ≡ length before + (4 + padded (length a.value))
  same_offset = omega (arith, padded-gap (length a.value) fits.length_fits)

attribute_loop-interpret :
    (attrs : List Attribute) (fuel : ℕ) (before tail transaction_id : Bytes) (r : ParsedAttrs)
    → All IsAttribute attrs
    → length attrs < fuel
    → (tail ≡ []) ⊎ HasIntegrity attrs
    → attribute_loop fuel (before ++ encode_attributes attrs tail) transaction_id (length before) r
      ≡ interpret transaction_id (length before) attrs r
unfolding interpret encode_attributes
attribute_loop-interpret attrs zero before tail transaction_id r fits enough ends =
    absurd (omega arith)
attribute_loop-interpret [] (suc fuel) before tail transaction_id r fits enough (inl e) =
    attribute_loop_end fuel (before ++ tail) transaction_id (length before) r
      (omega (arith, length-append before tail, ap length e))
attribute_loop-interpret [] (suc fuel) before tail transaction_id r fits enough (inr h) = absurd h
attribute_loop-interpret (a ∷ attrs) (suc fuel) before tail transaction_id r fits enough ends =
    attribute_loop-round fuel before a rest transaction_id r fits.0
    ∙ same_rounds (on_attribute a.kind a.value transaction_id (length before) r) _ _ λ r' goes_on.
      subst
        (λ offset.
          attribute_loop fuel (before ++ encode_attribute a rest) transaction_id offset r'
          ≡ interpret transaction_id (length before + (4 + (length a.value + gap (length a.value))))
              attrs r')
        (same_offset before a rest fits.0)
        (subst₂
          (λ bs offset.
            attribute_loop fuel bs transaction_id offset r'
            ≡ interpret transaction_id offset attrs r')
          (moved before a rest fits.0) (moved_offset before a rest fits.0)
          (attribute_loop-interpret attrs fuel (before ++ framed a) tail transaction_id r' fits.1
            (omega arith) (still r' goes_on ends)))
  where
    rest : Bytes
    rest = encode_attributes attrs tail

    still :
        (r' : ParsedAttrs)
        → on_attribute a.kind a.value transaction_id (length before) r ≡ done (next r')
        → (tail ≡ []) ⊎ HasIntegrity (a ∷ attrs)
        → (tail ≡ []) ⊎ HasIntegrity attrs
    still r' goes_on (inl e) = inl e
    still r' goes_on (inr (inl stops)) =
        absurd (integrity_stops a transaction_id (length before) r r' stops goes_on)
    still r' goes_on (inr (inr later)) = inr later

length-encode_attributes :
    (attrs : List Attribute) (tail : Bytes) → length attrs ≤ length (encode_attributes attrs tail)
unfolding encode_attributes bytes16
length-encode_attributes [] tail = omega arith
length-encode_attributes (a ∷ attrs) tail = omega (
  arith,
  length-append a.value (padding a ++ encode_attributes attrs tail),
  length-append (padding a) (encode_attributes attrs tail),
  length-encode_attributes attrs tail,
)

-- `parse_attributes` on the framing of well-sized attributes is their reference reading, whether
-- nothing follows them or one of them is a MESSAGE-INTEGRITY of 20 bytes and anything follows.
pub parse_attributes-encode :
    (attrs : List Attribute) (tail transaction_id : Bytes)
    → All IsAttribute attrs
    → (tail ≡ []) ⊎ HasIntegrity attrs
    → parse_attributes (encode_attributes attrs tail) transaction_id
      ≡ interpret transaction_id 0 attrs no_attrs
unfolding parse_attributes
parse_attributes-encode attrs tail transaction_id fits ends =
    attribute_loop-interpret attrs _ [] tail transaction_id no_attrs fits
      (omega (arith, length-encode_attributes attrs tail)) ends
