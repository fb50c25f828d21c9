-- ===== src/Demux/Stun/Tail.antt =====
-- Bytes behind a MESSAGE-INTEGRITY are not read: the HMAC does not cover them.
use uturn.Common.{
  ℕ, zero, suc, ◌+◌, ◌-◌, ◌≤◌, ◌≡◌, refl, sym, ap, ◌∙◌, subst, some, [], ◌∷◌, ◌++◌, inl, inr, arith,
  ltb, ltb→le, le→ltb, Bool-cases, if_true, if_false, done, >>=-value, done-injective, Holds, index,
  slice, slice_bounds, slice_eq, length, length-append, take, drop,
}
use uturn.Common.Bytes.{Bytes, read16, padded}
use uturn.Demux.Stun.{ParsedAttrs, no_attrs}
use uturn.Demux.Stun.Attributes.{Flow, next, stop, on_attribute, attribute_loop, parse_attributes}
use uturn.Demux.Stun.Integrity.{IsUnsigned, Outcome, on_attribute-Outcome}

module _ (tail : Bytes) where
  index_tail : (bs : Bytes) (i a : ℕ) → index bs i ≡ done a → index (bs ++ tail) i ≡ done a
  index_tail [] i a e = absurd (cc e)
  index_tail (b ∷ bs) zero a e = e
  index_tail (b ∷ bs) (suc i) a e = index_tail bs i a e

  read16_tail : (bs : Bytes) (i n : ℕ) → read16 bs i ≡ done n → read16 (bs ++ tail) i ≡ done n
  unfolding read16
  read16_tail bs i n e =
      let (a, ea, e') = >>=-value (index bs i) _ n e in
      let (b, eb, e'') = >>=-value (index bs (i + 1)) _ n e' in
      rw (index_tail bs i a ea, index_tail bs (i + 1) b eb) e''

  take_tail : (n : ℕ) (bs : Bytes) → n ≤ length bs → take n (bs ++ tail) ≡ take n bs
  take_tail zero bs h = refl
  take_tail (suc n) [] h = elim h [ ]
  take_tail (suc n) (b ∷ bs) h = ap (λ x. b ∷ x) (take_tail n bs (omega arith))

  cut_tail :
      (n from : ℕ) (bs : Bytes)
      → from + n ≤ length bs
      → take n (drop from (bs ++ tail)) ≡ take n (drop from bs)
  cut_tail n zero bs h = take_tail n bs (omega arith)
  cut_tail n (suc from) [] h = absurd (omega (arith, h))
  cut_tail n (suc from) (b ∷ bs) h = cut_tail n from bs (omega arith)

  slice_tail :
      (bs cut : Bytes) (from to : ℕ)
      → slice bs from to ≡ done cut
      → slice (bs ++ tail) from to ≡ done cut
  slice_tail bs cut from to e =
      let (low, high) = slice_bounds bs cut from to e in
      slice_eq (bs ++ tail) from to low (omega (arith, length-append bs tail))
      ∙ ap done (cut_tail (to - from) from bs (omega arith))
      ∙ sym (slice_eq bs from to low high)
      ∙ e

-- A round of the loop that reads an attribute.
record Round (fuel : ℕ) (attrs transaction_id : Bytes) (offset : ℕ) (r r' : ParsedAttrs)
    : Type 0 where
  kind : ℕ
  attr_len : ℕ
  value : Bytes
  flow : Flow
  room : offset + 4 + attr_len ≤ length attrs
  kind_read : read16 attrs offset ≡ done kind
  length_read : read16 attrs (offset + 2) ≡ done attr_len
  value_read : slice attrs (offset + 4) (offset + 4 + attr_len) ≡ done value
  flows : on_attribute kind value transaction_id offset r ≡ done flow
  goes_on :
      elim flow [
        | next s ↦ attribute_loop fuel attrs transaction_id (offset + (4 + padded attr_len)) s
        | stop s ↦ done s
      ]
      ≡ done r'

unsigned_end :
    {r r' : ParsedAttrs} {hmac : Bytes}
    → IsUnsigned r
    → r'.message_integrity ≡ some hmac
    → ¬ (done r ≡ done r')
unsigned_end (absent, _) signed e =
    let same = ap (λ x. x.message_integrity) (done-injective e) in
    ground (arith, absent, same, signed)

-- Bytes that end in a signature are read up to it in whole attributes.
loop-Round :
    (fuel : ℕ) (attrs transaction_id : Bytes) (offset : ℕ) (r r' : ParsedAttrs) (hmac : Bytes)
    → IsUnsigned r
    → r'.message_integrity ≡ some hmac
    → attribute_loop (suc fuel) attrs transaction_id offset r ≡ done r'
    → Round fuel attrs transaction_id offset r r'
unfolding attribute_loop
loop-Round fuel attrs transaction_id offset r r' hmac unsigned signed e =
    elim (Bool-cases (ltb (length attrs) (offset + 4))) [
      | inl ends ↦ absurd (unsigned_end unsigned signed (sym (if_true _ _ _ ends) ∙ e))
      | inr more ↦
          let (kind, kind_read, e1) =
            >>=-value (read16 attrs offset) _ r' (sym (if_false _ _ _ more) ∙ e) in
          let (attr_len, length_read, e2) = >>=-value (read16 attrs (offset + 2)) _ r' e1 in
          elim (Bool-cases (ltb (length attrs) (offset + 4 + attr_len))) [
            | inl ends ↦ absurd (unsigned_end unsigned signed (sym (if_true _ _ _ ends) ∙ e2))
            | inr whole ↦
                let (value, value_read, e3) =
                  >>=-value (slice attrs (offset + 4) (offset + 4 + attr_len)) _ r'
                    (sym (if_false _ _ _ whole) ∙ e2) in
                let (flow, flows, goes_on) =
                  >>=-value (on_attribute kind value transaction_id offset r) _ r' e3 in
                record {
                  kind = kind;
                  attr_len = attr_len;
                  value = value;
                  flow = flow;
                  room = ltb→le (length attrs) (offset + 4 + attr_len) whole;
                  kind_read = kind_read;
                  length_read = length_read;
                  value_read = value_read;
                  flows = flows;
                  goes_on = goes_on;
                }
          ]
    ]

module _ (tail transaction_id : Bytes) (r' : ParsedAttrs) where
  -- The same round with more bytes behind
  longer_again :
      (fuel fuel' : ℕ) (attrs : Bytes) (offset : ℕ) (r : ParsedAttrs)
      → (round : Round fuel attrs transaction_id offset r r')
      → elim round.flow [
        | next s ↦
            attribute_loop fuel'
              (attrs ++ tail)
              transaction_id
              (offset + (4 + padded round.attr_len))
              s
        | stop s ↦ done s
      ]
        ≡ done r'
      → attribute_loop (suc fuel') (attrs ++ tail) transaction_id offset r ≡ done r'
  unfolding attribute_loop
  longer_again fuel fuel' attrs offset r round e =
      let all = attrs ++ tail in
      let longer = length-append attrs tail in
      let room = round.room in
      rw
        (
          le→ltb (length all) (offset + 4) (omega (arith, longer, room)),
          read16_tail tail attrs offset round.kind round.kind_read,
          read16_tail tail attrs (offset + 2) round.attr_len round.length_read,
        )
        (rw
          (
            le→ltb (length all) (offset + 4 + round.attr_len) (omega (arith, longer, room)),
            slice_tail tail attrs round.value (offset + 4) (offset + 4 + round.attr_len)
                round.value_read,
            round.flows,
          )
          e)

  flow_again :
      (fuel fuel' : ℕ) (attrs : Bytes) (at kind offset : ℕ) (value : Bytes) (flow : Flow)
      → Outcome kind value offset flow
      → ((s : ParsedAttrs)
          → IsUnsigned s
          → attribute_loop fuel attrs transaction_id at s ≡ done r'
          → attribute_loop fuel' (attrs ++ tail) transaction_id at s ≡ done r')
      → elim flow [ next s ↦ attribute_loop fuel attrs transaction_id at s | stop s ↦ done s ]
        ≡ done r'
      → elim flow [
        | next s ↦ attribute_loop fuel' (attrs ++ tail) transaction_id at s
        | stop s ↦ done s
      ]
        ≡ done r'
  flow_again fuel fuel' attrs at kind offset value (next s) o again e = again s o e
  flow_again fuel fuel' attrs at kind offset value (stop s) o again e = e

  loop_ignores_tail :
      (fuel fuel' : ℕ) (attrs : Bytes) (offset : ℕ) (r : ParsedAttrs) (hmac : Bytes)
      → fuel ≤ fuel'
      → IsUnsigned r
      → r'.message_integrity ≡ some hmac
      → attribute_loop fuel attrs transaction_id offset r ≡ done r'
      → attribute_loop fuel' (attrs ++ tail) transaction_id offset r ≡ done r'
  unfolding attribute_loop
  loop_ignores_tail zero fuel' attrs offset r hmac le unsigned signed e = absurd (cc e)
  loop_ignores_tail (suc fuel) zero attrs offset r hmac le unsigned signed e = absurd (omega arith)
  loop_ignores_tail (suc fuel) (suc fuel') attrs offset r hmac le unsigned signed e =
      let round = loop-Round fuel attrs transaction_id offset r r' hmac unsigned signed e in
      let outcome =
        subst (Holds (Outcome round.kind round.value offset)) round.flows
          (on_attribute-Outcome round.kind round.value offset r unsigned transaction_id) in
      longer_again fuel fuel' attrs offset r round (
        flow_again fuel fuel' attrs (offset + (4 + padded round.attr_len)) round.kind offset
          round.value round.flow outcome
          (λ s unsigned' e'.
            loop_ignores_tail fuel fuel' attrs (offset + (4 + padded round.attr_len)) s hmac
              (omega arith) unsigned' signed e')
          round.goes_on)

-- Whatever the bytes: where a MESSAGE-INTEGRITY was parsed, any bytes put behind them change
-- nothing of what is parsed. So nothing behind the signature counts.
pub parse_attributes_ignores_tail :
    (attrs tail transaction_id : Bytes) (r : ParsedAttrs) (hmac : Bytes)
    → parse_attributes attrs transaction_id ≡ done r
    → r.message_integrity ≡ some hmac
    → parse_attributes (attrs ++ tail) transaction_id ≡ done r
unfolding parse_attributes
parse_attributes_ignores_tail attrs tail transaction_id r hmac e signed =
    loop_ignores_tail tail transaction_id r (length attrs + 1) (length (attrs ++ tail) + 1) attrs 0
      no_attrs hmac (omega (arith, length-append attrs tail)) (refl, refl) signed e
