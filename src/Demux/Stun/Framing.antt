-- ===== src/Demux/Stun/Framing.antt =====
-- The attribute loop against a reference reading: a list of attributes laid out as RFC 5389 frames
-- them (type, length, value, padding to four bytes) is read back one by one.
use uturn.Common.{
  ℕ, suc, ◌+◌, ◌-◌, ◌%◌, ◌≤◌, ◌<◌, ◌≡◌, refl, ap, ◌∙◌, ◌⊎◌, List, [], ◌∷◌, ◌++◌, arith, le→ltb, Run,
  done, ◌>>=◌, slice, length, length-append, replicate,
}
use uturn.Common.Bytes.{Bytes, bytes16, padded, read16, read16-append, slice-append, be16-bytes16}
use uturn.Demux.Stun.{ParsedAttrs}
use uturn.Demux.Stun.Attributes.{next, stop, on_attribute, attribute_loop, attr_message_integrity}

pub record Attribute : Type 0 where
  pub kind : ℕ
  pub value : Bytes

-- Type and length fit their 16-bit fields.
pub record IsAttribute (a : Attribute) : Type 0 where
  pub kind_fits : a.kind < 65536
  pub length_fits : length a.value < 65536

-- How many bytes are missing to a multiple of four.
abbrev pub gap : ℕ → ℕ
gap n = (4 - n % 4) % 4

abbrev pub padding : Attribute → Bytes
padding a = replicate (gap (length a.value)) 0

abbrev pub encode_attribute : Attribute → Bytes → Bytes
encode_attribute a rest =
    bytes16 a.kind ++ (bytes16 (length a.value) ++ (a.value ++ (padding a ++ rest)))

-- The attributes, and then the bytes `tail`.
unfoldable pub encode_attributes : List Attribute → Bytes → Bytes
encode_attributes [] tail = tail
encode_attributes (a ∷ attrs) tail = encode_attribute a (encode_attributes attrs tail)

-- The reference reading: no bytes, no positions but the offset that MESSAGE-INTEGRITY records.
unfoldable pub interpret : Bytes → ℕ → List Attribute → ParsedAttrs → Run ParsedAttrs
interpret transaction_id offset [] r = done r
interpret transaction_id offset (a ∷ attrs) r = do
  flow ← on_attribute a.kind a.value transaction_id offset r
  elim flow [
    | next r' ↦
        interpret transaction_id (offset + (4 + (length a.value + gap (length a.value)))) attrs r'
    | stop r' ↦ done r'
  ]

-- One round of the loop, at an attribute that is framed whole.
abbrev pub round : ℕ → Bytes → Bytes → ℕ → Attribute → ParsedAttrs → Run ParsedAttrs
round fuel attrs transaction_id offset a r =
    on_attribute a.kind a.value transaction_id offset r >>= λ flow. elim flow [
      | next r' ↦
          attribute_loop fuel attrs transaction_id (offset + (4 + padded (length a.value))) r'
      | stop r' ↦ done r'
    ]

module _ (fuel : ℕ) (before : Bytes) (a : Attribute) (rest transaction_id : Bytes) (r : ParsedAttrs)
    (fits : IsAttribute a) where
  abbrev pub whole : Bytes
  whole = before ++ encode_attribute a rest

  room : length before + 4 + length a.value ≤ length whole
  unfolding bytes16 read16
  room = omega (
    arith,
    length-append before (encode_attribute a rest),
    length-append a.value (padding a ++ rest),
    length-append (padding a) rest,
  )

  kind_read : read16 whole (length before) ≡ done a.kind
  unfolding bytes16 read16
  kind_read =
      read16-append before (encode_attribute a rest) 0 (length before) (omega arith)
      ∙ ap done (be16-bytes16 a.kind fits.kind_fits)

  length_read : read16 whole (length before + 2) ≡ done (length a.value)
  unfolding bytes16 read16
  length_read =
      read16-append before (encode_attribute a rest) 2 (length before + 2) refl
      ∙ ap done (be16-bytes16 (length a.value) fits.length_fits)

  value_read : slice whole (length before + 4) (length before + 4 + length a.value) ≡ done a.value
  unfolding bytes16
  value_read =
      slice-append before a.value (padding a ++ rest) 4 (length before + 4)
        (bytes16 a.kind ++ bytes16 (length a.value)) refl refl

  pub attribute_loop-round :
      attribute_loop (suc fuel) whole transaction_id (length before) r
      ≡ round fuel whole transaction_id (length before) a r
  unfolding attribute_loop
  attribute_loop-round =
      rw (le→ltb (length whole) (length before + 4) (omega (arith, room)), kind_read, length_read)
        (rw (le→ltb (length whole) (length before + 4 + length a.value) room, value_read))

abbrev pub IsMessageIntegrity : Attribute → Type 0
IsMessageIntegrity a = (a.kind ≡ attr_message_integrity) × (length a.value ≡ 20)

-- Some attribute in the list is a MESSAGE-INTEGRITY of the right length.
abbrev pub HasIntegrity : List Attribute → Type 0
HasIntegrity [] = ⊥
HasIntegrity (a ∷ attrs) = IsMessageIntegrity a ⊎ HasIntegrity attrs
