-- ===== src/Demux/Tests.antt =====
-- The theorems on the demultiplexer at concrete packets.
use uturn.Common.{
  ℕ, ◌+◌, ◌≡◌, ◌≤◌, ◌<◌, refl, inl, inr, none, some, [], ◌∷◌, ◌++◌, arith, done, Run, IsDone,
  length, All,
}
use uturn.Common.Bytes.{Bytes, bytes16}
use uturn.Demux.Stun.{StunInfo, ParsedAttrs, no_attrs, request, allocate}
use uturn.Demux.Stun.Header.{class_of, class_bits, method_of, method_bits}
use uturn.Demux.Stun.Attributes.{parse_attributes, decode_family, decode_v4}
use uturn.Demux.Stun.Framing.{Attribute, IsAttribute, HasIntegrity, encode_attributes, interpret}
use uturn.Demux.Stun.Reading.{parse_attributes-encode}
use uturn.Demux.Stun.Tail.{parse_attributes_ignores_tail}
use uturn.Demux.Stun.Integrity.{IntegrityAt, parse_attributes-IntegrityAt, parse-Bounded}
use uturn.Demux.Stun.Parse.{parse}
use uturn.Demux.Stun.Safety.{parse-IsDone}
use uturn.Demux.Protocol.{classify, turn_channel_data}
use uturn.Demux.Protocol.Safety.{classify-IsDone}
use uturn.Demux.Protocol.Ranges.{Agrees, classify-channel_data, classify_first_byte}

abbrev txn : Bytes
txn = 1 ∷ 2 ∷ 3 ∷ 4 ∷ 5 ∷ 6 ∷ 7 ∷ 8 ∷ 9 ∷ 10 ∷ 11 ∷ 12 ∷ []

abbrev hmac : Bytes
hmac = 1 ∷ 1 ∷ 1 ∷ 1 ∷ 1 ∷ 2 ∷ 2 ∷ 2 ∷ 2 ∷ 2 ∷ 3 ∷ 3 ∷ 3 ∷ 3 ∷ 3 ∷ 4 ∷ 4 ∷ 4 ∷ 4 ∷ 4 ∷ []

-- MESSAGE-INTEGRITY
abbrev signature : Attribute
signature = record { kind = 0x0008; value = hmac }

-- LIFETIME of 600 seconds
abbrev ten_minutes : Attribute
ten_minutes = record { kind = 0x000D; value = 0 ∷ 0 ∷ 2 ∷ 88 ∷ [] }

abbrev signed_bytes : Bytes
signed_bytes = 0 ∷ 13 ∷ 0 ∷ 4 ∷ 0 ∷ 0 ∷ 2 ∷ 88 ∷ 0 ∷ 8 ∷ 0 ∷ 20 ∷ hmac

abbrev signed_attrs : ParsedAttrs
signed_attrs = record no_attrs {
  lifetime = some 600;
  message_integrity = some hmac;
  message_integrity_offset = some 28;
}

abbrev signed_message : Bytes
signed_message = 0 ∷ 3 ∷ 0 ∷ 32 ∷ 0x21 ∷ 0x12 ∷ 0xA4 ∷ 0x42 ∷ (txn ++ signed_bytes)

abbrev signed_info : StunInfo
signed_info = record {
  class = request;
  method = allocate;
  transaction_id = txn;
  attrs = signed_attrs;
  raw = signed_message;
}

both_fit : All IsAttribute (ten_minutes ∷ signature ∷ [])
both_fit = (
  record { kind_fits = omega arith; length_fits = omega arith },
  (record { kind_fits = omega arith; length_fits = omega arith }, tt),
)

signed_bytes_parsed : parse_attributes signed_bytes txn ≡ done signed_attrs
unfolding parse_attributes uturn.Common.Bytes.read16 uturn.Common.slice
    uturn.Demux.Stun.Attributes.on_attribute uturn.Demux.Stun.Attributes.on_lifetime
    uturn.Common.Bytes.padded
signed_bytes_parsed = refl

signed_message_parsed : parse signed_message ≡ done (some signed_info)
unfolding parse parse_attributes class_of class_bits uturn.Common.slice
    uturn.Demux.Stun.Attributes.on_attribute uturn.Demux.Stun.Attributes.on_lifetime
    uturn.Common.Bytes.padded method_of method_bits
signed_message_parsed = refl

is_signed : HasIntegrity (ten_minutes ∷ signature ∷ [])
is_signed = inr (inl (refl, refl))

parse-IsDone_example : IsDone (parse signed_message)
parse-IsDone_example = parse-IsDone signed_message

classify-IsDone_example : IsDone (classify signed_message)
classify-IsDone_example = classify-IsDone signed_message

parse_attributes-encode_example :
    parse_attributes (encode_attributes (ten_minutes ∷ signature ∷ []) (7 ∷ 7 ∷ [])) txn
    ≡ interpret txn 0 (ten_minutes ∷ signature ∷ []) no_attrs
parse_attributes-encode_example =
    parse_attributes-encode (ten_minutes ∷ signature ∷ []) (7 ∷ 7 ∷ []) txn both_fit (inr is_signed)

parse_attributes_ignores_tail_example :
    parse_attributes (signed_bytes ++ (0 ∷ 13 ∷ 0 ∷ 4 ∷ 0 ∷ 0 ∷ 0 ∷ 1 ∷ [])) txn ≡ done signed_attrs
parse_attributes_ignores_tail_example =
    parse_attributes_ignores_tail signed_bytes (0 ∷ 13 ∷ 0 ∷ 4 ∷ 0 ∷ 0 ∷ 0 ∷ 1 ∷ []) txn
      signed_attrs hmac signed_bytes_parsed refl

parse_attributes-IntegrityAt_example : IntegrityAt signed_bytes signed_attrs
parse_attributes-IntegrityAt_example =
    parse_attributes-IntegrityAt signed_bytes txn signed_attrs signed_bytes_parsed

parse-Bounded_example :
    (signed_info.raw ≡ signed_message) × (20 ≤ 28) × (28 + 24 ≤ length signed_info.raw)
parse-Bounded_example = parse-Bounded signed_message signed_info 28 signed_message_parsed refl

classify-channel_data_example :
    classify (bytes16 0x4001 ++ (bytes16 2 ++ ((5 ∷ 6 ∷ []) ++ (0 ∷ 0 ∷ []))))
    ≡ done (turn_channel_data 0x4001 (5 ∷ 6 ∷ []))
classify-channel_data_example =
    classify-channel_data 0x4001 (5 ∷ 6 ∷ []) (0 ∷ 0 ∷ []) (omega arith) (omega arith) (omega arith)

framed_classified : classify (0x40 ∷ 1 ∷ 0 ∷ 1 ∷ 9 ∷ []) ≡ done (turn_channel_data 0x4001 (9 ∷ []))
unfolding classify uturn.Common.slice
framed_classified = refl

classify_first_byte_example :
    Agrees 0x40 (0x40 ∷ 1 ∷ 0 ∷ 1 ∷ 9 ∷ []) (turn_channel_data 0x4001 (9 ∷ []))
classify_first_byte_example =
    classify_first_byte 0x40 (1 ∷ 0 ∷ 1 ∷ 9 ∷ []) (turn_channel_data 0x4001 (9 ∷ []))
      (omega arith, (omega arith, (omega arith, (omega arith, (omega arith, tt)))))
      framed_classified
