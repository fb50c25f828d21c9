-- ===== src/Demux/Stun/Integrity.antt =====
-- Where the parser says that MESSAGE-INTEGRITY stands, one stands: the caller cuts the message
-- there to check the HMAC (turn/handler.rs, `verify_long_term_credentials`).
use uturn.Common.{
  ℕ, zero, suc, ◌+◌, ◌≤◌, ◌≡◌, refl, ap, ◌∙◌, subst, not, Bool, true, false, Option, none, some,
  arith, ltb, leb, ==_iff, if◌then◌else◌, Run, done, panic, out_of_fuel, ◌>>=◌, Holds, Holds-if,
  Holds->>=, index, slice, slice_bounds, length, length-slice, ◌==◌,
}
use uturn.Common.Bytes.{Bytes, read16, read32, padded}
use uturn.Addr.{SocketAddr}
use uturn.Demux.Stun.{ParsedAttrs, no_attrs, StunClass, StunInfo, magic_cookie}
use uturn.Demux.Stun.Header.{class_of, class_bits}
use uturn.Demux.Stun.Attributes.{
  Flow, next, stop, decode_xor_address, on_channel_number, on_lifetime, on_transport, on_attribute,
  attribute_loop, parse_attributes, push_address, attr_username, attr_xor_peer_address,
  attr_channel_number, attr_lifetime, attr_data, attr_realm, attr_nonce, attr_message_integrity,
  attr_requested_transport,
}
use uturn.Demux.Stun.Parse.{parse_body, parse}

-- No MESSAGE-INTEGRITY was parsed, or it stands at the offset that was noted: its type, its
-- 20 bytes of HMAC, and so 24 bytes inside the attributes `attrs`.
pub data IntegrityAt (attrs : Bytes) (r : ParsedAttrs) : Type 0 where
  absent : r.message_integrity ≡ none → r.message_integrity_offset ≡ none → IntegrityAt attrs r
  present :
      (at : ℕ) (hmac : Bytes)
      → r.message_integrity ≡ some hmac
      → r.message_integrity_offset ≡ some (20 + at)
      → read16 attrs at ≡ done attr_message_integrity
      → slice attrs (at + 4) (at + 24) ≡ done hmac
      → length hmac ≡ 20
      → IntegrityAt attrs r

-- No MESSAGE-INTEGRITY so far.
abbrev pub IsUnsigned : ParsedAttrs → Type 0
IsUnsigned r = (r.message_integrity ≡ none) × (r.message_integrity_offset ≡ none)

-- Only MESSAGE-INTEGRITY ends the loop, and only it notes an offset.
abbrev pub Outcome : ℕ → Bytes → ℕ → Flow → Type 0
Outcome kind value offset (next r) = IsUnsigned r
Outcome kind value offset (stop r) =
    (kind ≡ attr_message_integrity)
    × (length value ≡ 20)
    × (r.message_integrity ≡ some value)
    × (r.message_integrity_offset ≡ some (20 + offset))

module _ (kind : ℕ) (value : Bytes) (offset : ℕ) where
  Outcome-if :
      (b : Bool) (r : ParsedAttrs)
      → IsUnsigned r
      → (kind ≡ attr_message_integrity)
      → (b ≡ true → length value ≡ 20)
      → Outcome kind value offset (
          if b
          then stop (record r {
            message_integrity = some value;
            message_integrity_offset = some (20 + offset);
          })
          else next r)
  Outcome-if true r unsigned k l = (k, l refl, refl, refl)
  Outcome-if false r unsigned k l = unsigned

  IsUnsigned-if :
      (b : Bool) (r r' : ParsedAttrs)
      → IsUnsigned r
      → IsUnsigned r'
      → IsUnsigned (if b then r else r')
  IsUnsigned-if true r r' h h' = h
  IsUnsigned-if false r r' h h' = h'

  IsUnsigned-push :
      (r : ParsedAttrs) (a : Option SocketAddr) → IsUnsigned r → IsUnsigned (push_address r a)
  IsUnsigned-push r none h = h
  IsUnsigned-push r (some a) h = h

  module _ (r : ParsedAttrs) (unsigned : IsUnsigned r) where
    on_channel_number-Outcome : Holds (Outcome kind value offset) (on_channel_number value r)
    unfolding on_channel_number
    on_channel_number-Outcome =
        Holds-if (Outcome kind value offset) (leb 2 (length value)) _ _
          (λ _.
            Holds->>= (Outcome kind value offset) (read16 value 0) _
              λ c _. IsUnsigned-if _ _ r unsigned unsigned)
          (λ _. unsigned)

    on_lifetime-Outcome : Holds (Outcome kind value offset) (on_lifetime value r)
    unfolding on_lifetime
    on_lifetime-Outcome =
        Holds-if (Outcome kind value offset) (leb 4 (length value)) _ _
          (λ _. Holds->>= (Outcome kind value offset) (read32 value 0) _ λ t _. unsigned)
          (λ _. unsigned)

    on_transport-Outcome : Holds (Outcome kind value offset) (on_transport value r)
    unfolding on_transport
    on_transport-Outcome =
        Holds-if (Outcome kind value offset) (length value == 0) _ _ (λ _. unsigned)
          (λ _. Holds->>= (Outcome kind value offset) (index value 0) _ λ t _. unsigned)

    pub on_attribute-Outcome :
        (transaction_id : Bytes)
        → Holds (Outcome kind value offset) (on_attribute kind value transaction_id offset r)
    unfolding on_attribute
    on_attribute-Outcome transaction_id =
        Holds-if (Outcome kind value offset) (kind == attr_username) _ _
          (λ _. IsUnsigned-if _ _ r unsigned unsigned)
          λ _.
            Holds-if (Outcome kind value offset) (kind == attr_xor_peer_address) _ _
              (λ _.
                Holds->>= (Outcome kind value offset) (decode_xor_address value transaction_id) _
                  λ a _. IsUnsigned-push r a unsigned)
              λ _.
                Holds-if (Outcome kind value offset) (kind == attr_channel_number) _ _
                  (λ _. on_channel_number-Outcome)
                  λ _.
                    Holds-if (Outcome kind value offset) (kind == attr_lifetime) _ _
                      (λ _. on_lifetime-Outcome)
                      λ _.
                        Holds-if (Outcome kind value offset) (kind == attr_data) _ _ (λ _. unsigned)
                          λ _.
                            Holds-if (Outcome kind value offset) (kind == attr_realm) _ _
                              (λ _. IsUnsigned-if _ _ r unsigned unsigned)
                              λ _.
                                Holds-if (Outcome kind value offset) (kind == attr_nonce) _ _
                                  (λ _. IsUnsigned-if _ _ r unsigned unsigned)
                                  λ _.
                                    Holds-if (Outcome kind value offset)
                                      (kind == attr_message_integrity) _ _
                                      (λ k.
                                        Outcome-if (length value == 20) r unsigned
                                          ((==_iff kind attr_message_integrity).0 k)
                                          (==_iff (length value) 20).0)
                                      λ _.
                                        Holds-if (Outcome kind value offset)
                                          (kind == attr_requested_transport) _ _
                                          (λ _. on_transport-Outcome) λ _. unsigned

-- After an attribute at `offset`.
after_attribute :
    (attrs value : Bytes) (kind offset attr_len : ℕ) (m : Run Flow)
    (k : ParsedAttrs → Run ParsedAttrs)
    → read16 attrs offset ≡ done kind
    → slice attrs (offset + 4) (offset + 4 + attr_len) ≡ done value
    → Holds (Outcome kind value offset) m
    → ((r : ParsedAttrs) → IsUnsigned r → Holds (IntegrityAt attrs) (k r))
    → Holds (IntegrityAt attrs) (m >>= λ flow. elim flow [ next r ↦ k r | stop r ↦ done r ])
after_attribute attrs value kind offset attr_len (done (next r)) k ek ev o h = h r o
after_attribute attrs value kind offset attr_len (done (stop r)) k ek ev o h =
    present offset value o.2 o.3 (ek ∙ ap done o.0) (at_end ev) o.1
  where
    len : attr_len ≡ 20
    len = omega (arith, length-slice attrs value (offset + 4) (offset + 4 + attr_len) ev, o.1)

    at_end :
        slice attrs (offset + 4) (offset + 4 + attr_len) ≡ done value
        → slice attrs (offset + 4) (offset + 24) ≡ done value
    at_end e = ap (slice attrs (offset + 4)) (omega (arith, len)) ∙ e
after_attribute attrs value kind offset attr_len panic k ek ev o h = tt
after_attribute attrs value kind offset attr_len out_of_fuel k ek ev o h = tt

attribute_loop-IntegrityAt :
    (fuel : ℕ) (attrs transaction_id : Bytes) (offset : ℕ) (r : ParsedAttrs)
    → IsUnsigned r
    → Holds (IntegrityAt attrs) (attribute_loop fuel attrs transaction_id offset r)
unfolding attribute_loop
attribute_loop-IntegrityAt zero attrs transaction_id offset r unsigned = tt
attribute_loop-IntegrityAt (suc fuel) attrs transaction_id offset r unsigned =
    Holds-if (IntegrityAt attrs) (ltb (length attrs) (offset + 4)) _ _
      (λ _. absent unsigned.0 unsigned.1)
      (λ _. Holds->>= (IntegrityAt attrs) (read16 attrs offset) _ λ kind ek.
        Holds->>= (IntegrityAt attrs) (read16 attrs (offset + 2)) _ λ attr_len _.
          Holds-if (IntegrityAt attrs) (ltb (length attrs) (offset + 4 + attr_len)) _ _
            (λ _. absent unsigned.0 unsigned.1)
            (λ _.
              Holds->>= (IntegrityAt attrs) (slice attrs (offset + 4) (offset + 4 + attr_len)) _
                λ value ev.
                  after_attribute attrs value kind offset attr_len
                    (on_attribute kind value transaction_id offset r) _ ek ev
                    (on_attribute-Outcome kind value offset r unsigned transaction_id)
                    λ r' unsigned'.
                      attribute_loop-IntegrityAt fuel attrs transaction_id
                        (offset + (4 + padded attr_len)) r' unsigned'))

-- Of whatever bytes: if the parse notes an offset, then a MESSAGE-INTEGRITY of 20 bytes stands
-- there, whole and within the attributes, and its HMAC is the one that was kept.
pub parse_attributes-IntegrityAt :
    (attrs transaction_id : Bytes) (r : ParsedAttrs)
    → parse_attributes attrs transaction_id ≡ done r
    → IntegrityAt attrs r
unfolding parse_attributes
parse_attributes-IntegrityAt attrs transaction_id r e =
    subst (Holds (IntegrityAt attrs)) e
      (attribute_loop-IntegrityAt (length attrs + 1) attrs transaction_id 0 no_attrs (refl, refl))

bounds :
    (attrs : Bytes) (r : ParsedAttrs) (o : ℕ)
    → IntegrityAt attrs r
    → r.message_integrity_offset ≡ some o
    → (20 ≤ o) × (o + 4 ≤ length attrs)
bounds attrs r o (absent m n) e = cc
bounds attrs r o (present at hmac m n ek ev l) e =
    let same : 20 + at ≡ o = cc in omega (arith, slice_bounds attrs hmac (at + 4) (at + 24) ev)

-- What `parse` makes of the message `bytes`.
abbrev Bounded : Bytes → Option StunInfo → Type 0
Bounded bytes none = Unit
Bounded bytes (some info) =
    (info.raw ≡ bytes)
    × ((o : ℕ) → info.message_integrity_offset ≡ some o → (20 ≤ o) × (o + 24 ≤ length bytes))

parse_body-Bounded :
    (bytes : Bytes) (msg_type : ℕ) (class : StunClass)
    → Holds (Bounded bytes) (parse_body bytes msg_type class)
unfolding parse_body
parse_body-Bounded bytes msg_type class = Holds->>= (Bounded bytes) (read16 bytes 2) _ λ msg_len _.
    Holds-if (Bounded bytes) (ltb (length bytes) (20 + msg_len)) _ _ (λ _. tt)
      λ _. Holds->>= (Bounded bytes) (slice bytes 8 20) _ λ transaction_id _.
        Holds->>= (Bounded bytes) (slice bytes 20 (20 + msg_len)) _ λ body cut.
          Holds->>= (Bounded bytes) (parse_attributes body transaction_id) _ λ attrs e. (
            refl,
            λ o at. omega (
              arith,
              bounds body attrs o (parse_attributes-IntegrityAt body transaction_id attrs e) at,
              length-slice bytes body 20 (20 + msg_len) cut,
              slice_bounds bytes body 20 (20 + msg_len) cut,
            ),
          )

by_class :
    (bytes : Bytes) (msg_type : ℕ) (class : Option StunClass)
    → Holds (Bounded bytes) (elim class [ none ↦ done none | some c ↦ parse_body bytes msg_type c ])
by_class bytes msg_type none = tt
by_class bytes msg_type (some c) = parse_body-Bounded bytes msg_type c

-- Of whatever message: if the parser notes an offset for MESSAGE-INTEGRITY, then the 24 bytes of
-- that attribute lie behind the header and within the message, which `raw` keeps whole.
pub parse-Bounded :
    (bytes : Bytes) (info : StunInfo) (o : ℕ)
    → parse bytes ≡ done (some info)
    → info.message_integrity_offset ≡ some o
    → (info.raw ≡ bytes) × (20 ≤ o) × (o + 24 ≤ length info.raw)
unfolding parse
parse-Bounded bytes info o e at =
    let h = subst (Holds (Bounded bytes)) e whole in (h.0, (h.1 o at).0, rw h.0 (h.1 o at).1)
  where
    whole : Holds (Bounded bytes) (parse bytes)
    whole =
        Holds-if (Bounded bytes) (ltb (length bytes) 20) _ _ (λ _. tt)
          λ _. Holds->>= (Bounded bytes) (read32 bytes 4) _ λ magic _.
            Holds-if (Bounded bytes) (not (magic == magic_cookie)) _ _ (λ _. tt)
              λ _.
                Holds->>= (Bounded bytes) (read16 bytes 0) _
                  λ msg_type _. by_class bytes msg_type (class_of (class_bits msg_type))
