-- ===== src/Demux/Stun/Safety.antt =====
-- The STUN parser indexes its input all over; on no input does an index or a slice go out of range,
-- and the attribute loop ends.
use uturn.Common.{
  ℕ, zero, suc, ◌+◌, ◌≤◌, ◌<◌, ◌≡◌, false, Option, none, some, [], arith, ltb→le, leb→le, Run, done,
  IsDone, IsDone-done, IsDone->>=, IsDone-if, index-IsDone, slice-IsDone, length, length-slice,
  ◌==◌,
}
use uturn.Common.Bytes.{Bytes, read16-IsDone, read32-IsDone, padded}
use uturn.Demux.Stun.{ParsedAttrs, no_attrs, StunClass, StunInfo}
use uturn.Demux.Stun.Header.{class_of, class_bits}
use uturn.Demux.Stun.Attributes.{
  Flow, next, stop, xor_bytes, decode_v4, decode_v6, decode_family, decode_xor_address,
  on_channel_number, on_lifetime, on_transport, on_attribute, attribute_loop, parse_attributes,
  magic_bytes, attr_username, attr_xor_peer_address, attr_channel_number, attr_lifetime, attr_data,
  attr_realm, attr_nonce, attr_message_integrity, attr_requested_transport,
}
use uturn.Demux.Stun.Parse.{parse_body, parse}

pub xor_bytes-IsDone :
    (n from i : ℕ) (value mask : Bytes)
    → from + i + n ≤ length value
    → i + n ≤ length mask
    → IsDone (xor_bytes n from i value mask)
unfolding xor_bytes
xor_bytes-IsDone zero from i value mask hv hm = IsDone-done []
xor_bytes-IsDone (suc n) from i value mask hv hm =
    IsDone->>= _ _ (index-IsDone value (from + i) (omega arith)) λ a _.
      IsDone->>= _ _ (index-IsDone mask i (omega arith)) λ b _.
        IsDone->>= _ _ (xor_bytes-IsDone n from (i + 1) value mask (omega arith) (omega arith))
          λ rest _. IsDone-done _

decode_v4-IsDone : (value : Bytes) (port : ℕ) → 8 ≤ length value → IsDone (decode_v4 value port)
unfolding decode_v4
decode_v4-IsDone value port h = IsDone->>= _ _ (index-IsDone value 4 (omega arith)) λ a _.
    IsDone->>= _ _ (index-IsDone value 5 (omega arith)) λ b _.
      IsDone->>= _ _ (index-IsDone value 6 (omega arith))
        λ c _. IsDone->>= _ _ (index-IsDone value 7 (omega arith)) λ d _. IsDone-done _

decode_v6-IsDone :
    (value transaction_id : Bytes) (port : ℕ)
    → length transaction_id ≡ 12
    → IsDone (decode_v6 value transaction_id port)
unfolding decode_v6
decode_v6-IsDone value transaction_id port t =
    IsDone-if _ _ _ (λ _. IsDone-done none)
      λ long.
        let room = ltb→le (length value) 20 long in
        IsDone->>= _ _ (xor_bytes-IsDone 4 4 0 value magic_bytes (omega arith) (omega arith))
          λ high _.
            IsDone->>= _ _
              (xor_bytes-IsDone 12 8 0 value transaction_id (omega arith) (omega arith))
              λ low _. IsDone-done _

decode_family-IsDone :
    (family : ℕ) (value transaction_id : Bytes) (port : ℕ)
    → 8 ≤ length value
    → length transaction_id ≡ 12
    → IsDone (decode_family family value transaction_id port)
unfolding decode_family
decode_family-IsDone family value transaction_id port room t =
    IsDone-if (family == 1) _ _ (λ _. decode_v4-IsDone value port room)
      λ _.
        IsDone-if (family == 2) _ _ (λ _. decode_v6-IsDone value transaction_id port t)
          λ _. IsDone-done none

decode_xor_address-IsDone :
    (value transaction_id : Bytes)
    → length transaction_id ≡ 12
    → IsDone (decode_xor_address value transaction_id)
unfolding decode_xor_address
decode_xor_address-IsDone value transaction_id t =
    IsDone-if _ _ _ (λ _. IsDone-done none)
      λ long.
        let room = ltb→le (length value) 8 long in
        IsDone->>= _ _ (index-IsDone value 1 (omega arith)) λ family _.
          IsDone->>= _ _ (read16-IsDone value 2 (omega arith))
            λ port _. decode_family-IsDone family value transaction_id _ room t

on_channel_number-IsDone : (value : Bytes) (r : ParsedAttrs) → IsDone (on_channel_number value r)
unfolding on_channel_number
on_channel_number-IsDone value r =
    IsDone-if _ _ _
      (λ long.
        IsDone->>= _ _ (read16-IsDone value 0 (omega (arith, leb→le 2 (length value) long)))
          λ c _. IsDone-done _)
      (λ _. IsDone-done (next r))

on_lifetime-IsDone : (value : Bytes) (r : ParsedAttrs) → IsDone (on_lifetime value r)
unfolding on_lifetime
on_lifetime-IsDone value r =
    IsDone-if _ _ _
      (λ long.
        IsDone->>= _ _ (read32-IsDone value 0 (omega (arith, leb→le 4 (length value) long)))
          λ c _. IsDone-done _)
      (λ _. IsDone-done (next r))

on_transport-IsDone : (value : Bytes) (r : ParsedAttrs) → IsDone (on_transport value r)
unfolding on_transport
on_transport-IsDone value r =
    IsDone-if _ _ _ (λ _. IsDone-done (next r))
      λ some_bytes. IsDone->>= _ _ (index-IsDone value 0 (positive some_bytes)) λ c _. IsDone-done _
  where
    positive : (length value == 0) ≡ false → 0 < length value
    positive e = ground arith

on_attribute-IsDone :
    (kind : ℕ) (value transaction_id : Bytes) (offset : ℕ) (r : ParsedAttrs)
    → length transaction_id ≡ 12
    → IsDone (on_attribute kind value transaction_id offset r)
unfolding on_attribute
on_attribute-IsDone kind value transaction_id offset r t =
    IsDone-if (kind == attr_username) _ _ (λ _. IsDone-done _)
      λ _.
        IsDone-if (kind == attr_xor_peer_address) _ _
          (λ _.
            IsDone->>= _ _ (decode_xor_address-IsDone value transaction_id t) λ a _. IsDone-done _)
          λ _.
            IsDone-if (kind == attr_channel_number) _ _ (λ _. on_channel_number-IsDone value r)
              λ _.
                IsDone-if (kind == attr_lifetime) _ _ (λ _. on_lifetime-IsDone value r)
                  λ _.
                    IsDone-if (kind == attr_data) _ _ (λ _. IsDone-done _)
                      λ _.
                        IsDone-if (kind == attr_realm) _ _ (λ _. IsDone-done _)
                          λ _.
                            IsDone-if (kind == attr_nonce) _ _ (λ _. IsDone-done _)
                              λ _.
                                IsDone-if (kind == attr_message_integrity) _ _ (λ _. IsDone-done _)
                                  λ _.
                                    IsDone-if (kind == attr_requested_transport) _ _
                                      (λ _. on_transport-IsDone value r) λ _. IsDone-done _

goes_on :
    (flow : Flow) {k : ParsedAttrs → Run ParsedAttrs}
    → ((r : ParsedAttrs) → IsDone (k r))
    → IsDone (elim flow [ next r ↦ k r | stop r ↦ done r ])
goes_on (next r) h = h r
goes_on (stop r) h = IsDone-done r

-- The fuel covers the bytes from `offset` on, since every round moves on by four at least.
attribute_loop-IsDone :
    (fuel : ℕ) (attrs transaction_id : Bytes) (offset : ℕ) (r : ParsedAttrs)
    → length transaction_id ≡ 12
    → 0 < fuel
    → length attrs < fuel + offset
    → IsDone (attribute_loop fuel attrs transaction_id offset r)
unfolding attribute_loop
attribute_loop-IsDone zero attrs transaction_id offset r t positive enough = elim positive [ ]
attribute_loop-IsDone (suc fuel) attrs transaction_id offset r t positive enough =
    IsDone-if _ _ _ (λ _. IsDone-done r)
      λ header.
        let room = ltb→le (length attrs) (offset + 4) header in
        IsDone->>= _ _ (read16-IsDone attrs offset (omega arith)) λ kind _.
          IsDone->>= _ _ (read16-IsDone attrs (offset + 2) (omega arith)) λ attr_len _.
            IsDone-if _ _ _ (λ _. IsDone-done r)
              λ whole.
                let fits = ltb→le (length attrs) (offset + 4 + attr_len) whole in
                IsDone->>= _ _ (slice-IsDone attrs _ _ (omega arith) fits) λ value _.
                  IsDone->>= _ _ (on_attribute-IsDone kind value transaction_id offset r t)
                    λ flow _. goes_on flow (λ r'.
                      attribute_loop-IsDone fuel attrs transaction_id
                        (offset + (4 + padded attr_len)) r' t (omega arith) (omega arith))

parse_attributes-IsDone :
    (attrs transaction_id : Bytes)
    → length transaction_id ≡ 12
    → IsDone (parse_attributes attrs transaction_id)
unfolding parse_attributes
parse_attributes-IsDone attrs transaction_id t =
    attribute_loop-IsDone _ attrs transaction_id 0 no_attrs t (omega arith) (omega arith)

parse_body-IsDone :
    (bytes : Bytes) (msg_type : ℕ) (class : StunClass)
    → 20 ≤ length bytes
    → IsDone (parse_body bytes msg_type class)
unfolding parse_body
parse_body-IsDone bytes msg_type class h =
    IsDone->>= _ _ (read16-IsDone bytes 2 (omega arith)) λ msg_len _.
      IsDone-if _ _ _ (λ _. IsDone-done none)
        λ whole.
          let room = ltb→le (length bytes) (20 + msg_len) whole in
          IsDone->>= _ _ (slice-IsDone bytes 8 20 (omega arith) (omega arith)) λ transaction_id cut.
            IsDone->>= _ _ (slice-IsDone bytes 20 (20 + msg_len) (omega arith) room) λ body _.
              IsDone->>= _ _
                (parse_attributes-IsDone body transaction_id
                  (length-slice bytes transaction_id 8 20 cut))
                λ attrs _. IsDone-done _

by_class :
    (class : Option StunClass) {k : StunClass → Run (Option StunInfo)}
    → ((c : StunClass) → IsDone (k c))
    → IsDone (elim class [ none ↦ done none | some c ↦ k c ])
by_class none h = IsDone-done none
by_class (some c) h = h c

-- On every input the parser returns: it neither indexes out of range nor loops on.
pub parse-IsDone : (bytes : Bytes) → IsDone (parse bytes)
unfolding parse
parse-IsDone bytes =
    IsDone-if _ _ _ (λ _. IsDone-done none)
      λ long.
        let room = ltb→le (length bytes) 20 long in
        IsDone->>= _ _ (read32-IsDone bytes 4 (omega arith)) λ magic _.
          IsDone-if _ _ _ (λ _. IsDone-done none)
            λ _. IsDone->>= _ _ (read16-IsDone bytes 0 (omega arith)) λ msg_type _.
              by_class (class_of (class_bits msg_type)) λ c. parse_body-IsDone bytes msg_type c room
