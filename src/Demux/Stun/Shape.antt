-- ===== src/Demux/Stun/Shape.antt =====
-- What the handlers may rely on in a message that the parser gave them.
use uturn.Common.{
  ℕ, ◌+◌, ◌≤◌, ◌≡◌, subst, not, Option, none, some, arith, ltb, ◌==◌, length, done, Holds, Holds-if,
  Holds->>=, slice, length-slice,
}
use uturn.Common.Bytes.{Bytes, read16, read32}
use uturn.Demux.Stun.{StunInfo, StunClass, magic_cookie}
use uturn.Demux.Stun.Attributes.{parse_attributes}
use uturn.Demux.Stun.Integrity.{parse-Bounded}
use uturn.Demux.Stun.Parse.{parse_body, parse}

-- A header's worth of bytes, a transaction id of twelve, and an offset within the bytes.
pub record IsParsed (msg : StunInfo) : Type 0 where
  pub room : 20 ≤ length msg.raw
  pub txn : length msg.transaction_id ≡ 12
  pub span : (o : ℕ) → msg.message_integrity_offset ≡ some o → (20 ≤ o) × (o + 24 ≤ length msg.raw)

abbrev Sized : Option StunInfo → Type 0
Sized none = Unit
Sized (some info) = (20 ≤ length info.raw) × (length info.transaction_id ≡ 12)

parse_body-Sized :
    (bytes : Bytes) (msg_type : ℕ) (class : StunClass)
    → 20 ≤ length bytes
    → Holds Sized (parse_body bytes msg_type class)
unfolding parse_body
parse_body-Sized bytes msg_type class room = Holds->>= Sized (read16 bytes 2) _ λ msg_len _.
    Holds-if Sized (ltb (length bytes) (20 + msg_len)) _ _ (λ _. tt)
      λ _. Holds->>= Sized (slice bytes 8 20) _ λ transaction_id cut.
        Holds->>= Sized (slice bytes 20 (20 + msg_len)) _ λ body _.
          Holds->>= Sized (parse_attributes body transaction_id) _
            λ attrs _. (room, length-slice bytes transaction_id 8 20 cut)

by_class-Sized :
    (bytes : Bytes) (msg_type : ℕ) (class : Option StunClass)
    → 20 ≤ length bytes
    → Holds Sized (elim class [ none ↦ done none | some c ↦ parse_body bytes msg_type c ])
by_class-Sized bytes msg_type none room = tt
by_class-Sized bytes msg_type (some c) room = parse_body-Sized bytes msg_type c room

parse-Sized : (bytes : Bytes) → Holds Sized (parse bytes)
unfolding parse
parse-Sized bytes =
    Holds-if Sized (ltb (length bytes) 20) _ _ (λ _. tt)
      λ big. Holds->>= Sized (read32 bytes 4) _ λ magic _.
        Holds-if Sized (not (magic == magic_cookie)) _ _ (λ _. tt)
          λ _.
            Holds->>= Sized (read16 bytes 0) _
              λ msg_type _. by_class-Sized bytes msg_type _ (ground (arith, big))

pub parse-IsParsed : (bytes : Bytes) (msg : StunInfo) → parse bytes ≡ done (some msg) → IsParsed msg
parse-IsParsed bytes msg e =
    let h = subst (Holds Sized) e (parse-Sized bytes) in
    record {
      room = h.0;
      txn = h.1;
      span = λ o at. let b = parse-Bounded bytes msg o e at in (b.1, b.2);
    }
