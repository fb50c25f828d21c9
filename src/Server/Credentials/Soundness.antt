-- ===== src/Server/Credentials/Soundness.antt =====
-- What a request must have shown when its credentials are accepted.
use uturn.Common.{
  ℕ, ◌≡◌, refl, ap, >>=-value, done-injective, =?-eq, sym, ◌∙◌, true, not, Option, none, some, List,
  [], ◌∷◌, arith, inl, inr, Bool-cases, Run, done, panic, if_true, if_false, subst, out_of_fuel,
  ◌=?◌,
}
use uturn.Common.Bytes.{Bytes, Str}
use mathlib.Core.List.{Memᴰ}
use uturn.Addr.{octets_key}
use uturn.Config.{is_nil}
use uturn.Demux.Stun.{StunInfo}
use uturn.Server.State.{Env}
use uturn.Server.Credentials.{
  Reply, ok, err, refuse, bad, stale, unauthorized, answer_key, check_user, check_presence,
  is_fresh, passwords_of, find_key, signed_part, check_integrity, check_realm, check_nonce,
  verify_long_term_credentials,
}
use uturn.Turn.Auth.{compute_key, verify_message_integrity}

-- A key of one of the passwords that the username may have, under which the HMAC is right.
pub record IsKey (env : Env) (passwords : List Str) (username : Str) (part received key : Bytes)
    : Type 0 where
  pub password : Str
  pub among : Memᴰ password passwords
  pub derived : key ≡ compute_key env.md5 username env.config.realm password
  pub verifies : verify_message_integrity env.hmac_sha1 part received key ≡ true

some-injective {ℓ} : {A : Type ℓ} {a b : A} → some a ≡ some b → a ≡ b
some-injective e = cc

find_key-IsKey :
    (env : Env) (passwords : List Str) (username : Str) (part received key : Bytes)
    → find_key env passwords username part received ≡ some key
    → IsKey env passwords username part received key
unfolding find_key
find_key-IsKey env [] username part received key e = absurd (ground arith)
find_key-IsKey env (p ∷ passwords) username part received key e =
    elim (Bool-cases (
      verify_message_integrity env.hmac_sha1 part received
        (compute_key env.md5 username env.config.realm p))) [
          | inl right ↦
              let is_this : compute_key env.md5 username env.config.realm p ≡ key =
                some-injective (sym (if_true _ _ _ right) ∙ e) in
              record {
                password = p;
                among = Memᴰ.head refl;
                derived = sym is_this;
                verifies =
                    subst (λ k. verify_message_integrity env.hmac_sha1 part received k ≡ true)
                      is_this right;
              }
          | inr wrong ↦ later (
              find_key-IsKey env passwords username part received key
                (sym (if_false _ _ _ wrong) ∙ e))
        ]
  where
    later :
        IsKey env passwords username part received key
        → IsKey env (p ∷ passwords) username part received key
    later k = record {
      password = k.password;
      among = Memᴰ.tail k.among;
      derived = k.derived;
      verifies = k.verifies;
    }

-- The pair of a verdict.
abbrev answered : Reply (Str × Bytes) → Str × Bytes → Str × Bytes
answered (ok a) default = a
answered (err response) default = default

abbrev accepted : Str × Bytes → Run (Reply (Str × Bytes))
accepted user = done (ok user)

ok-injective : {u v : Str} {k l : Bytes} → accepted (u, k) ≡ accepted (v, l) → (u ≡ v) × (k ≡ l)
ok-injective {u} {v} {k} {l} e =
    let both = done-injective e in
    (ap (λ p. (answered p (u, k)).0) both, ap (λ p. (answered p (u, k)).1) both)

refuse_ne_ok : {A : Type 0} (m : Run Bytes) (a : A) → refuse m ≡ done (ok a) → ⊥
refuse_ne_ok (done r) a e = cc
refuse_ne_ok panic a e = cc
refuse_ne_ok out_of_fuel a e = cc

-- What stands in an accepted request: every attribute that the mechanism asks for, and the HMAC.
pub record Shows (env : Env) (msg : StunInfo) (username : Str) (key : Bytes) : Type 0 where
  pub received : Bytes
  pub offset : ℕ
  pub part : Bytes
  pub nonce : Str
  pub names_user : msg.username ≡ some username
  pub has_nonce : msg.nonce ≡ some nonce
  pub nonce_fresh : is_fresh env nonce ≡ true
  pub realm_ours : msg.realm ≡ some env.config.realm
  pub has_integrity : msg.message_integrity ≡ some received
  pub at : msg.message_integrity_offset ≡ some offset
  pub signs : signed_part env msg offset ≡ done part
  pub is_key : IsKey env (passwords_of env username) username part received key

module _ (env : Env) (msg : StunInfo) (username : Str) (key : Bytes) where
  -- After the nonce and the realm: what the HMAC has shown.
  record Signed (u : Str) (integrity_attr : Option Bytes) (offset_attr : Option ℕ) : Type 0 where
    received : Bytes
    offset : ℕ
    part : Bytes
    same_user : u ≡ username
    has_integrity : integrity_attr ≡ some received
    at : offset_attr ≡ some offset
    signs : signed_part env msg offset ≡ done part
    is_key : IsKey env (passwords_of env u) u part received key

  answer_key-some :
      (u : Str) (o : Option Bytes)
      → answer_key env msg u o ≡ done (ok (username, key))
      → (u ≡ username) × (o ≡ some key)
  unfolding answer_key
  answer_key-some u none e = absurd (refuse_ne_ok (unauthorized env msg) (username, key) e)
  answer_key-some u (some k) e = let (user, key_eq) = ok-injective e in (user, ap some key_eq)

  check_integrity-Signed :
      (u : Str) (integrity_attr : Option Bytes) (offset_attr : Option ℕ)
      → check_integrity env msg u integrity_attr offset_attr ≡ done (ok (username, key))
      → Signed u integrity_attr offset_attr
  unfolding check_integrity
  check_integrity-Signed u none o e = absurd (refuse_ne_ok (bad env msg) (username, key) e)
  check_integrity-Signed u (some received) none e =
      absurd (refuse_ne_ok (bad env msg) (username, key) e)
  check_integrity-Signed u (some received) (some offset) e =
      let (part, signs, found_key) =
        >>=-value (signed_part env msg offset)
          (λ part. answer_key env msg u (find_key env (passwords_of env u) u part received))
          (ok (username, key)) e in
      let (user, found) =
        answer_key-some u (find_key env (passwords_of env u) u part received) found_key in
      record {
        received = received;
        offset = offset;
        part = part;
        same_user = user;
        has_integrity = refl;
        at = refl;
        signs = signs;
        is_key = find_key-IsKey env (passwords_of env u) u part received key found;
      }

  check_realm-Signed :
      (u : Str) (realm : Option Str)
      → check_realm env msg u realm ≡ done (ok (username, key))
      → (realm ≡ some env.config.realm)
        × Signed u msg.message_integrity msg.message_integrity_offset
  unfolding check_realm
  check_realm-Signed u none e = absurd (refuse_ne_ok (unauthorized env msg) (username, key) e)
  check_realm-Signed u (some realm) e = elim (Bool-cases (realm =? env.config.realm)) [
    | inr other ↦ absurd (
        refuse_ne_ok (unauthorized env msg) (username, key)
          (sym (if_true _ _ _ (ap not other)) ∙ e))
    | inl same ↦ elim (Bool-cases (is_nil (passwords_of env u))) [
      | inl empty ↦ absurd (
          refuse_ne_ok (unauthorized env msg) (username, key)
            (sym (if_false _ _ _ (ap not same) ∙ if_true _ _ _ empty) ∙ e))
      | inr some_password ↦ (
        ap some (=?-eq realm env.config.realm same),
        check_integrity-Signed u msg.message_integrity msg.message_integrity_offset
            (sym (if_false _ _ _ (ap not same) ∙ if_false _ _ _ some_password) ∙ e),
      )
    ]
  ]

  check_nonce-Shows :
      (u : Str) (nonce : Option Str)
      → check_nonce env msg u nonce ≡ done (ok (username, key))
      → msg.username ≡ some u
      → msg.nonce ≡ nonce
      → Shows env msg username key
  unfolding check_nonce
  check_nonce-Shows u none e named same_nonce =
      absurd (refuse_ne_ok (bad env msg) (username, key) e)
  check_nonce-Shows u (some nonce) e named same_nonce = elim (Bool-cases (is_fresh env nonce)) [
    | inr old ↦
        absurd (refuse_ne_ok (stale env msg) (username, key) (sym (if_true _ _ _ (ap not old)) ∙ e))
    | inl fresh ↦
        let (realm_eq, s) =
          check_realm-Signed u msg.realm (sym (if_false _ _ _ (ap not fresh)) ∙ e) in
        record {
          received = s.received;
          offset = s.offset;
          part = s.part;
          nonce = nonce;
          names_user = named ∙ ap some s.same_user;
          has_nonce = same_nonce;
          nonce_fresh = fresh;
          realm_ours = realm_eq;
          has_integrity = s.has_integrity;
          at = s.at;
          signs = s.signs;
          is_key =
              subst (λ x. IsKey env (passwords_of env x) x s.part s.received key) s.same_user
                s.is_key;
        }
  ]

  check_user-Shows :
      (user : Option Str)
      → check_user env msg user ≡ done (ok (username, key))
      → msg.username ≡ user
      → Shows env msg username key
  unfolding check_user
  check_user-Shows none e named = absurd (refuse_ne_ok (bad env msg) (username, key) e)
  check_user-Shows (some u) e named = check_nonce-Shows u msg.nonce e named refl

  check_presence-Shows :
      (integrity_attr : Option Bytes)
      → check_presence env msg integrity_attr ≡ done (ok (username, key))
      → Shows env msg username key
  unfolding check_presence
  check_presence-Shows none e = absurd (refuse_ne_ok (unauthorized env msg) (username, key) e)
  check_presence-Shows (some _) e = check_user-Shows msg.username e refl

  -- Credentials that are accepted were shown: the request names the user, carries a nonce that the
  -- server's own check passes, the server's realm, and a MESSAGE-INTEGRITY which is right, over
  -- the message up to it with the length set behind it, under the key of one of the passwords
  -- that the user may have; and that key is the one returned.
  pub verify_long_term_credentials-Shows :
      verify_long_term_credentials env msg ≡ done (ok (username, key)) → Shows env msg username key
  unfolding verify_long_term_credentials
  verify_long_term_credentials-Shows e = check_presence-Shows msg.message_integrity e
