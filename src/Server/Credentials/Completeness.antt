-- ===== src/Server/Credentials/Completeness.antt =====
-- Whoever shows the credentials that the mechanism asks for is let in.
use uturn.Common.{
  ℕ, ◌≡◌, refl, ap, sym, ◌∙◌, true, false, not, ◌=?◌, some, List, [], ◌∷◌, arith, inl, inr,
  Bool-cases, done, if_true, if_false, subst, ◌>>=◌,
}
use uturn.Common.Bytes.{Bytes, Str}
use mathlib.Core.List.{Memᴰ}
use uturn.Addr.{octets_key}
use uturn.Config.{is_nil}
use uturn.Demux.Stun.{StunInfo}
use uturn.Server.State.{Env}
use uturn.Server.Credentials.{
  ok, answer_key, check_user, check_presence, passwords_of, find_key, signed_part, check_integrity,
  check_realm, check_nonce, verify_long_term_credentials,
}
use uturn.Server.Credentials.Soundness.{Shows, verify_long_term_credentials-Shows}
use uturn.Turn.Auth.{compute_key, verify_message_integrity}

module _ (env : Env) (username : Str) (part received : Bytes) where
  -- The first password whose key verifies; one that is among them may be later.
  find_key-found :
      (password : Str) (passwords : List Str)
      → Memᴰ password passwords
      → verify_message_integrity env.hmac_sha1 part received
          (compute_key env.md5 username env.config.realm password)
        ≡ true
      → (key : Bytes) × (find_key env passwords username part received ≡ some key)
  unfolding find_key
  find_key-found password [] among right = elim among [ ]
  find_key-found password (p ∷ passwords) (Memᴰ.head e) right =
      let key = compute_key env.md5 username env.config.realm p in
      let this : verify_message_integrity env.hmac_sha1 part received key ≡ true =
        subst
          (λ x.
            verify_message_integrity env.hmac_sha1 part received
              (compute_key env.md5 username env.config.realm x)
            ≡ true)
          e right in
      (key, if_true _ _ _ this)
  find_key-found password (p ∷ passwords) (Memᴰ.tail among) right =
      let key = compute_key env.md5 username env.config.realm p in
      elim (Bool-cases (verify_message_integrity env.hmac_sha1 part received key)) [
        | inl this ↦ (key, if_true _ _ _ this)
        | inr other ↦
            let (found, e) = find_key-found password passwords among right in
            (found, if_false _ _ _ other ∙ e)
      ]

is_nil_other :
    (password : Str) (passwords : List Str) → Memᴰ password passwords → is_nil passwords ≡ false
is_nil_other password (p ∷ passwords) among = refl
is_nil_other password [] among = elim among [ ]

same_text : (s : Str) → (s =? s) ≡ true
same_text s = ground arith

module _ (env : Env) (msg : StunInfo) (username : Str) (key : Bytes) where
  integrity_accepted :
      (part received : Bytes) (offset : ℕ)
      → signed_part env msg offset ≡ done part
      → find_key env (passwords_of env username) username part received ≡ some key
      → check_integrity env msg username (some received) (some offset) ≡ done (ok (username, key))
  unfolding check_integrity answer_key
  integrity_accepted part received offset signs found =
      ap
        (λ m. m >>= λ p.
          answer_key env msg username
            (find_key env (passwords_of env username) username p received))
        signs
      ∙ ap (answer_key env msg username) found

  presence_accepted :
      (s : Shows env msg username key) (k : Bytes)
      → check_integrity env msg username (some s.received) (some s.offset) ≡ done (ok (username, k))
      → verify_long_term_credentials env msg ≡ done (ok (username, k))
  unfolding verify_long_term_credentials check_nonce check_realm
  presence_accepted s k e =
      let some_password =
        is_nil_other s.is_key.password (passwords_of env username) s.is_key.among in
      ap (check_presence env msg) s.has_integrity
      ∙ ap (check_user env msg) s.names_user
      ∙ ap (check_nonce env msg username) s.has_nonce
      ∙ if_false _ _ _ (ap not s.nonce_fresh)
      ∙ ap (check_realm env msg username) s.realm_ours
      ∙ if_false _ _ _ (ap not (same_text env.config.realm))
      ∙ if_false _ _ _ some_password
      ∙ ap (λ i. check_integrity env msg username i msg.message_integrity_offset) s.has_integrity
      ∙ ap (check_integrity env msg username (some s.received)) s.at
      ∙ e

-- A user who shows what the mechanism asks for is accepted: a request which names the user, carries
-- a nonce that the server's own check passes, the server's realm, and a MESSAGE-INTEGRITY which is
-- right under the key of any of the passwords that the user may have, whichever stands first; the
-- key returned is that of a password under which it is right.
pub verify_long_term_credentials-accepts :
    (env : Env) (msg : StunInfo) (username : Str) (key : Bytes)
    → Shows env msg username key
    → (k : Bytes) × ((verify_long_term_credentials env msg ≡ done (ok (username, k)))
        × Shows env msg username k)
verify_long_term_credentials-accepts env msg username key s =
    let right =
      ap (verify_message_integrity env.hmac_sha1 s.part s.received) (sym s.is_key.derived)
      ∙ s.is_key.verifies in
    let (k, found) =
      find_key-found env username s.part s.received s.is_key.password (passwords_of env username)
        s.is_key.among right in
    let e =
      presence_accepted env msg username key s k
        (integrity_accepted env msg username k s.part s.received s.offset s.signs found) in
    (k, (e, verify_long_term_credentials-Shows env msg username k e))
