-- ===== src/Config/Passwords.antt =====
-- The passwords that a username may be signed with.
use uturn.Common.{
  ℕ, ◌≡◌, ◌<◌, refl, sym, Option, none, some, List, [], ◌∷◌, map, ltb, inl, inr, ltb→lt, if_true,
  if_false, subst, ap, if◌then◌else◌, lt→ltb, Bool-cases, ◌↔◌, ◌⊎◌,
}
use uturn.Common.Bytes.{Bytes, Str}
use mathlib.Core.List.{Memᴰ}
use mathlib.Core.List.Memᴰ
use uturn.Config.{Config, is_after, static_password, candidate_passwords}
use uturn.Turn.Auth.{ephemeral_expiry, ephemeral_password}

-- A time-limited password: the username holds an expiry that is still to come, and the password is
-- derived from the username under one of the shared secrets.
pub record IsEphemeral (hmac_sha1 : Bytes → Bytes → Bytes) (base64 : Bytes → Str)
    (secrets : List Str) (username : Str) (now : ℕ) (stamp : Option ℕ) (password : Str)
    : Type 0 where
  pub expiry : ℕ
  pub names_expiry : stamp ≡ some expiry
  pub to_come : now < expiry
  pub secret : Str
  pub shared : Memᴰ secret secrets
  pub derived : password ≡ ephemeral_password hmac_sha1 base64 secret username

module _ (hmac_sha1 : Bytes → Bytes → Bytes) (base64 : Bytes → Str) (c : Config) (username : Str)
    (now : ℕ) (password : Str) where
  abbrev derive : Str → Str
  derive secret = ephemeral_password hmac_sha1 base64 secret username

  abbrev Among : Option Str → Option ℕ → Type 0
  Among static expiry = Memᴰ password (elim static [
    | some p ↦ p ∷ []
    | none ↦ if is_after expiry now then map derive c.auth_secrets else []
  ])

  -- The static password, or a time-limited one where there is none.
  abbrev pub MayUse : Option Str → Option ℕ → Type 0
  MayUse static expiry =
      (static ≡ some password)
      ⊎ ((static ≡ none) × IsEphemeral hmac_sha1 base64 c.auth_secrets username now expiry password)

  only_these :
      (static : Option Str) (expiry : Option ℕ) → Among static expiry → MayUse static expiry
  only_these (some p) expiry (Memᴰ.head e) = inl (ap some (sym e))
  only_these (some p) expiry (Memᴰ.tail m) = elim m [ ]
  only_these none none m = elim m [ ]
  only_these none (some expiry) m = elim (Bool-cases (ltb now expiry)) [
    | inr past ↦ absurd (Memᴰ.not-nil (subst (Memᴰ password) (if_false _ _ _ past) m))
    | inl due ↦
        let (secret, shared, derived) =
          Memᴰ.of_map derive c.auth_secrets (subst (Memᴰ password) (if_true _ _ _ due) m) in
        inr (
          refl,
          record {
            expiry = expiry;
            names_expiry = refl;
            to_come = ltb→lt now expiry due;
            secret = secret;
            shared = shared;
            derived = sym derived;
          },
        )
  ]

  all_these : (static : Option Str) (expiry : Option ℕ) → MayUse static expiry → Among static expiry
  all_these static expiry (inl e) = rw e (Memᴰ.head refl)
  all_these static expiry (inr (e, h)) =
      rw (e, h.names_expiry, lt→ltb now h.expiry h.to_come)
        (subst (λ p. Memᴰ p (map derive c.auth_secrets)) (sym h.derived) (Memᴰ.map derive h.shared))

-- The passwords that a username may be signed with are exactly these: its own, where it has a
-- static credential; else, where the username holds an expiry that is still to come, the ones
-- derived from it under the shared secrets.
pub candidate_passwords_iff :
    (hmac_sha1 : Bytes → Bytes → Bytes) (base64 : Bytes → Str) (c : Config) (username : Str)
    → (now : ℕ) (password : Str)
    → Memᴰ password (candidate_passwords hmac_sha1 base64 c username now)
      ↔ MayUse hmac_sha1 base64 c username now password
          (static_password c.credentials username)
          (ephemeral_expiry username)
unfolding candidate_passwords
candidate_passwords_iff hmac_sha1 base64 c username now password =
    let static = static_password c.credentials username in
    (
      only_these hmac_sha1 base64 c username now password static (ephemeral_expiry username),
      all_these hmac_sha1 base64 c username now password static (ephemeral_expiry username),
    )
