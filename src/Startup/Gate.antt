-- ===== src/Startup/Gate.antt =====
-- What the server's start makes sure of: credentials that are there, and secrets that are long.
use uturn.Common.{
  ◌≤◌, ◌≡◌, refl, sym, ap, ◌∙◌, subst, inl, inr, Bool, true, false, not, Option, none, some, List,
  Run, done, Option-cases, if_false, >>=-value, length, All, arith, if◌then◌else◌,
}
use uturn.Common.Bytes.{Bytes, Str}
use uturn.Config.{Config, auth_enabled}
use uturn.Demux.Stun.{StunInfo}
use uturn.Server.Credentials as Credentials
use uturn.Server.Credentials.{authenticate, verify_long_term_credentials}
use uturn.Server.Credentials.Soundness.{Shows, verify_long_term_credentials-Shows}
use uturn.Server.State.{Env}
use uturn.Startup.{
  Args, Startup, started, secret_too_short, missing_credentials, main, gate, config_of,
  parse_credentials, split_all, parse_auth_secrets, find_short, check_secrets,
}
use uturn.Startup.Secrets.{find_short-All}

-- What a configuration has that the server starts with.
pub record IsGuarded (args : Args) (config : Config) : Type 0 where
  pub guarded : args.allow_anonymous ≡ false → auth_enabled config ≡ true
  pub long : All (λ s. 16 ≤ length s) config.auth_secrets

abbrev config_in : Config → Startup → Config
config_in other (started config) = config
config_in other (secret_too_short length) = other
config_in other missing_credentials = other

abbrev is_started : Startup → Bool
is_started (started config) = true
is_started (secret_too_short length) = false
is_started missing_credentials = false

passes :
    (closed : Bool) (made config : Config)
    → (if closed then missing_credentials else started made) ≡ started config
    → (closed ≡ false) × (made ≡ config)
passes true made config e = ground (arith, ap is_started e)
passes false made config e = (refl, ap (config_in config) e)

gate-IsGuarded :
    (args : Args) (credentials : List (Str × Str)) (nonce_secret : Bytes) (secrets : List Str)
    → (config : Config) → find_short secrets ≡ none
    → gate args credentials nonce_secret (inr secrets) ≡ started config
    → IsGuarded args config
unfolding gate config_of auth_enabled
gate-IsGuarded args credentials nonce_secret secrets config long e =
    let made = config_of args credentials secrets nonce_secret in
    let (open_, same) = passes _ made config e in
    subst (IsGuarded args) same
      (record { guarded = λ no. ground (arith, open_, no); long = find_short-All secrets long })

-- A server that starts has a way to tell its users apart, unless it was asked to be an open relay;
-- and each of its shared secrets has sixteen bytes at least.
main-IsGuarded :
    (args : Args) (nonce_secret : Bytes) (config : Config)
    → main args nonce_secret ≡ started config
    → IsGuarded args config
unfolding main parse_auth_secrets gate
main-IsGuarded args nonce_secret config e =
    let secrets = split_all args.static_auth_secret in
    let credentials = parse_credentials args.user in
    elim (Option-cases (find_short secrets)) [
      | inl long ↦
          gate-IsGuarded args credentials nonce_secret secrets config long
            (sym (ap (λ x. gate args credentials nonce_secret (check_secrets secrets x)) long) ∙ e)
      | inr (short, found) ↦ ground (
        arith,
        ap is_started (
            sym (ap (λ x. gate args credentials nonce_secret (check_secrets secrets x)) found) ∙ e),
      )
    ]

-- Who the request is from, and what it shows of that.
abbrev pub Knows : Env → StunInfo → Option (Str × Bytes) → Type 0
Knows env msg auth =
    (username : Str) × ((key : Bytes) × ((auth ≡ some (username, key))
        × Shows env msg username key))

module _ (env : Env) (msg : StunInfo) where
  verdict-Knows :
      (auth : Option (Str × Bytes)) (verdict : Credentials.Reply (Str × Bytes))
      → verify_long_term_credentials env msg ≡ done verdict
      → ◌≡◌ {A = Run (Credentials.Reply (Option (Str × Bytes)))}
          (elim verdict [
            | Credentials.ok user ↦ done (Credentials.ok (some user))
            | Credentials.err response ↦ done (Credentials.err response)
          ])
          (done (Credentials.ok auth))
      → Knows env msg auth
  verdict-Knows auth (Credentials.err response) verified e = absurd (cc e)
  verdict-Knows auth (Credentials.ok (username, key)) verified e =
      (username, (key, (cc e, verify_long_term_credentials-Shows env msg username key verified)))

  authenticate-Knows :
      (auth : Option (Str × Bytes))
      → auth_enabled env.config ≡ true
      → authenticate env msg ≡ done (Credentials.ok auth)
      → Knows env msg auth
  unfolding authenticate
  authenticate-Knows auth on e =
      let (verdict, verified, answer) =
        >>=-value (verify_long_term_credentials env msg) _ _
          (sym (if_false _ _ _ (ap not on)) ∙ e) in
      verdict-Knows auth verdict verified answer

-- A server that was not asked to be an open relay takes a request only from a user: with the
-- configuration that its start made of the arguments, whoever passes the authentication is
-- somebody, and has shown the credentials of that user; and no shared secret that passwords are
-- derived from is shorter than sixteen bytes.
pub main-Knows :
    (args : Args) (nonce_secret : Bytes) (env : Env) (msg : StunInfo)
    → (auth : Option (Str × Bytes)) → main args nonce_secret ≡ started env.config
    → args.allow_anonymous ≡ false
    → authenticate env msg ≡ done (Credentials.ok auth)
    → Knows env msg auth × All (λ s. 16 ≤ length s) env.config.auth_secrets
main-Knows args nonce_secret env msg auth starts closed e =
    let h = main-IsGuarded args nonce_secret env.config starts in
    (authenticate-Knows env msg auth (h.guarded closed) e, h.long)
