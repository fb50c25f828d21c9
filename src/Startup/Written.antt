-- ===== src/Startup/Written.antt =====
-- What is written on the command line is what the server is configured with.
use uturn.Common.{
  ◌≡◌, ◌≢◌, refl, ap, ◌∙◌, not, ◌&&◌, some, List, [], ◌∷◌, ◌++◌, map, All, arith, if◌then◌else◌,
}
use uturn.Common.Bytes.{Bytes, Str}
use uturn.Config.{is_nil}
use uturn.Startup.{
  Args, started, missing_credentials, main, gate, config_of, parse_credential, parse_credentials,
  parse_auth_secrets, colon,
}
use uturn.Startup.Secrets.{text, secrets_of, IsText, parse_auth_secrets-text}

-- A user and a password as `--user` has them. The password may hold colons, the name not.
abbrev pub pair : Str × Str → Str
pair (username, password) = username ++ (colon ∷ password)

abbrev pub IsPair : Str × Str → Type 0
IsPair (username, password) = All (λ c. c ≢ colon) username

parse_credential-pair : (c : Str × Str) → IsPair c → parse_credential (pair c) ≡ some c
unfolding parse_credential
parse_credential-pair ([], password) h = refl
parse_credential-pair (c ∷ username, password) (here, h) =
    ground (arith, here, parse_credential-pair (username, password) h)

parse_credentials-pair :
    (credentials : List (Str × Str))
    → All IsPair credentials
    → parse_credentials (map pair credentials) ≡ credentials
unfolding parse_credentials
parse_credentials-pair [] h = refl
parse_credentials-pair (c ∷ credentials) (here, h) =
    rw (parse_credential-pair c here, parse_credentials-pair credentials h) refl

-- With users written as `name:password`, where no name holds a colon, and secrets of printable
-- ASCII, at least sixteen bytes each, in any number of values and with any ASCII white space
-- between them, the server starts with exactly these credentials and secrets, in their order; only
-- when there are none of both and it was not asked to be an open relay it refuses.
pub main-written :
    (args : Args) (nonce_secret : Bytes) (credentials : List (Str × Str))
    → (values : List (List (Str × Str))) → All IsPair credentials
    → All IsText values
    → args.user ≡ map pair credentials
    → args.static_auth_secret ≡ map text values
    → main args nonce_secret ≡ (
        if is_nil credentials && (is_nil (secrets_of values) && not args.allow_anonymous)
        then missing_credentials
        else started (config_of args credentials (secrets_of values) nonce_secret))
unfolding main gate
main-written args nonce_secret credentials values pairs texts users secrets =
    ap
      (λ u.
        gate args (parse_credentials u) nonce_secret (parse_auth_secrets args.static_auth_secret))
      users
    ∙ ap (λ c. gate args c nonce_secret (parse_auth_secrets args.static_auth_secret))
        (parse_credentials-pair credentials pairs)
    ∙ ap (λ s. gate args credentials nonce_secret (parse_auth_secrets s)) secrets
    ∙ ap (gate args credentials nonce_secret) (parse_auth_secrets-text values texts)
