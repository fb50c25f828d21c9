-- ===== src/Startup/Tests.antt =====
-- The start of the server with concrete arguments.
use uturn.Common.{
  ◌↔◌, ◌≤◌, ◌≡◌, refl, inl, false, some, none, done, [], ◌∷◌, All, length, List, arith,
}
use uturn.Common.Bytes.{Str, ascii}
use uturn.Addr.{v4}
use mathlib.Core.List.{Memᴰ}
use uturn.Config.{Config, candidate_passwords, static_password}
use uturn.Config.Passwords.{MayUse, candidate_passwords_iff}
use uturn.Turn.Auth.{ephemeral_expiry}
use uturn.Server.Credentials as Credentials
use uturn.Server.Credentials.{authenticate}
use uturn.Server.Tests.{env_of, keyed}
use uturn.Server.Turn.Tests.{one_user, signed_request}
use uturn.Startup.{
  Args, started, missing_credentials, main, config_of, parse_auth_secrets, split_whitespace,
  parse_credential,
}
use uturn.Startup.Gate.{Knows, main-Knows}
use uturn.Startup.Secrets.{text}
use uturn.Startup.Written.{main-written}

-- Two secrets on two lines of one value, the first with a comma in it.
abbrev first : Str
first = ascii "aaaaaaaa,aaaaaaa"

abbrev second : Str
second = ascii "bbbbbbbbbbbbbbbb"

abbrev rotated : List (Str × Str)
rotated = (first, 10 ∷ []) ∷ (second, []) ∷ []

-- A wide space in UTF-8 separates as well.
wide_spaces :
    split_whitespace (97 ∷ 0xE2 ∷ 0x80 ∷ 0x83 ∷ 98 ∷ 0xC2 ∷ 0xA0 ∷ []) ≡ (97 ∷ []) ∷ (98 ∷ []) ∷ []
unfolding split_whitespace
wide_spaces = refl

short_secret : parse_auth_secrets (ascii "short" ∷ []) ≡ inl 5
unfolding parse_auth_secrets
short_secret = refl

colons_in_password : parse_credential (ascii "u:p:q") ≡ some (ascii "u", ascii "p:q")
unfolding parse_credential
colons_in_password = refl

no_colon : parse_credential (ascii "no colon") ≡ none
unfolding parse_credential
no_colon = refl

-- The arguments of a server with the one user `u`.
abbrev args : Args
args = record {
  port = one_user.port;
  external_ip = one_user.external_ip;
  realm = one_user.realm;
  user = ascii "u:p" ∷ [];
  static_auth_secret = text rotated ∷ [];
  max_allocations_per_ip = one_user.max_allocations_per_ip;
  rate_limit_per_minute = one_user.rate_limit_per_minute;
  nonce_lifetime_secs = one_user.nonce_lifetime_secs;
  allow_anonymous = false;
  max_permissions_per_alloc = one_user.max_permissions_per_alloc;
  max_channels_per_alloc = one_user.max_channels_per_alloc;
}

abbrev config : Config
config = record one_user { auth_secrets = first ∷ second ∷ [] }

starts : main args (1 ∷ 2 ∷ 3 ∷ []) ≡ started config
unfolding main parse_auth_secrets text uturn.Config.with_credential uturn.Config.new_config
starts = refl

not_open : main (record args { user = []; static_auth_secret = [] }) [] ≡ missing_credentials
unfolding main parse_auth_secrets
not_open = refl

accepted :
    authenticate (env_of config 1000) signed_request
    ≡ done (Credentials.ok (some (ascii "u", 7 ∷ [])))
unfolding authenticate uturn.Turn.Nonce.validate_nonce uturn.Config.auth_enabled
    uturn.Turn.Nonce.generate_nonce uturn.Turn.Nonce.hex_digit uturn.Config.with_credential
    uturn.Config.new_config uturn.Addr.Octets-discrete
accepted = refl

main-Knows_example :
    Knows (env_of config 1000) signed_request (some (ascii "u", 7 ∷ []))
    × All (λ s. 16 ≤ length s) (first ∷ second ∷ [])
main-Knows_example =
    main-Knows args (1 ∷ 2 ∷ 3 ∷ []) (env_of config 1000) signed_request (some (ascii "u", 7 ∷ []))
      starts refl accepted

main-written_example :
    main args (1 ∷ 2 ∷ 3 ∷ [])
    ≡ started (config_of args ((ascii "u", ascii "p") ∷ []) (first ∷ second ∷ []) (1 ∷ 2 ∷ 3 ∷ []))
main-written_example =
    main-written args (1 ∷ 2 ∷ 3 ∷ []) ((ascii "u", ascii "p") ∷ []) (rotated ∷ []) (ground arith)
      (ground arith) refl refl

candidate_passwords_iff_example :
    Memᴰ (65 ∷ []) (candidate_passwords keyed (λ message. 65 ∷ []) config (ascii "9:u") 5)
    ↔ MayUse keyed
        (λ message. 65 ∷ [])
        config
        (ascii "9:u")
        5
        (65 ∷ [])
        (static_password config.credentials (ascii "9:u"))
        (ephemeral_expiry (ascii "9:u"))
candidate_passwords_iff_example =
    candidate_passwords_iff keyed (λ message. 65 ∷ []) config (ascii "9:u") 5 (65 ∷ [])
