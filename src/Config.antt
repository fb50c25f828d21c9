-- ===== src/Config.antt =====
-- src/config.rs: the configuration and the passwords that a username may be signed with. Reading
-- the environment and the command line is input.
pub mod Passwords
use uturn.Common.{
  ℕ, Bool, true, false, not, ◌||◌, Option, none, some, List, [], ◌∷◌, ◌++◌, map, ltb, ◌=?◌,
  if◌then◌else◌,
}
use uturn.Common.Bytes.{Bytes, Str, ascii}
use uturn.Addr.{IpAddr, octets_key}
use uturn.Turn.Auth.{ephemeral_expiry, ephemeral_password}

pub record Config : Type 0 where
  pub port : ℕ
  pub external_ip : IpAddr
  pub realm : Str
  pub credentials : List (Str × Str)
  pub auth_secrets : List Str
  pub max_allocations_per_ip : ℕ
  pub rate_limit_per_minute : ℕ
  pub nonce_lifetime_secs : ℕ
  pub nonce_secret : Bytes
  pub allow_anonymous : Bool
  pub max_permissions_per_alloc : ℕ
  pub max_channels_per_alloc : ℕ

-- `Config::new`, with the random secret as an argument
unfoldable pub new_config : IpAddr → Bytes → Config
new_config external_ip nonce_secret = record {
  port = 3478;
  external_ip = external_ip;
  realm = ascii "uturn";
  credentials = [];
  auth_secrets = [];
  max_allocations_per_ip = 200;
  rate_limit_per_minute = 30;
  nonce_lifetime_secs = 3600;
  nonce_secret = nonce_secret;
  allow_anonymous = false;
  max_permissions_per_alloc = 64;
  max_channels_per_alloc = 128;
}

unfoldable pub with_port : Config → ℕ → Config
with_port c port = record c { port = port }

unfoldable pub with_realm : Config → Str → Config
with_realm c realm = record c { realm = realm }

unfoldable pub with_credential : Config → Str → Str → Config
with_credential c username password = record c {
  credentials = c.credentials ++ ((username, password) ∷ []);
}

unfoldable pub with_auth_secret : Config → Str → Config
with_auth_secret c secret = record c { auth_secrets = c.auth_secrets ++ (secret ∷ []) }

abbrev pub is_nil {ℓ} : {A : Type ℓ} → List A → Bool
is_nil [] = true
is_nil (_ ∷ _) = false

unfoldable pub auth_enabled : Config → Bool
auth_enabled c = not (is_nil c.credentials) || not (is_nil c.auth_secrets)

-- `credentials.iter().find(|(u, _)| u == username)`
unfoldable pub static_password : List (Str × Str) → Str → Option Str
static_password [] username = none
static_password ((u, p) ∷ credentials) username =
    if u =? username then some p else static_password credentials username

-- `expiry > now`, where there is one
abbrev pub is_after : Option ℕ → ℕ → Bool
is_after none now = false
is_after (some expiry) now = ltb now expiry

unfoldable pub candidate_passwords :
    (Bytes → Bytes → Bytes) → (Bytes → Str) → Config → Str → ℕ → List Str
unfolding static_password
candidate_passwords hmac_sha1 base64 c username now =
    elim (static_password c.credentials username) [
      | some p ↦ p ∷ []
      | none ↦
          if is_after (ephemeral_expiry username) now
          then map (λ secret. ephemeral_password hmac_sha1 base64 secret username) c.auth_secrets
          else []
    ]
