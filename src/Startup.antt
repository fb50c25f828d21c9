-- ===== src/Startup.antt =====
-- src/main.rs: from the command line to the configuration of the server. What clap makes of the
-- arguments and the environment is the record `Args`; the log level, the socket and the signals are
-- not modelled.
pub mod Secrets
pub mod Written
pub mod Gate
pub mod Tests
use uturn.Common.{
  ℕ, zero, suc, Bool, true, false, not, ◌&&◌, ◌||◌, ◌⊎◌, inl, inr, Option, none, some, List, [],
  ◌∷◌, ◌++◌, length, ltb, leb, ◌==◌, if◌then◌else◌,
}
use uturn.Common.Bytes.{Bytes, Str}
use uturn.Addr.{IpAddr}
use uturn.Config.{Config, is_nil}

pub record Args : Type 0 where
  pub port : ℕ
  pub external_ip : IpAddr
  pub realm : Str
  pub user : List Str
  pub static_auth_secret : List Str
  pub max_allocations_per_ip : ℕ
  pub rate_limit_per_minute : ℕ
  pub nonce_lifetime_secs : ℕ
  pub allow_anonymous : Bool
  pub max_permissions_per_alloc : ℕ
  pub max_channels_per_alloc : ℕ

abbrev pub colon : ℕ
colon = 58

abbrev push : ℕ → Option (Str × Str) → Option (Str × Str)
push c none = none
push c (some (username, password)) = some (c ∷ username, password)

-- `splitn(2, ':')`, where it gives two parts
unfoldable pub parse_credential : Str → Option (Str × Str)
parse_credential [] = none
parse_credential (c ∷ s) =
    let rest = parse_credential s in if c == colon then some ([], s) else push c rest

abbrev keep_some : Option (Str × Str) → List (Str × Str) → List (Str × Str)
keep_some none rest = rest
keep_some (some credential) rest = credential ∷ rest

unfoldable pub parse_credentials : List Str → List (Str × Str)
unfolding parse_credential
parse_credentials [] = []
parse_credentials (s ∷ users) = keep_some (parse_credential s) (parse_credentials users)

-- `char::is_whitespace` on the UTF-8 bytes of a character: one byte, two or three.
abbrev pub is_ascii_space : ℕ → Bool
is_ascii_space a = (leb 9 a && leb a 13) || a == 32

abbrev is_latin_space : ℕ → ℕ → Bool
is_latin_space a b = a == 0xC2 && (b == 0x85 || b == 0xA0)

abbrev is_wide_space : ℕ → ℕ → ℕ → Bool
is_wide_space a b c =
    (a == 0xE1 && (b == 0x9A && c == 0x80))
    || ((a == 0xE2
          && ((b == 0x80 && ((leb 0x80 c && leb c 0x8A) || (c == 0xA8 || (c == 0xA9 || c == 0xAF))))
              || (b == 0x81 && c == 0x9F)))
        || (a == 0xE3 && (b == 0x80 && c == 0x80)))

abbrev wide_width : ℕ → Str → ℕ
wide_width a [] = 0
wide_width a (b ∷ []) = if is_latin_space a b then 2 else 0
wide_width a (b ∷ c ∷ _) = if is_latin_space a b then 2 else if is_wide_space a b c then 3 else 0

-- How many bytes the character takes if it is white space; 0 if it is not.
unfoldable pub space_width : ℕ → Str → ℕ
space_width a rest = if is_ascii_space a then 1 else wide_width a rest

abbrev pub keep_word : Str → List Str → List Str
keep_word [] words = words
keep_word (b ∷ word) words = (b ∷ word) ∷ words

-- The word that goes on at the head, and the words behind it. The first argument is the bytes that
-- are left of a white-space character.
unfoldable pub words_from : ℕ → Str → Str × List Str
unfolding space_width
words_from skip [] = ([], [])
words_from (suc k) (b ∷ s) = words_from k s
words_from zero (b ∷ s) = elim (space_width b s) [
  | zero ↦ let (word, words) = words_from 0 s in (b ∷ word, words)
  | suc k ↦ let (word, words) = words_from k s in ([], keep_word word words)
]

unfoldable pub split_whitespace : Str → List Str
unfolding words_from
split_whitespace s = let (word, words) = words_from 0 s in keep_word word words

-- `values.iter().flat_map(|v| v.split_whitespace())`
unfoldable pub split_all : List Str → List Str
unfolding split_whitespace
split_all [] = []
split_all (v ∷ values) = split_whitespace v ++ split_all values

abbrev pub min_auth_secret_len : ℕ
min_auth_secret_len = 16

-- `secrets.iter().find(|s| s.len() < MIN_AUTH_SECRET_LEN)`
unfoldable pub find_short : List Str → Option Str
find_short [] = none
find_short (s ∷ secrets) = if ltb (length s) min_auth_secret_len then some s else find_short secrets

abbrev pub check_secrets : List Str → Option Str → ℕ ⊎ List Str
check_secrets secrets (some short) = inl (length short)
check_secrets secrets none = inr secrets

-- The secrets, or the length of one that is too short
unfoldable pub parse_auth_secrets : List Str → ℕ ⊎ List Str
unfolding split_all find_short
parse_auth_secrets values =
    let secrets = split_all values in check_secrets secrets (find_short secrets)

pub data Startup : Type 0 where
  started : Config → Startup
  secret_too_short : ℕ → Startup
  missing_credentials : Startup

unfoldable pub config_of : Args → List (Str × Str) → List Str → Bytes → Config
config_of args credentials auth_secrets nonce_secret = record {
  port = args.port;
  external_ip = args.external_ip;
  realm = args.realm;
  credentials = credentials;
  auth_secrets = auth_secrets;
  max_allocations_per_ip = args.max_allocations_per_ip;
  rate_limit_per_minute = args.rate_limit_per_minute;
  nonce_lifetime_secs = args.nonce_lifetime_secs;
  nonce_secret = nonce_secret;
  allow_anonymous = args.allow_anonymous;
  max_permissions_per_alloc = args.max_permissions_per_alloc;
  max_channels_per_alloc = args.max_channels_per_alloc;
}

unfoldable pub gate : Args → List (Str × Str) → Bytes → ℕ ⊎ List Str → Startup
unfolding config_of
gate args credentials nonce_secret (inl length) = secret_too_short length
gate args credentials nonce_secret (inr auth_secrets) =
    if is_nil credentials && (is_nil auth_secrets && not args.allow_anonymous)
    then missing_credentials
    else started (config_of args credentials auth_secrets nonce_secret)

-- `main`, up to `Server::new(config)`
unfoldable pub main : Args → Bytes → Startup
unfolding parse_credentials parse_auth_secrets gate
main args nonce_secret =
    gate args (parse_credentials args.user) nonce_secret
      (parse_auth_secrets args.static_auth_secret)
