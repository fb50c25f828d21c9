-- ===== src/Server/Credentials.antt =====
-- src/turn/handler.rs: the two checks of a request's credentials. `Err` is the response to send.
pub mod Soundness
pub mod Completeness
pub mod Totality
use uturn.Common.{
  ℕ, ◌+◌, ◌-◌, Bool, true, false, not, Option, none, some, List, [], ◌∷◌, map, ◌=?◌, slice,
  if◌then◌else◌, Run, done, ◌>>=◌, leb, panic,
}
use uturn.Common.Bytes.{Bytes, Str}
use uturn.Addr.{SocketAddr, octets_key}
use uturn.Config.{is_nil, auth_enabled, candidate_passwords}
use uturn.Demux.Stun.{StunInfo}
use uturn.Lookup.Allocation.{Allocation}
use uturn.Lookup.Table.{AllocationTable, get_by_client}
use uturn.Server.State.{Env}
use uturn.Turn.Auth.{compute_key, verify_message_integrity}
use uturn.Turn.Encode.{set_length}
use uturn.Turn.Message.{bad_request, allocation_mismatch}
use uturn.Turn.Nonce.{generate_nonce, validate_nonce}
use uturn.Turn.Responses.{
  build_error_response, build_signed_error_response, build_unauthorized_response,
  build_stale_nonce_response,
}
use uturn.Server.State.{integrity}

-- `Result<A, Vec<u8>>`
pub data Reply (A : Type 0) : Type 0 where
  ok : A → Reply A
  err : Bytes → Reply A

-- `return Err(..)`
abbrev pub refuse : {A : Type 0} → Run Bytes → Run (Reply A)
refuse m = do response ← m; done (err response)

module _ (env : Env) where
  abbrev pub fresh_nonce : Str
  fresh_nonce = generate_nonce env.hmac_sha1 env.unix_secs env.config.nonce_secret

  abbrev pub unauthorized : StunInfo → Run Bytes
  unauthorized msg = build_unauthorized_response msg env.config.realm fresh_nonce

  abbrev pub stale : StunInfo → Run Bytes
  stale msg = build_stale_nonce_response msg env.config.realm fresh_nonce

  abbrev pub bad : StunInfo → Run Bytes
  bad msg = build_error_response (integrity env) msg bad_request

  abbrev pub is_fresh : Str → Bool
  is_fresh nonce =
      validate_nonce env.hmac_sha1 env.unix_secs nonce env.config.nonce_lifetime_secs
        env.config.nonce_secret

  abbrev pub passwords_of : Str → List Str
  passwords_of username =
      candidate_passwords env.hmac_sha1 env.base64 env.config username env.unix_secs

  -- `passwords.iter().map(compute_key).find(verify)`
  unfoldable pub find_key : List Str → Str → Bytes → Bytes → Option Bytes
  unfolding verify_message_integrity compute_key
  find_key [] username msg_for_hmac received = none
  find_key (password ∷ passwords) username msg_for_hmac received =
      let key = compute_key env.md5 username env.config.realm password in
      let rest = find_key passwords username msg_for_hmac received in
      if verify_message_integrity env.hmac_sha1 msg_for_hmac received key then some key else rest

  -- The message up to MESSAGE-INTEGRITY, its length set to end behind that attribute. An offset
  -- below 20 is an overflow of the `usize`.
  unfoldable pub signed_part : StunInfo → ℕ → Run Bytes
  unfolding set_length slice
  signed_part msg offset = do
    part ← slice msg.raw 0 offset
    if leb 20 offset then done (set_length part (offset - 20 + 24)) else panic

  unfoldable pub answer_key : StunInfo → Str → Option Bytes → Run (Reply (Str × Bytes))
  answer_key msg username (some key) = done (ok (username, key))
  answer_key msg username none = refuse (unauthorized msg)

  -- The attribute and its offset
  unfoldable pub check_integrity :
      StunInfo → Str → Option Bytes → Option ℕ → Run (Reply (Str × Bytes))
  unfolding find_key signed_part answer_key
  check_integrity msg username none offset = refuse (bad msg)
  check_integrity msg username (some received) none = refuse (bad msg)
  check_integrity msg username (some received) (some offset) = do
    msg_for_hmac ← signed_part msg offset
    answer_key msg username (find_key (passwords_of username) username msg_for_hmac received)

  unfoldable pub check_realm : StunInfo → Str → Option Str → Run (Reply (Str × Bytes))
  unfolding check_integrity candidate_passwords
  check_realm msg username none = refuse (unauthorized msg)
  check_realm msg username (some realm) =
      if not (realm =? env.config.realm)
      then refuse (unauthorized msg)
      else if is_nil (passwords_of username)
      then refuse (unauthorized msg)
      else check_integrity msg username msg.message_integrity msg.message_integrity_offset

  unfoldable pub check_nonce : StunInfo → Str → Option Str → Run (Reply (Str × Bytes))
  unfolding check_realm
  check_nonce msg username none = refuse (bad msg)
  check_nonce msg username (some nonce) =
      if not (is_fresh nonce) then refuse (stale msg) else check_realm msg username msg.realm

  unfoldable pub check_user : StunInfo → Option Str → Run (Reply (Str × Bytes))
  unfolding check_nonce
  check_user msg none = refuse (bad msg)
  check_user msg (some username) = check_nonce msg username msg.nonce

  unfoldable pub check_presence : StunInfo → Option Bytes → Run (Reply (Str × Bytes))
  unfolding check_user
  check_presence msg none = refuse (unauthorized msg)
  check_presence msg (some _) = check_user msg msg.username

  unfoldable pub verify_long_term_credentials : StunInfo → Run (Reply (Str × Bytes))
  unfolding check_presence
  verify_long_term_credentials msg = check_presence msg msg.message_integrity

  -- `auth`: nobody, where authentication is off
  unfoldable pub authenticate : StunInfo → Run (Reply (Option (Str × Bytes)))
  unfolding verify_long_term_credentials
  authenticate msg = if not (auth_enabled env.config) then done (ok none) else do
    verdict ← verify_long_term_credentials msg
    elim verdict [ ok user ↦ done (ok (some user)) | err response ↦ done (err response) ]

  abbrev pub key_of : Option (Str × Bytes) → Option Bytes
  key_of none = none
  key_of (some (_, key)) = some key

  -- `Some((username, _)) if allocated_to != *username`
  abbrev pub belongs_to_another : Allocation → Option (Str × Bytes) → Bool
  belongs_to_another a none = false
  belongs_to_another a (some (username, _)) = not (a.username =? username)

  unfoldable pub resolve_found :
      StunInfo → Option Allocation → Option (Str × Bytes) → Run (Reply (ℕ × Option Bytes))
  resolve_found msg none auth =
      refuse (build_signed_error_response (integrity env) msg allocation_mismatch (key_of auth))
  resolve_found msg (some a) auth =
      if belongs_to_another a auth then refuse (unauthorized msg) else done (ok (a.id, key_of auth))

  unfoldable pub resolve :
      AllocationTable
      → StunInfo
      → SocketAddr
      → Option (Str × Bytes)
      → Run (Reply (ℕ × Option Bytes))
  unfolding get_by_client resolve_found
  resolve t msg src_addr auth = resolve_found msg (get_by_client t src_addr) auth

  unfoldable pub authenticate_for_allocation :
      AllocationTable → StunInfo → SocketAddr → Run (Reply (ℕ × Option Bytes))
  unfolding authenticate resolve
  authenticate_for_allocation t msg src_addr = do
    verdict ← authenticate msg
    elim verdict [ ok auth ↦ resolve t msg src_addr auth | err response ↦ done (err response) ]
