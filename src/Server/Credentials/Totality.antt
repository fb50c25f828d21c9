-- ===== src/Server/Credentials/Totality.antt =====
-- Checking the credentials of a parsed request returns.
use uturn.Common.{
  ℕ, ◌+◌, ◌≡◌, not, Option, none, some, arith, refl, leb, ◌=?◌, Run, done, IsDone, IsDone-done,
  IsDone->>=, IsDone-if, slice-IsDone, le→leb, if_true, panic, ◌-◌,
}
use uturn.Common.Bytes.{Bytes, Str}
use uturn.Addr.{SocketAddr, octets_key}
use uturn.Config.{is_nil, auth_enabled}
use uturn.Demux.Stun.{StunInfo}
use uturn.Demux.Stun.Shape.{IsParsed}
use uturn.Lookup.Allocation.{Allocation}
use uturn.Lookup.Table.{AllocationTable, get_by_client}
use uturn.Server.State.{Env, integrity}
use uturn.Server.Credentials.{
  Reply, ok, err, refuse, bad, stale, unauthorized, fresh_nonce, is_fresh, passwords_of, find_key,
  signed_part, answer_key, check_integrity, check_realm, check_nonce, check_user, check_presence,
  verify_long_term_credentials, authenticate, authenticate_for_allocation, resolve, resolve_found,
  key_of, belongs_to_another,
}
use uturn.Turn.Encode.{set_length}
use uturn.Turn.Message.{bad_request, allocation_mismatch}
use uturn.Turn.Totality.{
  build_error_response-IsDone, build_signed_error_response-IsDone,
  build_unauthorized_response-IsDone, build_stale_nonce_response-IsDone,
}

refuse-IsDone : {A : Type 0} (m : Run Bytes) → IsDone m → IsDone (refuse {A = A} m)
refuse-IsDone m h = IsDone->>= m _ h λ r _. IsDone-done _

module _ (env : Env) (msg : StunInfo) (parsed : IsParsed msg) where
  refuse-bad : {A : Type 0} → IsDone (refuse {A = A} (bad env msg))
  refuse-bad = refuse-IsDone _ (build_error_response-IsDone (integrity env) msg parsed bad_request)

  refuse-stale : {A : Type 0} → IsDone (refuse {A = A} (stale env msg))
  refuse-stale =
      refuse-IsDone _
        (build_stale_nonce_response-IsDone msg parsed env.config.realm (fresh_nonce env))

  refuse-unauthorized : {A : Type 0} → IsDone (refuse {A = A} (unauthorized env msg))
  refuse-unauthorized =
      refuse-IsDone _
        (build_unauthorized_response-IsDone msg parsed env.config.realm (fresh_nonce env))

  signed_part-IsDone :
      (o : ℕ) → msg.message_integrity_offset ≡ some o → IsDone (signed_part env msg o)
  unfolding signed_part
  signed_part-IsDone o at =
      IsDone->>= _ _ (slice-IsDone msg.raw 0 o (omega arith) (omega (arith, (parsed.span o at).1)))
        λ part _.
          rw
            (if_true (done (set_length part (o - 20 + 24))) panic (leb 20 o)
              (le→leb 20 o (parsed.span o at).0))
            (IsDone-done _)

  answer_key-IsDone : (u : Str) (o : Option Bytes) → IsDone (answer_key env msg u o)
  unfolding answer_key
  answer_key-IsDone u none = refuse-unauthorized
  answer_key-IsDone u (some key) = IsDone-done _

  check_integrity-IsDone :
      (u : Str) (i : Option Bytes) (o : Option ℕ)
      → msg.message_integrity_offset ≡ o
      → IsDone (check_integrity env msg u i o)
  unfolding check_integrity
  check_integrity-IsDone u none o at = refuse-bad
  check_integrity-IsDone u (some received) none at = refuse-bad
  check_integrity-IsDone u (some received) (some o) at =
      IsDone->>= _ _ (signed_part-IsDone o at)
        λ part _. answer_key-IsDone u (find_key env (passwords_of env u) u part received)

  check_realm-IsDone : (u : Str) (r : Option Str) → IsDone (check_realm env msg u r)
  unfolding check_realm
  check_realm-IsDone u none = refuse-unauthorized
  check_realm-IsDone u (some realm) =
      IsDone-if (not (realm =? env.config.realm)) _ _ (λ _. refuse-unauthorized)
        λ _.
          IsDone-if (is_nil (passwords_of env u)) _ _ (λ _. refuse-unauthorized)
            λ _. check_integrity-IsDone u msg.message_integrity msg.message_integrity_offset refl

  check_nonce-IsDone : (u : Str) (n : Option Str) → IsDone (check_nonce env msg u n)
  unfolding check_nonce
  check_nonce-IsDone u none = refuse-bad
  check_nonce-IsDone u (some nonce) =
      IsDone-if (not (is_fresh env nonce)) _ _ (λ _. refuse-stale)
        λ _. check_realm-IsDone u msg.realm

  check_user-IsDone : (u : Option Str) → IsDone (check_user env msg u)
  unfolding check_user
  check_user-IsDone none = refuse-bad
  check_user-IsDone (some u) = check_nonce-IsDone u msg.nonce

  check_presence-IsDone : (i : Option Bytes) → IsDone (check_presence env msg i)
  unfolding check_presence
  check_presence-IsDone none = refuse-unauthorized
  check_presence-IsDone (some _) = check_user-IsDone msg.username

  pub authenticate-IsDone : IsDone (authenticate env msg)
  unfolding authenticate verify_long_term_credentials
  authenticate-IsDone =
      IsDone-if (not (auth_enabled env.config)) _ _ (λ _. IsDone-done _)
        λ _. IsDone->>= _ _ (check_presence-IsDone msg.message_integrity) λ verdict _. ended verdict
    where
      ended :
          (verdict : Reply (Str × Bytes))
          → IsDone (elim verdict [
            | ok user ↦ done (ok (some user))
            | err response ↦ done (err response)
          ])
      ended (ok user) = IsDone-done _
      ended (err response) = IsDone-done _

  resolve_found-IsDone :
      (found : Option Allocation) (auth : Option (Str × Bytes))
      → IsDone (resolve_found env msg found auth)
  unfolding resolve_found
  resolve_found-IsDone none auth = refuse-IsDone _ (
      build_signed_error_response-IsDone (integrity env) msg parsed allocation_mismatch
        (key_of env auth))
  resolve_found-IsDone (some a) auth =
      IsDone-if (belongs_to_another env a auth) _ _ (λ _. refuse-unauthorized) λ _. IsDone-done _

  pub authenticate_for_allocation-IsDone :
      (t : AllocationTable) (src_addr : SocketAddr)
      → IsDone (authenticate_for_allocation env t msg src_addr)
  unfolding authenticate_for_allocation resolve
  authenticate_for_allocation-IsDone t src_addr =
      IsDone->>= _ _ authenticate-IsDone λ verdict _. ended verdict
    where
      ended :
          (verdict : Reply (Option (Str × Bytes)))
          → IsDone (elim verdict [
            | ok auth ↦ resolve env t msg src_addr auth
            | err response ↦ done (err response)
          ])
      ended (ok auth) = resolve_found-IsDone (get_by_client t src_addr) auth
      ended (err response) = IsDone-done _
