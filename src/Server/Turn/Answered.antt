-- ===== src/Server/Turn/Answered.antt =====
-- Every request that a client may make of its allocation is answered.
use uturn.Common.{ℕ, ◌≡◌, true, not, ◌=?◌, Option, none, some, List, [], ◌∷◌, done}
use uturn.Common.Bytes.{Bytes, Str}
use uturn.Addr.{SocketAddr, ip_key, socket_key, octets_key}
use uturn.Config.{is_nil}
use uturn.Demux.Stun.{
  StunInfo, StunMethod, binding, send, data_method, unknown, allocate, refresh, create_permission,
  channel_bind,
}
use uturn.Demux.Stun.Parse.{parse}
use uturn.Demux.Stun.Shape.{IsParsed, parse-IsParsed}
use uturn.Lookup.Allocation.{Allocation, is_expired, remaining_lifetime}
use uturn.Lookup.RateLimit as RateLimit
use uturn.Lookup.RateLimit.{Verdict}
use uturn.Lookup.Table.{get}
use uturn.Server.State.{Env, World, ◌>>=◌, evaluate, integrity}
use uturn.Server.Credentials.Totality.{authenticate-IsDone}
use uturn.Server.Turn.{handle_request}
use uturn.Server.Turn.Allocate as Allocate
use uturn.Server.Turn.Requests as Requests
use uturn.Turn.Message.{
  bad_request, forbidden, allocation_mismatch, unsupported_transport, insufficient_capacity,
}
use uturn.Turn.Peers.{is_forbidden_peer_addr}
use uturn.Turn.Totality.{IsWhole, build_allocate_response-IsDone}
use uturn.Server.Turn.Answers.{
  Answers, replies, looks, operates, limits, IsAnswer, evaluate-Answers, lift-Answers, if-Answers,
  when-limit-Answers, release-Answers, call_by_client-Answers, or_send-Answers,
  authenticated-Answers, reply_error-Answers, reply_success-Answers,
}

module _ (env : Env) (src_addr : SocketAddr) (msg : StunInfo) (parsed : IsParsed msg) where
  refresh-Answers : Answers src_addr (Allocate.handle_refresh env msg src_addr)
  unfolding Allocate.handle_refresh Allocate.refresh_for ◌>>=◌
  refresh-Answers = authenticated-Answers env src_addr msg parsed _ λ id key.
      if-Answers src_addr _ _ _ (release-Answers env src_addr id src_addr.ip _ (replies _)) (
        call_by_client-Answers env src_addr src_addr _ _
          (call_by_client-Answers env src_addr src_addr _ _ (replies _)))

  create_permissions-Answers :
      (id : ℕ) (key : Option Bytes)
      → Answers src_addr (Requests.create_permissions env msg src_addr id key)
  unfolding Requests.create_permissions ◌>>=◌
  create_permissions-Answers id key =
      if-Answers src_addr (Requests.any_forbidden msg.xor_peer_addresses) _ _
        (reply_error-Answers env src_addr msg parsed forbidden key)
        (operates _ _ (
          looks _ λ w. operates _ _ (
            if-Answers src_addr _ _ _ (reply_success-Answers env src_addr msg parsed key)
              (reply_error-Answers env src_addr msg parsed insufficient_capacity key))))

  create_permission-Answers : Answers src_addr (Requests.handle_create_permission env msg src_addr)
  unfolding Requests.handle_create_permission
  create_permission-Answers =
      if-Answers src_addr (is_nil msg.xor_peer_addresses) _ _
        (reply_error-Answers env src_addr msg parsed bad_request none)
        (authenticated-Answers env src_addr msg parsed _ create_permissions-Answers)

  commit_to-Answers :
      (channel : ℕ) (peer_addr : SocketAddr) (id : ℕ) (key : Option Bytes)
      → (found : Option Allocation)
      → Answers src_addr (Requests.commit_to env msg src_addr channel peer_addr id key found)
  unfolding Requests.commit_to ◌>>=◌
  commit_to-Answers channel peer_addr id key none =
      reply_error-Answers env src_addr msg parsed allocation_mismatch key
  commit_to-Answers channel peer_addr id key (some _) =
      operates _ _ (operates _ _ (reply_success-Answers env src_addr msg parsed key))

  refuse_permission-Answers :
      (key : Option Bytes) (found : Option Allocation)
      → Answers src_addr (Requests.refuse_permission env msg src_addr key found)
  refuse_permission-Answers key none =
      reply_error-Answers env src_addr msg parsed allocation_mismatch key
  refuse_permission-Answers key (some _) =
      reply_error-Answers env src_addr msg parsed insufficient_capacity key

  on_bind-Answers :
      (channel : ℕ) (peer_addr : SocketAddr) (id : ℕ) (key : Option Bytes)
      → (verdict : Requests.Bind)
      → Answers src_addr (Requests.on_bind env msg src_addr channel peer_addr id key verdict)
  unfolding Requests.on_bind Requests.bind_admissible Requests.commit ◌>>=◌
  on_bind-Answers channel peer_addr id key Requests.bind_ok = looks _ λ w. operates _ _ (
      if-Answers src_addr _ _ _
        (looks _ λ v. commit_to-Answers channel peer_addr id key (get v.table id))
        (looks _ λ v. refuse_permission-Answers key (get v.table id)))
  on_bind-Answers channel peer_addr id key Requests.conflict =
      reply_error-Answers env src_addr msg parsed bad_request key
  on_bind-Answers channel peer_addr id key Requests.cap_exceeded =
      reply_error-Answers env src_addr msg parsed insufficient_capacity key
  on_bind-Answers channel peer_addr id key Requests.gone =
      reply_error-Answers env src_addr msg parsed allocation_mismatch key

  bind_for-Answers :
      (channel : ℕ) (peer_addr : SocketAddr) (id : ℕ) (key : Option Bytes)
      → Answers src_addr (Requests.bind_for env msg src_addr channel peer_addr id key)
  unfolding Requests.bind_for ◌>>=◌
  bind_for-Answers channel peer_addr id key =
      if-Answers src_addr (is_forbidden_peer_addr env.config peer_addr) _ _
        (reply_error-Answers env src_addr msg parsed forbidden key)
        (looks _ λ w. on_bind-Answers channel peer_addr id key _)

  channel_bind_with-Answers :
      (channel : Option ℕ) (peers : List SocketAddr)
      → Answers src_addr (Requests.channel_bind_with env msg src_addr channel peers)
  unfolding Requests.channel_bind_with
  channel_bind_with-Answers none peers =
      reply_error-Answers env src_addr msg parsed bad_request none
  channel_bind_with-Answers (some channel) [] =
      reply_error-Answers env src_addr msg parsed bad_request none
  channel_bind_with-Answers (some channel) (peer_addr ∷ _) =
      authenticated-Answers env src_addr msg parsed _ (bind_for-Answers channel peer_addr)

  module _ (ours : IsWhole env.config.external_ip) (theirs : IsWhole src_addr.ip) where
    reply_allocated-Answers :
        (lifetime : ℕ) (key : Option Bytes)
        → Answers src_addr (Allocate.reply_allocated env msg src_addr lifetime key)
    unfolding Allocate.reply_allocated
    reply_allocated-Answers lifetime key =
        lift-Answers src_addr _ _
          (build_allocate_response-IsDone (integrity env) msg parsed env.config src_addr lifetime
            key ours theirs)
          replies

    create_and_reply-Answers :
        (username : Str) (key : Option Bytes)
        → Answers src_addr (Allocate.create_and_reply env msg src_addr username key)
    unfolding Allocate.create_and_reply ◌>>=◌
    create_and_reply-Answers username key = looks _ λ w.
        operates _ _
          (when-limit-Answers env src_addr _ _ _ (looks _ λ v. reply_allocated-Answers _ key))

    on_verdict-Answers :
        (username : Str) (key : Option Bytes) (verdict : Verdict)
        → Answers src_addr (Allocate.on_verdict env msg src_addr username key verdict)
    on_verdict-Answers username key RateLimit.ok = create_and_reply-Answers username key
    on_verdict-Answers username key (RateLimit.err e) =
        reply_error-Answers env src_addr msg parsed (Allocate.error_code e) key

    admit-Answers :
        (username : Str) (key : Option Bytes)
        → Answers src_addr (Allocate.admit env msg src_addr username key)
    unfolding Allocate.admit ◌>>=◌
    admit-Answers username key =
        if-Answers src_addr (not (Allocate.transport_ok msg.requested_transport)) _ _
          (reply_error-Answers env src_addr msg parsed unsupported_transport key)
          (looks _ λ w. limits _ _ (on_verdict-Answers username key _))

    on_existing-Answers :
        (username : Str) (key : Option Bytes) (existing : Option Allocation)
        → Answers src_addr (Allocate.on_existing env msg src_addr username key existing)
    unfolding Allocate.on_existing
    on_existing-Answers username key none = admit-Answers username key
    on_existing-Answers username key (some a) =
        if-Answers src_addr (is_expired env.now a) _ _
          (release-Answers env src_addr a.id src_addr.ip _ (admit-Answers username key))
          (if-Answers src_addr (a.allocate_txn_id =? msg.transaction_id) _ _
            (reply_allocated-Answers (remaining_lifetime env.now a) key)
            (reply_error-Answers env src_addr msg parsed allocation_mismatch key))

    allocate-Answers : Answers src_addr (Allocate.handle_allocate env msg src_addr)
    unfolding Allocate.handle_allocate Allocate.allocate ◌>>=◌
    allocate-Answers =
        lift-Answers src_addr _ _ (authenticate-IsDone env msg parsed)
          λ auth. or_send-Answers env src_addr auth _ λ user. looks _ λ w. on_existing-Answers _ _ _

-- The requests about allocations.
abbrev pub IsAllocationRequest : StunMethod → Type 0
IsAllocationRequest allocate = Unit
IsAllocationRequest refresh = Unit
IsAllocationRequest create_permission = Unit
IsAllocationRequest channel_bind = Unit
IsAllocationRequest method = ⊥

-- Every Allocate, Refresh, CreatePermission and ChannelBind request that the parser took is
-- answered, whatever it says and whatever the state: nothing panics, and exactly one datagram goes
-- out, to the client that asked, where the socket takes datagrams for it and IPv6 addresses have
-- sixteen octets.
pub handle_request-answers :
    (env : Env) (bytes : Bytes) (msg : StunInfo) (src_addr : SocketAddr) (method : StunMethod)
    → IsAllocationRequest method
    → parse bytes ≡ done (some msg)
    → IsWhole env.config.external_ip
    → IsWhole src_addr.ip
    → ((packet : Bytes) → env.accepts src_addr packet ≡ true)
    → (w : World) → IsAnswer src_addr w (evaluate env (handle_request env method msg src_addr) w)
unfolding handle_request Requests.handle_channel_bind
handle_request-answers env bytes msg src_addr allocate r p ours theirs takes w =
    evaluate-Answers env src_addr _ takes
      (allocate-Answers env src_addr msg (parse-IsParsed bytes msg p) ours theirs) w
handle_request-answers env bytes msg src_addr refresh r p ours theirs takes w =
    evaluate-Answers env src_addr _ takes
      (refresh-Answers env src_addr msg (parse-IsParsed bytes msg p)) w
handle_request-answers env bytes msg src_addr create_permission r p ours theirs takes w =
    evaluate-Answers env src_addr _ takes
      (create_permission-Answers env src_addr msg (parse-IsParsed bytes msg p)) w
handle_request-answers env bytes msg src_addr channel_bind r p ours theirs takes w =
    evaluate-Answers env src_addr _ takes
      (channel_bind_with-Answers env src_addr msg (parse-IsParsed bytes msg p) _ _) w
handle_request-answers env bytes msg src_addr binding r p ours theirs takes w = absurd r
handle_request-answers env bytes msg src_addr send r p ours theirs takes w = absurd r
handle_request-answers env bytes msg src_addr data_method r p ours theirs takes w = absurd r
handle_request-answers env bytes msg src_addr (unknown _) r p ours theirs takes w = absurd r
