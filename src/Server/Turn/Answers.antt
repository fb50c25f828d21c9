-- ===== src/Server/Turn/Answers.antt =====
-- Programs that answer: exactly one datagram goes out, to the client, as the last thing done.
use uturn.Common.{
  ℕ, ◌≡◌, refl, Bool, true, false, Option, none, some, [], ◌∷◌, ◌++◌, if◌then◌else◌, Run, IsDone,
  IsDone-value, lookup,
}
use uturn.Common.Bytes.{Bytes}
use uturn.Addr.{IpAddr, SocketAddr, ip_key, socket_key, octets_key}
use uturn.Demux.Stun.{StunInfo}
use uturn.Demux.Stun.Shape.{IsParsed}
use uturn.Lookup.Table.Removal.{remove}
use uturn.Server.State.{
  Env, World, Io, Outcome, ok, pure, look, on_table, on_limiter, send, ◌>>=◌, ◌>>◌, lift, release,
  evaluate, integrity, limit, when, call_if, call_by_client,
}
use uturn.Server.Credentials as Credentials
use uturn.Server.Credentials.{Reply, authenticate, authenticate_for_allocation, key_of}
use uturn.Server.Credentials.Totality.{authenticate_for_allocation-IsDone}
use uturn.Lookup.Table.Steps.{Method}
use uturn.Server.Turn.Guard.{or_send, authenticated}
use uturn.Server.Turn.Allocate as Allocate
use uturn.Server.Turn.Requests as Requests
use uturn.Turn.Message.{TurnErrorCode}
use uturn.Lookup.RateLimit.Quota.{Call, deallocates}
use uturn.Turn.Totality.{build_signed_error_response-IsDone, build_success_response-IsDone}

-- Whatever it reads, the program sends one datagram to `addr`, as the last thing it does.
pub data Answers (addr : SocketAddr) : Io Unit → Type 0 where
  replies : (packet : Bytes) → Answers addr (send addr packet (pure tt))
  looks : (f : World → Io Unit) → ((w : World) → Answers addr (f w)) → Answers addr (look f)
  operates : (op : _) (m : Io Unit) → Answers addr m → Answers addr (on_table op m)
  limits : (c : _) (m : Io Unit) → Answers addr m → Answers addr (on_limiter c m)

abbrev pub IsAnswer : SocketAddr → World → World × Outcome Unit → Type 0
IsAnswer addr w r =
    (r.1 ≡ ok tt) × ((packet : Bytes) × (r.0.sent ≡ w.sent ++ ((addr, packet) ∷ [])))

pub evaluate-Answers :
    (env : Env) (addr : SocketAddr) (p : Io Unit)
    → ((packet : Bytes) → env.accepts addr packet ≡ true)
    → Answers addr p
    → (w : World) → IsAnswer addr w (evaluate env p w)
unfolding evaluate
evaluate-Answers env addr _ takes (replies packet) w =
    rw (takes packet, evaluate) (refl, (packet, refl))
evaluate-Answers env addr _ takes (looks f h) w = evaluate-Answers env addr (f w) takes (h w) w
evaluate-Answers env addr _ takes (operates op m h) w = evaluate-Answers env addr m takes h _
evaluate-Answers env addr _ takes (limits c m h) w = evaluate-Answers env addr m takes h _

pub lift-Answers :
    {A : Type 0} (addr : SocketAddr) (m : Run A) (k : A → Io Unit)
    → IsDone m
    → ((a : A) → Answers addr (k a))
    → Answers addr (lift m >>= k)
unfolding lift ◌>>=◌
lift-Answers addr m k h answers = let (a, e) = IsDone-value m h in rw e (answers a)

pub if-Answers :
    (addr : SocketAddr) (b : Bool) (m n : Io Unit)
    → Answers addr m
    → Answers addr n
    → Answers addr (if b then m else n)
if-Answers addr true m n hm hn = hm
if-Answers addr false m n hm hn = hn

module _ (env : Env) (src_addr : SocketAddr) where
  pub when-limit-Answers :
      (b : Bool) (c : Call) (m : Io Unit)
      → Answers src_addr m
      → Answers src_addr (when b (limit c) >> m)
  unfolding ◌>>=◌
  when-limit-Answers true c m h = limits _ _ h
  when-limit-Answers false c m h = h

  pub release-Answers :
      (id : ℕ) (ip : IpAddr) (m : Io Unit)
      → Answers src_addr m
      → Answers src_addr (release env id ip >> m)
  unfolding release ◌>>=◌
  release-Answers id ip m h =
      looks _ λ w.
        operates _ _ (when-limit-Answers (remove w.table id).1 (deallocates ip env.instant) m h)

  pub call_by_client-Answers :
      (addr : SocketAddr) (method : Method) (m : Io Unit)
      → Answers src_addr m
      → Answers src_addr (call_by_client addr method >> m)
  unfolding call_by_client ◌>>=◌
  call_by_client-Answers addr method m h = looks _ λ w. given (lookup addr w.table.by_client)
    where
      given : (o : Option ℕ) → Answers src_addr (call_if o method >>= λ _. m)
      given none = h
      given (some id) = operates _ _ h

  pub or_send-Answers :
      {A : Type 0} (r : Reply A) (go_on : A → Io Unit)
      → ((a : A) → Answers src_addr (go_on a))
      → Answers src_addr (or_send src_addr r go_on)
  or_send-Answers (Credentials.ok a) go_on h = h a
  or_send-Answers (Credentials.err response) go_on h = replies response

  module _ (msg : StunInfo) (parsed : IsParsed msg) where
    pub authenticated-Answers :
        (go_on : ℕ → Option Bytes → Io Unit)
        → ((id : ℕ) (key : Option Bytes) → Answers src_addr (go_on id key))
        → Answers src_addr (authenticated env msg src_addr go_on)
    unfolding authenticated ◌>>=◌
    authenticated-Answers go_on h = looks _ λ w.
        lift-Answers src_addr _ _
          (authenticate_for_allocation-IsDone env msg parsed w.table src_addr)
          λ auth. or_send-Answers auth _ λ found. h found.0 found.1

    pub reply_error-Answers :
        (error : TurnErrorCode) (key : Option Bytes)
        → Answers src_addr (Allocate.reply_error env msg src_addr error key)
    unfolding Allocate.reply_error
    reply_error-Answers error key =
        lift-Answers src_addr _ _
          (build_signed_error_response-IsDone (integrity env) msg parsed error key) replies

    pub reply_success-Answers :
        (key : Option Bytes) → Answers src_addr (Requests.reply_success env msg src_addr key)
    unfolding Requests.reply_success
    reply_success-Answers key =
        lift-Answers src_addr _ _ (build_success_response-IsDone (integrity env) msg parsed key)
          replies
