-- ===== src/Server/Turn/Tests.antt =====
-- Requests to a server with one user, for the theorems about credentials and answers.
use uturn.Common.{◌≡◌, refl, some, [], ◌∷◌, Run, done, panic, out_of_fuel, slice}
use uturn.Common.Bytes.{Bytes, ascii}
use uturn.Addr.{v4, SocketAddr}
use uturn.Config.{Config, new_config, with_credential}
use uturn.Demux.Stun.{StunInfo, allocate, refresh, no_attrs, request}
use uturn.Demux.Stun.Parse.{parse}
use uturn.Server.State.{Env, evaluate}
use uturn.Server.Credentials as Credentials
use uturn.Server.Credentials.{authenticate, verify_long_term_credentials, unauthorized, fresh_nonce}
use uturn.Server.Credentials.Completeness.{verify_long_term_credentials-accepts}
use uturn.Server.Credentials.Soundness.{Shows, verify_long_term_credentials-Shows}
use uturn.Server.Packets.{new_world}
use uturn.Server.Tests.{client, keyed, txn, env_of, anonymous, allocate_packet}
use uturn.Server.Turn.{handle_request}
use uturn.Server.Turn.Answered.{handle_request-answers}
use uturn.Server.Turn.Answers.{IsAnswer}
use uturn.Server.Turn.Refused.{SameState, handle_request-refused}
use uturn.Turn.Totality.{IsWhole}

-- One user, `u` with the password `p`.
abbrev pub one_user : Config
one_user = with_credential anonymous (ascii "u") (ascii "p")

abbrev pub env : Env
env = env_of one_user 1000

-- A Refresh request signed for that user: USERNAME, REALM, NONCE and the HMAC of the stand-in.
abbrev pub signed_request : StunInfo
signed_request = record {
  class = request;
  method = refresh;
  transaction_id = txn;
  attrs = record no_attrs {
    username = some (ascii "u");
    realm = some (ascii "uturn");
    nonce = some (fresh_nonce env);
    message_integrity = some (keyed [] []);
    message_integrity_offset = some 20;
  };
  raw = allocate_packet;
}

accepted :
    verify_long_term_credentials env signed_request ≡ done (Credentials.ok (ascii "u", 7 ∷ []))
unfolding verify_long_term_credentials uturn.Turn.Nonce.validate_nonce
    uturn.Turn.Nonce.generate_nonce uturn.Turn.Nonce.hex_digit with_credential new_config
    uturn.Addr.Octets-discrete
accepted = refl

verify_long_term_credentials-Shows_example : Shows env signed_request (ascii "u") (7 ∷ [])
verify_long_term_credentials-Shows_example =
    verify_long_term_credentials-Shows env signed_request (ascii "u") (7 ∷ []) accepted

verify_long_term_credentials-accepts_example :
    (k : Bytes) × ((verify_long_term_credentials env signed_request
        ≡ done (Credentials.ok (ascii "u", k)))
      × Shows env signed_request (ascii "u") k)
verify_long_term_credentials-accepts_example =
    verify_long_term_credentials-accepts env signed_request (ascii "u") (7 ∷ [])
      (verify_long_term_credentials-Shows env signed_request (ascii "u") (7 ∷ []) accepted)

-- An Allocate request as the parser reads it from 20 bytes.
abbrev pub plain_request : StunInfo
plain_request = record {
  class = request;
  method = allocate;
  transaction_id = txn;
  attrs = no_attrs;
  raw = allocate_packet;
}

parsed : parse allocate_packet ≡ done (some plain_request)
unfolding parse uturn.Demux.Stun.Header.class_of uturn.Demux.Stun.Header.class_bits slice
    uturn.Demux.Stun.Attributes.parse_attributes uturn.Demux.Stun.Header.method_of
    uturn.Demux.Stun.Header.method_bits
parsed = refl

external-IsWhole : IsWhole anonymous.external_ip
unfolding new_config
external-IsWhole = tt

handle_request-answers_example : IsAnswer client (new_world anonymous) (
    evaluate
      (env_of anonymous 1000)
      (handle_request (env_of anonymous 1000) allocate plain_request client)
      (new_world anonymous))
handle_request-answers_example =
    handle_request-answers (env_of anonymous 1000) allocate_packet plain_request client allocate tt
      parsed external-IsWhole tt (λ packet. refl) (new_world anonymous)

-- What the server with the one user says to a request without credentials.
abbrev challenge : Run Bytes → Bytes
challenge (done response) = response
challenge panic = []
challenge out_of_fuel = []

refused :
    authenticate env plain_request
    ≡ done (Credentials.err (challenge (unauthorized env plain_request)))
unfolding authenticate uturn.Config.auth_enabled with_credential new_config
    uturn.Turn.Responses.build_unauthorized_response
refused = refl

handle_request-refused_example :
    SameState
      (new_world one_user)
      (evaluate env (handle_request env allocate plain_request client) (new_world one_user)).0
handle_request-refused_example =
    handle_request-refused env plain_request client (challenge (unauthorized env plain_request))
      allocate tt refused (new_world one_user)

-- A Send indication from the client to a peer outside.
