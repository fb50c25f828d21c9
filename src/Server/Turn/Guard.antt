-- ===== src/Server/Turn/Guard.antt =====
-- src/turn/handler.rs: `match self.authenticate..(..) { Ok(v) => v, Err(response) => .. }`, the way in
-- which every request handler begins: an error is sent, and that is all.
use uturn.Common.{ℕ, Option}
use uturn.Common.Bytes.{Bytes}
use uturn.Addr.{SocketAddr}
use uturn.Demux.Stun.{StunInfo}
use uturn.Server.Credentials.{Reply, ok, err, authenticate_for_allocation}
use uturn.Server.State.{Env, Io, ◌>>=◌, reads, lift, send_to}

abbrev pub or_send : {A : Type 0} → SocketAddr → Reply A → (A → Io Unit) → Io Unit
or_send src_addr (ok a) go_on = go_on a
or_send src_addr (err response) go_on = send_to src_addr response

unfoldable pub authenticated : Env → StunInfo → SocketAddr → (ℕ → Option Bytes → Io Unit) → Io Unit
unfolding ◌>>=◌ lift authenticate_for_allocation
authenticated env msg src_addr go_on = do
  t ← reads (λ t. t)
  auth ← lift (authenticate_for_allocation env t msg src_addr)
  or_send src_addr auth (λ found. go_on found.0 found.1)
