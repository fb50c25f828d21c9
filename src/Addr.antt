-- ===== src/Addr.antt =====
-- `std::net`'s `IpAddr` and `SocketAddr`, by octets.
use uturn.Common.{ℕ, List, Key, ℕ_discrete}

pub data IpAddr : Type 0 where
  v4 : ℕ → ℕ → ℕ → ℕ → IpAddr
  -- The sixteen octets.
  v6 : List ℕ → IpAddr

pub record SocketAddr : Type 0 where
  pub ip : IpAddr
  pub port : ℕ

unfoldable pub Octets-discrete : Discrete (List ℕ)
unfolding ℕ_discrete
Octets-discrete = hlevel ℕ_discrete

unfoldable pub IpAddr-discrete : Discrete IpAddr
unfolding ℕ_discrete
IpAddr-discrete = hlevel ℕ_discrete

unfoldable pub SocketAddr-discrete : Discrete SocketAddr
unfolding IpAddr-discrete
SocketAddr-discrete = hlevel (ℕ_discrete, IpAddr-discrete)

instance abbrev pub octets_key : Key (List ℕ)
octets_key = record { dec = Octets-discrete }

instance abbrev pub ip_key : Key IpAddr
ip_key = record { dec = IpAddr-discrete }

instance abbrev pub socket_key : Key SocketAddr
socket_key = record { dec = SocketAddr-discrete }
