-- ===== src/Net.antt =====
-- Addresses, as `std::net` has them: octets are bytes, and a port is a 16-bit number.
pub mod Wire
use trans_proxy.Base.{ℕ, Bytes}
use native.Mathlib.Decide.{ℕ_discrete}

pub data IpAddr : Type 0 where
  v4 : ℕ → ℕ → ℕ → ℕ → IpAddr
  v6 : Bytes → IpAddr

unfoldable pub IpAddr-discrete : Discrete IpAddr
IpAddr-discrete = hlevel ℕ_discrete

pub record SocketAddr : Type 0 where
  pub ip : IpAddr
  pub port : ℕ

unfoldable pub SocketAddr-discrete : Discrete SocketAddr
SocketAddr-discrete = hlevel (ℕ_discrete, IpAddr-discrete)
