-- ===== src/OrigDest.antt =====
-- The original destination of a redirected connection, src/orig_dest: `get_original_dest` of Linux
-- and of macOS. What the kernel answers is an argument. A field that is kept in the byte order of
-- the network is its octets as they stand in memory. Here an address has the flow label and the
-- scope of IPv6 as well, since the program compares them; both are 0 for IPv4.
pub mod Linux
pub mod Macos
use trans_proxy.Base.{u16_limit, arith, ◌<◌, ◌≢◌, ◌⊎◌, inl, inr, refl}
use trans_proxy.Base.{
  ℕ, zero, suc, ◌+◌, ◌*◌, ◌/◌, ◌%◌, ◌≡◌, [], ◌∷◌, ◌++◌, Bytes, Run, ret, fail, ◌>>=◌, Option, none,
  some, true, false, Bool, take, replicate,
}
use native.Mathlib.Decide.{ℕ_discrete}
use trans_proxy.Net.{IpAddr, v4, v6, SocketAddr, SocketAddr-discrete}
use trans_proxy.Config.{strip_prefix}

pub record Endpoint : Type 0 where
  pub addr : SocketAddr
  pub flowinfo : ℕ
  pub scope_id : ℕ

unfoldable pub Endpoint-discrete : Discrete Endpoint
Endpoint-discrete = hlevel (ℕ_discrete, SocketAddr-discrete)

-- `to_be` of a 16-bit number, and `from_be`.
unfoldable pub to_be : ℕ → ℕ × ℕ
to_be n = (n / 256 % 256, n % 256)

unfoldable pub from_be : ℕ × ℕ → ℕ
from_be (high, low) = high * 256 + low

abbrev pub plain : SocketAddr → Endpoint
plain a = record { addr = a; flowinfo = 0; scope_id = 0 }

-- The end of both `get_original_dest`.
unfoldable pub not_listener : Endpoint → Endpoint → Run Endpoint
not_listener listen dest = elim (Endpoint-discrete dest listen) [ yes _ ↦ fail | no _ ↦ ret dest ]

pub from_be-to_be : (n : ℕ) → n < u16_limit → from_be (to_be n) ≡ n
unfolding from_be to_be
from_be-to_be n lt = omega arith

-- The outcome for a destination: an error where it is the listener itself.
abbrev pub Outcome : Endpoint → Endpoint → Run Endpoint → Type 0
Outcome listen dest r = ((dest ≡ listen) × (r ≡ fail)) ⊎ ((dest ≢ listen) × (r ≡ ret dest))

pub not_listener-Outcome : (listen dest : Endpoint) → Outcome listen dest (not_listener listen dest)
unfolding not_listener
not_listener-Outcome listen dest =
    elim (Endpoint-discrete dest listen)
      as (λ d. Outcome listen dest (elim d [ yes _ ↦ fail | no _ ↦ ret dest ])) [
        | yes same ↦ inl (same, refl)
        | no other ↦ inr (other, refl)
      ]
