-- ===== src/OrigDest/Linux.antt =====
-- `get_original_dest` of src/orig_dest/linux.rs.
use trans_proxy.Base.{
  ℕ, ◌<◌, ◌≡◌, refl, [], ◌∷◌, ◌++◌, Bytes, Run, ret, fail, ◌>>=◌, Option, none, some, true, false,
  Bool, replicate, if◌then◌else◌,
}
use trans_proxy.Net.{IpAddr, v4, v6, SocketAddr}
use trans_proxy.Config.{strip_prefix}
use trans_proxy.OrigDest.{
  Endpoint, to_be, from_be, plain, not_listener, Outcome, from_be-to_be, not_listener-Outcome,
}
use trans_proxy.Base.{u16_limit}

pub record SockaddrIn : Type 0 where
  pub sin_port : ℕ × ℕ
  pub sin_addr : ℕ × (ℕ × (ℕ × ℕ))

pub record SockaddrIn6 : Type 0 where
  pub sin6_port : ℕ × ℕ
  pub sin6_flowinfo : ℕ
  pub sin6_addr : Bytes
  pub sin6_scope_id : ℕ

-- What `getsockopt` answers for SO_ORIGINAL_DST and for IP6T_SO_ORIGINAL_DST.
pub record SocketOptions : Type 0 where
  pub original_dst : Option SockaddrIn
  pub original_dst_v6 : Option SockaddrIn6

unfoldable pub get_original_dest_v4 : SocketOptions → Run Endpoint
get_original_dest_v4 kernel = elim kernel.original_dst [
  | none ↦ fail
  | some s ↦
      let (a, (b, (c, d))) = s.sin_addr in
      ret (plain (record { ip = v4 a b c d; port = from_be s.sin_port }))
]

unfoldable pub get_original_dest_v6 : SocketOptions → Run Endpoint
get_original_dest_v6 kernel = elim kernel.original_dst_v6 [
  | none ↦ fail
  | some s ↦ ret (record {
    addr = record { ip = v6 s.sin6_addr; port = from_be s.sin6_port };
    flowinfo = s.sin6_flowinfo;
    scope_id = s.sin6_scope_id;
  })
]

-- `v6.ip().to_ipv4_mapped().is_some()`.
unfoldable pub is_v4_mapped : IpAddr → Bool
is_v4_mapped (v4 _ _ _ _) = false
is_v4_mapped (v6 os) = elim (strip_prefix (replicate 10 0 ++ 255 ∷ 255 ∷ []) os) [
  | none ↦ false
  | some _ ↦ true
]

unfoldable pub by_family : SocketOptions → IpAddr → Run Endpoint
by_family kernel (v4 _ _ _ _) = get_original_dest_v4 kernel
by_family kernel (v6 _) = get_original_dest_v6 kernel

unfoldable pub get_original_dest : SocketOptions → SocketAddr → Endpoint → Run Endpoint
get_original_dest kernel local listen = do
  dest ← if is_v4_mapped local.ip then get_original_dest_v4 kernel else by_family kernel local.ip
  not_listener listen dest

-- What the kernel has recorded of a connection that reaches the listener at the given local address.
pub data Recorded (kernel : SocketOptions) : IpAddr → Endpoint → Type 0 where
  over_v4 :
      (l₀ l₁ l₂ l₃ a b c d port : ℕ)
      → port < u16_limit
      → kernel.original_dst ≡ some (record { sin_port = to_be port; sin_addr = (a, (b, (c, d))) })
      → Recorded kernel (v4 l₀ l₁ l₂ l₃) (plain (record { ip = v4 a b c d; port = port }))
  over_mapped :
      (local : Bytes) (a b c d port : ℕ)
      → port < u16_limit
      → kernel.original_dst ≡ some (record { sin_port = to_be port; sin_addr = (a, (b, (c, d))) })
      → Recorded kernel
          (v6 (replicate 10 0 ++ 255 ∷ 255 ∷ local))
          (plain (record { ip = v4 a b c d; port = port }))
  over_v6 :
      (local os : Bytes) (port flow scope : ℕ)
      → is_v4_mapped (v6 local) ≡ false
      → port < u16_limit
      → kernel.original_dst_v6
        ≡ some (record {
          sin6_port = to_be port;
          sin6_flowinfo = flow;
          sin6_addr = os;
          sin6_scope_id = scope;
        })
      → Recorded kernel
          (v6 local)
          (record { addr = record { ip = v6 os; port = port }; flowinfo = flow; scope_id = scope })

answered_v4 :
    (kernel : SocketOptions) (a b c d port : ℕ)
    → port < u16_limit
    → kernel.original_dst ≡ some (record { sin_port = to_be port; sin_addr = (a, (b, (c, d))) })
    → get_original_dest_v4 kernel ≡ ret (plain (record { ip = v4 a b c d; port = port }))
unfolding get_original_dest_v4
answered_v4 kernel a b c d port lt e = rw (get_original_dest_v4, e, from_be-to_be port lt) refl

mapped : (local : Bytes) → is_v4_mapped (v6 (replicate 10 0 ++ 255 ∷ 255 ∷ local)) ≡ true
unfolding is_v4_mapped strip_prefix
mapped local = refl

not_mapped : (a b c d : ℕ) → is_v4_mapped (v4 a b c d) ≡ false
unfolding is_v4_mapped
not_mapped a b c d = refl

recovered :
    (kernel : SocketOptions) (ip : IpAddr) (dest : Endpoint)
    → Recorded kernel ip dest
    → (if is_v4_mapped ip then get_original_dest_v4 kernel else by_family kernel ip) ≡ ret dest
unfolding by_family get_original_dest_v6
recovered kernel _ _ (over_v4 l₀ l₁ l₂ l₃ a b c d port lt e) =
    rw (not_mapped l₀ l₁ l₂ l₃) (answered_v4 kernel a b c d port lt e)
recovered kernel _ _ (over_mapped local a b c d port lt e) =
    rw (mapped local) (answered_v4 kernel a b c d port lt e)
recovered kernel _ _ (over_v6 local os port flow scope is_v6 lt e) =
    rw (is_v6, get_original_dest_v6, e, from_be-to_be port lt) refl

-- The destination that the kernel has recorded is recovered, address and port, from the option of the
-- connection's family, a local IPv4 address that is mapped into IPv6 counting as IPv4; only where it
-- equals the listener's endpoint in every field the connection is refused.
pub get_original_dest-Recorded :
    (kernel : SocketOptions) (local : SocketAddr) (dest listen : Endpoint)
    → Recorded kernel local.ip dest
    → Outcome listen dest (get_original_dest kernel local listen)
unfolding get_original_dest
get_original_dest-Recorded kernel local dest listen h =
    rw (recovered kernel local.ip dest h) (not_listener-Outcome listen dest)
