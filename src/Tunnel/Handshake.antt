-- ===== src/Tunnel/Handshake.antt =====
-- The SOCKS5 handshakes of src/tunnel.rs over a stream; `fail` stands for the error of each call.
pub mod Exact
pub mod Total
use trans_proxy.Base.{
  ℕ, zero, suc, ◌+◌, ◌-◌, ◌*◌, ◌≤◌, ◌<◌, ◌≡◌, ◌≢◌, ◌⊎◌, inl, inr, refl, sym, ap, ◌∙◌, true, false,
  Bool, not, ◌&&◌, ◌||◌, List, [], ◌∷◌, ◌++◌, map, arith, append_assoc, append-nil, ltb, leb,
  le→leb, ◌==◌, lt→ltb, ne→==-false, ==_refl, ◌/◌, ◌%◌, max, min, bit_and, bit_or, Bytes, length,
  drop, take, replicate, u16_bytes, u32_bytes, length-append, length-take, length-drop,
  length_from_drop, drop_past, take-append, drop-append, take-append-drop, Run, ret, fail, panic,
  spin, ◌>>=◌, ◌>>◌, guard, attempt, unwrap_or, byte, slice, slice_le, byte-drop, be16, be32,
  overwrite, if◌then◌else◌, Bool-cases, Option, none, some, Returns, Returns-cases, overwrite_le,
  unwrap_or-Returns, be16_lt, byte_lt, Gives, ltb→lt, leb→le,
}
use trans_proxy.Net.Wire.{Stream, write_all, read_exact}
use trans_proxy.Net.{IpAddr, v4, v6, SocketAddr}
use trans_proxy.Tunnel.Request.{socks5_connect_request, build_socks5_auth_request}

-- `ProxyAuth`.
pub data ProxyAuth : Type 0 where
  without : ProxyAuth
  username_password : Bytes → Bytes → ProxyAuth

unfoldable pub socks5_username_auth : Stream → Bytes → Bytes → Run Stream
socks5_username_auth s username password = do
  auth_req ← build_socks5_auth_request username password
  s ← write_all s auth_req
  (s, auth_resp) ← read_exact s 2
  status ← byte auth_resp 1
  guard (status == 0x00)
  ret s

unfoldable pub greeting : ProxyAuth → Bytes
greeting without = 0x05 ∷ 0x01 ∷ 0x00 ∷ []
greeting (username_password _ _) = 0x05 ∷ 0x02 ∷ 0x00 ∷ 0x02 ∷ []

-- What the client does with the method that the proxy selects.
unfoldable pub with_method : Stream → ProxyAuth → ℕ → Run Stream
with_method s auth method =
    let authenticated : Run Stream = elim auth [
      | without ↦ fail
      | username_password username password ↦ socks5_username_auth s username password
    ] in
    if method == 0x00 then ret s else if method == 0x02 then authenticated else fail

unfoldable pub socks5_negotiate_auth : Stream → ProxyAuth → Run Stream
socks5_negotiate_auth s auth = do
  s ← write_all s (greeting auth)
  (s, method_resp) ← read_exact s 2
  version ← byte method_resp 0
  guard (version == 0x05)
  method ← byte method_resp 1
  with_method s auth method

unfoldable pub read_v4 : Stream → Run (Stream × SocketAddr)
read_v4 s = do
  (s, buf) ← read_exact s 6
  a ← byte buf 0
  b ← byte buf 1
  c ← byte buf 2
  d ← byte buf 3
  port ← be16 buf 4
  ret (s, record { ip = v4 a b c d; port = port })

unfoldable pub read_domain : Stream → Run (Stream × SocketAddr)
read_domain s = do
  (s, len_buf) ← read_exact s 1
  n ← byte len_buf 0
  (s, buf) ← read_exact s (n + 2)
  port ← be16 buf (length buf - 2)
  ret (s, record { ip = v4 0 0 0 0; port = port })

unfoldable pub read_v6 : Stream → Run (Stream × SocketAddr)
read_v6 s = do
  (s, buf) ← read_exact s 18
  os ← slice buf 0 16
  port ← be16 buf 16
  ret (s, record { ip = v6 os; port = port })

unfoldable pub read_socks5_bound_addr : Stream → ℕ → Run (Stream × SocketAddr)
read_socks5_bound_addr s atyp =
    if atyp == 0x01
    then read_v4 s
    else if atyp == 0x03
    then read_domain s
    else if atyp == 0x04
    then read_v6 s
    else fail

-- The four bytes of a reply's header, up to its address type.
unfoldable pub read_reply : Stream → Run (Stream × ℕ)
read_reply s = do
  (s, resp_header) ← read_exact s 4
  version ← byte resp_header 0
  guard (version == 0x05)
  status ← byte resp_header 1
  guard (status == 0x00)
  atyp ← byte resp_header 3
  ret (s, atyp)

unfoldable pub socks5_connect : Stream → SocketAddr → Option Bytes → Run Stream
socks5_connect s dest hostname = do
  s ← write_all s (socks5_connect_request dest hostname)
  (s, atyp) ← read_reply s
  (s, _) ← read_socks5_bound_addr s atyp
  ret s

-- The SOCKS5 branch of `connect_via_proxy`, on the stream to the proxy.
unfoldable pub socks5_handshake : Stream → ProxyAuth → SocketAddr → Option Bytes → Run Stream
socks5_handshake s auth dest hostname = do
  s ← socks5_negotiate_auth s auth
  socks5_connect s dest hostname

unfoldable pub associate_request : Bytes
associate_request = 0x05 ∷ 0x03 ∷ 0x00 ∷ 0x01 ∷ 0 ∷ 0 ∷ 0 ∷ 0 ∷ 0 ∷ 0 ∷ []

-- `IpAddr::is_unspecified`.
unfoldable pub is_unspecified : IpAddr → Bool
is_unspecified (v4 a b c d) = a == 0 && (b == 0 && (c == 0 && d == 0))
is_unspecified (v6 []) = true
is_unspecified (v6 (o ∷ os)) = let rest = is_unspecified (v6 os) in o == 0 && rest

-- The rest of `udp_associate`, for a SOCKS5 proxy at `proxy`, on the stream to it.
unfoldable pub udp_associate : Stream → ProxyAuth → IpAddr → Run (Stream × SocketAddr)
udp_associate s auth proxy = do
  s ← socks5_negotiate_auth s auth
  s ← write_all s associate_request
  (s, atyp) ← read_reply s
  (s, bnd) ← read_socks5_bound_addr s atyp
  let relay : SocketAddr = record { ip = proxy; port = bnd.port }
  ret (s, if is_unspecified bnd.ip then relay else bnd)
