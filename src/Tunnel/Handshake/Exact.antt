-- ===== src/Tunnel/Handshake/Exact.antt =====
-- The SOCKS5 handshake of src/tunnel.rs with a proxy that accepts it.
use trans_proxy.Base.{
  ℕ, suc, ◌+◌, ◌-◌, ◌≤◌, ◌<◌, ◌≡◌, refl, sym, ◌∙◌, [], ◌∷◌, ◌++◌, arith, append_assoc, Bytes,
  length, drop, take, u16_bytes, length-append, take-append, drop-append, ret, slice_le, byte-drop,
  Option,
}
use trans_proxy.Base.{be16-drop, u16_limit}
use trans_proxy.Net.{v4, v6, SocketAddr}
use trans_proxy.Tunnel.Request.{socks5_connect_request}
use trans_proxy.Tunnel.Request.RoundTrip.{build_socks5_auth_request-valid}
use trans_proxy.Net.Wire.{read_exact-append, write_all-left, Stream}
use trans_proxy.Tunnel.Handshake.{
  ProxyAuth, username_password, socks5_username_auth, greeting, with_method, socks5_negotiate_auth,
  read_v4, read_domain, read_v6, read_socks5_bound_addr, read_reply, socks5_connect,
  socks5_handshake,
}

-- The bound address of a reply, as RFC 1928 (6) lays it out: the specification of what the
-- proxy sends.
pub data Bound : Type 0 where
  bound_v4 : ℕ → ℕ → ℕ → ℕ → Bound
  bound_domain : Bytes → Bound
  bound_v6 : Bytes → Bound

abbrev pub IsBound : Bound → Type 0
IsBound (bound_v4 _ _ _ _) = Unit
IsBound (bound_domain name) = length name < 256
IsBound (bound_v6 os) = length os ≡ 16

abbrev pub bound_type : Bound → ℕ
bound_type (bound_v4 _ _ _ _) = 1
bound_type (bound_domain _) = 3
bound_type (bound_v6 _) = 4

abbrev pub bound_bytes : Bound → Bytes
bound_bytes (bound_v4 a b c d) = a ∷ b ∷ c ∷ d ∷ []
bound_bytes (bound_domain name) = length name ∷ name
bound_bytes (bound_v6 os) = os

-- A reply that reports success.
abbrev pub success : ℕ → Bound → ℕ → Bytes → Bytes
success reserved bound port rest =
    5 ∷ 0 ∷ reserved ∷ bound_type bound ∷ (bound_bytes bound ++ (u16_bytes port ++ rest))

read_bound :
    (s : Stream) (bound : Bound) (port : ℕ) (rest : Bytes)
    → IsBound bound
    → port < u16_limit
    → s.incoming ≡ bound_bytes bound ++ (u16_bytes port ++ rest)
    → (a : SocketAddr) × (read_socks5_bound_addr s (bound_type bound)
        ≡ ret (record s { incoming = rest }, a))
unfolding read_socks5_bound_addr read_v4 read_domain read_v6
read_bound s (bound_v4 a b c d) port rest valid lt e = (
  record { ip = v4 a b c d; port = port },
  rw (
    read_exact-append s 6 (a ∷ b ∷ c ∷ d ∷ u16_bytes port) rest e (omega arith),
    byte-drop (a ∷ b ∷ c ∷ d ∷ u16_bytes port) 0 a _ refl,
    byte-drop (a ∷ b ∷ c ∷ d ∷ u16_bytes port) 1 b _ refl,
    byte-drop (a ∷ b ∷ c ∷ d ∷ u16_bytes port) 2 c _ refl,
    byte-drop (a ∷ b ∷ c ∷ d ∷ u16_bytes port) 3 d _ refl,
    be16-drop (a ∷ b ∷ c ∷ d ∷ u16_bytes port) 4 port [] lt refl,
  ),
)
read_bound s (bound_domain name) port rest valid lt e =
    let n : ℕ = length name in
    let buf : Bytes = name ++ u16_bytes port in
    let size : n + 2 ≡ length buf = omega (arith, length-append name (u16_bytes port)) in
    let at : drop (length buf - 2) buf ≡ u16_bytes port =
      drop-append name (u16_bytes port) (length buf - 2) (omega arith) in
    (
      record { ip = v4 0 0 0 0; port = port },
      rw (
        read_exact-append s 1 (n ∷ []) (name ++ (u16_bytes port ++ rest)) e (omega arith),
        byte-drop (n ∷ []) 0 n [] refl,
        read_exact-append (record s { incoming = name ++ (u16_bytes port ++ rest) }) (n + 2) buf
            rest (sym (append_assoc name (u16_bytes port) rest)) size,
        be16-drop buf (length buf - 2) port [] lt at,
      ),
    )
read_bound s (bound_v6 os) port rest valid lt e =
    let buf : Bytes = os ++ u16_bytes port in
    let size : 18 ≡ length buf = omega (arith, length-append os (u16_bytes port)) in
    let cut : take (16 - 0) (drop 0 buf) ≡ os = take-append os (u16_bytes port) 16 (sym valid) in
    (
      record { ip = v6 os; port = port },
      rw (
        read_exact-append s 18 buf rest (e ∙ sym (append_assoc os (u16_bytes port) rest)) size,
        slice_le buf 0 16 (omega arith) (omega arith),
        cut,
        be16-drop buf 16 port [] lt (drop-append os (u16_bytes port) 16 (sym valid)),
      ),
    )

-- What a proxy answers to let the client in, with what the client writes and how often it does:
-- it selects no authentication, or it selects the password and accepts it.
pub data Accepts : ProxyAuth → Bytes → Bytes → ℕ → Type 0 where
  openly : (auth : ProxyAuth) → Accepts auth (5 ∷ 0 ∷ []) (greeting auth) 1
  by_password :
      (username password : Bytes) (version : ℕ)
      → 0 < length username
      → length username ≤ 255
      → 0 < length password
      → length password ≤ 255
      → Accepts
          (username_password username password)
          (5 ∷ 2 ∷ version ∷ 0 ∷ [])
          (greeting (username_password username password)
            ++ (1 ∷ length username ∷ (username ++ (length password ∷ password))))
          2

negotiated :
    (auth : ProxyAuth) (server client : Bytes) (writes k : ℕ) (rest w : Bytes)
    → Accepts auth server client writes
    → socks5_negotiate_auth
        (record { incoming = server ++ rest; written = w; writes_left = writes + k })
        auth
      ≡ ret (record { incoming = rest; written = w ++ client; writes_left = k })
unfolding socks5_negotiate_auth with_method socks5_username_auth
negotiated auth server client writes k rest w (openly auth') =
    let start : Stream = record { incoming = 5 ∷ 0 ∷ rest; written = w; writes_left = 1 + k } in
    let sent : Stream = record {
      incoming = 5 ∷ 0 ∷ rest;
      written = w ++ greeting auth;
      writes_left = k;
    } in
    rw (
      write_all-left start (greeting auth) k (omega arith),
      read_exact-append sent 2 (5 ∷ 0 ∷ []) rest refl refl,
      byte-drop (5 ∷ 0 ∷ []) 0 5 (0 ∷ []) refl,
      byte-drop (5 ∷ 0 ∷ []) 1 0 [] refl,
    )
negotiated auth server client writes k rest w
      (by_password username password version u_pos u_short p_pos p_short) =
    let request : Bytes = 1 ∷ length username ∷ (username ++ (length password ∷ password)) in
    let auth : ProxyAuth = username_password username password in
    let start : Stream = record {
      incoming = 5 ∷ 2 ∷ version ∷ 0 ∷ rest;
      written = w;
      writes_left = 2 + k;
    } in
    let sent : Stream = record {
      incoming = 5 ∷ 2 ∷ version ∷ 0 ∷ rest;
      written = w ++ greeting auth;
      writes_left = 1 + k;
    } in
    let chosen : Stream = record {
      incoming = version ∷ 0 ∷ rest;
      written = w ++ greeting auth;
      writes_left = 1 + k;
    } in
    let asked : Stream = record {
      incoming = version ∷ 0 ∷ rest;
      written = (w ++ greeting auth) ++ request;
      writes_left = k;
    } in
    rw (
      write_all-left start (greeting auth) (1 + k) (omega arith),
      read_exact-append sent 2 (5 ∷ 2 ∷ []) (version ∷ 0 ∷ rest) refl refl,
      byte-drop (5 ∷ 2 ∷ []) 0 5 (2 ∷ []) refl,
      byte-drop (5 ∷ 2 ∷ []) 1 2 [] refl,
      build_socks5_auth_request-valid username password u_pos u_short p_pos p_short,
      write_all-left chosen request k (omega arith),
      read_exact-append asked 2 (version ∷ 0 ∷ []) rest refl refl,
      byte-drop (version ∷ 0 ∷ []) 1 0 [] refl,
      append_assoc w (greeting auth) request,
    )

connected :
    (s : Stream) (dest : SocketAddr) (hostname : Option Bytes) (k reserved : ℕ) (bound : Bound)
    (port : ℕ) (rest : Bytes)
    → s.incoming ≡ success reserved bound port rest
    → s.writes_left ≡ suc k
    → IsBound bound
    → port < u16_limit
    → socks5_connect s dest hostname
      ≡ ret (record {
        incoming = rest;
        written = s.written ++ socks5_connect_request dest hostname;
        writes_left = k;
      })
unfolding socks5_connect read_reply
connected s dest hostname k reserved bound port rest e left valid lt =
    let request : Bytes = socks5_connect_request dest hostname in
    let sent : Stream = record s { written = s.written ++ request; writes_left = k } in
    let header : Bytes = 5 ∷ 0 ∷ reserved ∷ bound_type bound ∷ [] in
    let behind : Bytes = bound_bytes bound ++ (u16_bytes port ++ rest) in
    let (a, bound_read) =
      read_bound (record sent { incoming = behind }) bound port rest valid lt refl in
    rw (
      write_all-left s request k left,
      read_exact-append sent 4 header behind e refl,
      byte-drop header 0 5 _ refl,
      byte-drop header 1 0 _ refl,
      byte-drop header 3 (bound_type bound) [] refl,
      bound_read,
    )

-- With a proxy that lets the client in, with or without a password, and reports success, the
-- handshake succeeds: it has written the greeting, the password where it was asked for, and the
-- CONNECT request, in that order, and it has read no byte of what follows the reply, whichever
-- form the bound address of the reply has.
pub socks5_handshake-success :
    (auth : ProxyAuth) (dest : SocketAddr) (hostname : Option Bytes) (server client : Bytes)
    (writes k reserved : ℕ) (bound : Bound) (port : ℕ) (rest : Bytes)
    → Accepts auth server client writes
    → IsBound bound
    → port < u16_limit
    → socks5_handshake
        (record {
          incoming = server ++ success reserved bound port rest;
          written = [];
          writes_left = writes + suc k;
        })
        auth
        dest
        hostname
      ≡ ret (record {
        incoming = rest;
        written = client ++ socks5_connect_request dest hostname;
        writes_left = k;
      })
unfolding socks5_handshake
socks5_handshake-success auth dest hostname server client writes k reserved bound port rest accepts
      valid lt =
    rw (negotiated auth server client writes (suc k) (success reserved bound port rest) [] accepts)
      (connected _ dest hostname k reserved bound port rest refl refl valid lt)
