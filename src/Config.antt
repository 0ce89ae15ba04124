-- ===== src/Config.antt =====
-- The command line's values, src/config.rs: `PortList`, `UpstreamProxy`, `DnsUpstream` and the
-- two methods of `Config`. Text is a byte string; `trim` strips the ASCII white space. The parser
-- of a socket address and the resolver (`parse::<SocketAddr>`, `to_socket_addrs`), and what
-- `getifaddrs` lists, are arguments.

pub mod Ports
pub mod Upstream
use trans_proxy.Base.{
  ℕ, ◌≡◌, refl, Bool, true, false, not, ◌&&◌, ◌||◌, List, [], ◌∷◌, ◌++◌, leb, ◌==◌, ltb, Bytes,
  length, if◌then◌else◌, Option, none, some, Run, ret, fail, panic, spin, ◌>>=◌, ◌>>◌, guard, lift,
  map,
}
use trans_proxy.Base.Decimal.{text, decimal}
use trans_proxy.Net.{IpAddr, v4, SocketAddr}
use trans_proxy.Tunnel.Connect.{cut_at, parse_u16}
use trans_proxy.Tunnel.Handshake.{ProxyAuth, without, username_password}

-- `s.split(c)`.
unfoldable pub prepend : ℕ → List Bytes → List Bytes
prepend b [] = (b ∷ []) ∷ []
prepend b (w ∷ ws) = (b ∷ w) ∷ ws

unfoldable pub split : ℕ → Bytes → List Bytes
split c [] = [] ∷ []
split c (b ∷ bs) = let parts = split c bs in if b == c then [] ∷ parts else prepend b parts

unfoldable pub is_space : ℕ → Bool
is_space b = (leb 9 b && leb b 13) || b == 32

unfoldable pub trim_start : Bytes → Bytes
trim_start [] = []
trim_start (b ∷ bs) = let rest = trim_start bs in if is_space b then rest else b ∷ bs

unfoldable pub trim_end : Bytes → Bytes
trim_end [] = []
trim_end (b ∷ bs) =
    let rest = trim_end bs in if is_space b && length rest == 0 then [] else b ∷ rest

unfoldable pub trim : Bytes → Bytes
trim s = trim_end (trim_start s)

unfoldable pub contains : ℕ → List ℕ → Bool
contains p [] = false
contains p (q ∷ qs) = p == q || contains p qs

-- The loop of `PortList::from_str`. The set of the ports seen holds those that were pushed.
unfoldable pub parse_ports : List ℕ → List Bytes → Run (List ℕ)
parse_ports ports [] = ret ports
parse_ports ports (part ∷ parts) = do
  port ← parse_u16 (trim part)
  guard (not (port == 0))
  parse_ports (if contains port ports then ports else ports ++ port ∷ []) parts

unfoldable pub port_list : Bytes → Run (List ℕ)
port_list s = do ports ← parse_ports [] (split 44 s); guard (not (length ports == 0)); ret ports

-- `s.join(c)`.
unfoldable pub join_words : ℕ → List Bytes → Bytes
join_words c [] = []
join_words c (w ∷ []) = w
join_words c (w ∷ v ∷ ws) = w ++ c ∷ join_words c (v ∷ ws)

unfoldable pub show_port_list : List ℕ → Bytes
show_port_list ports = join_words 44 (map decimal ports)

-- `s.strip_prefix(prefix)`.
unfoldable pub strip_prefix : Bytes → Bytes → Option Bytes
strip_prefix [] s = some s
strip_prefix (p ∷ ps) [] = none
strip_prefix (p ∷ ps) (b ∷ bs) = let rest = strip_prefix ps bs in if p == b then rest else none

-- What stands in front of the last such byte, and behind it.
unfoldable pub cut_last : ℕ → Bytes → Option (Bytes × Bytes)
cut_last c [] = none
cut_last c (b ∷ bs) = elim (cut_last c bs) [
  | none ↦ if b == c then some ([], bs) else none
  | some r ↦ some (b ∷ r.0, r.1)
]

pub data ProxyProtocol : Type 0 where
  http_connect : ProxyProtocol
  socks5 : ProxyAuth → ProxyProtocol

pub record UpstreamProxy : Type 0 where
  pub protocol : ProxyProtocol
  pub addr : SocketAddr

unfoldable pub is_socks5 : UpstreamProxy → Bool
is_socks5 p = elim p.protocol [ http_connect ↦ false | socks5 _ ↦ true ]

unfoldable pub validate_socks5_credential : Bytes → Run (Unit {0})
validate_socks5_credential value = do
  guard (not (length value == 0))
  guard (not (ltb 255 (length value)))

-- The `userinfo` part.
unfoldable pub parse_userinfo : Bytes → Run ProxyAuth
parse_userinfo userinfo = do
  (user, pass) ← lift (cut_at 58 userinfo)
  validate_socks5_credential user
  validate_socks5_credential pass
  ret (username_password user pass)

-- The authentication, and the text of the address behind it.
unfoldable pub parse_socks5 : Bytes → Run (ProxyAuth × Bytes)
parse_socks5 rest = elim (cut_last 64 rest) [
  | none ↦ ret (without, rest)
  | some r ↦ do auth ← parse_userinfo r.0; ret (auth, r.1)
]

unfoldable pub first_addr : List SocketAddr → Option SocketAddr
first_addr [] = none
first_addr (a ∷ _) = some a

module _ (parse_addr : Bytes → Option SocketAddr) (resolve : Bytes → Option (List SocketAddr)) where
  -- `resolve_dns_upstream_addr` differs in the texts of its errors only.
  unfoldable pub parse_upstream_addr : Bytes → Run SocketAddr
  parse_upstream_addr s = elim (parse_addr s) [
    | some a ↦ ret a
    | none ↦ do addrs ← lift (resolve s); lift (first_addr addrs)
  ]

  unfoldable pub resolve_dns_upstream_addr : Bytes → Run SocketAddr
  resolve_dns_upstream_addr s = elim (parse_addr s) [
    | some a ↦ ret a
    | none ↦ do addrs ← lift (resolve s); lift (first_addr addrs)
  ]

  unfoldable pub upstream_proxy : Bytes → Run UpstreamProxy
  upstream_proxy s = elim (strip_prefix (text "socks5://") s) [
    | some rest ↦ do
      (auth, addr_str) ← parse_socks5 rest
      addr ← parse_upstream_addr addr_str
      ret (record { protocol = socks5 auth; addr = addr })
    | none ↦ do
      addr ← parse_upstream_addr (elim (strip_prefix (text "http://") s) [ none ↦ s | some r ↦ r ])
      ret (record { protocol = http_connect; addr = addr })
  ]

unfoldable pub show_upstream_proxy : (SocketAddr → Bytes) → UpstreamProxy → Bytes
show_upstream_proxy show_addr p = elim p.protocol [
  | http_connect ↦ text "http://" ++ show_addr p.addr
  | socks5 auth ↦ elim auth [
    | without ↦ text "socks5://" ++ show_addr p.addr
    | username_password user _ ↦ text "socks5://" ++ user ++ (64 ∷ show_addr p.addr)
  ]
]

pub data DnsUpstream : Type 0 where
  udp : SocketAddr → DnsUpstream
  https : Bytes → DnsUpstream

unfoldable pub dns_upstream :
    (Bytes → Option SocketAddr) → (Bytes → Option (List SocketAddr)) → Bytes → Run DnsUpstream
dns_upstream parse_addr resolve s = elim (strip_prefix (text "https://") s) [
  | some _ ↦ ret (https s)
  | none ↦ do addr ← resolve_dns_upstream_addr parse_addr resolve s; ret (udp addr)
]

unfoldable pub show_dns_upstream : (SocketAddr → Bytes) → DnsUpstream → Bytes
show_dns_upstream show_addr (udp addr) = show_addr addr
show_dns_upstream show_addr (https url) = url

-- The fields of `Config` that the two methods and the firewall read.
pub record Config : Type 0 where
  pub listen_addr : SocketAddr
  pub upstream_proxy : Option UpstreamProxy
  pub dns : Bool
  pub dns_listen : Option SocketAddr
  pub interface : Bytes
  pub local_traffic : Bool
  pub fwmark : ℕ
  pub ports : Option (List ℕ)
  pub allow_quic : Bool

unfoldable pub proxy_udp_enabled : Config → Bool
proxy_udp_enabled c =
    not c.allow_quic && elim c.upstream_proxy [ none ↦ false | some p ↦ is_socks5 p ]

-- `interface_ip` is what `get_interface_ip` returns for a name.
unfoldable pub resolve_dns_listen : (Bytes → Option IpAddr) → Config → Option SocketAddr
resolve_dns_listen interface_ip c = elim c.dns_listen [
  | some addr ↦ some addr
  | none ↦
      if c.dns
      then some (record {
        ip = elim (interface_ip c.interface) [ none ↦ v4 0 0 0 0 | some ip ↦ ip ];
        port = 53;
      })
      else none
]
