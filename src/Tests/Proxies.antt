-- ===== src/Tests/Proxies.antt =====
-- The exchange with a SOCKS5 proxy at concrete requests.
use trans_proxy.Base.{none}
use trans_proxy.Base.{
  ◌+◌, ◌≡◌, refl, true, Bytes, length, List, Run, append-nil, [], ◌∷◌, ◌++◌, arith, ret, some,
}
use trans_proxy.Tunnel.Host.{
  all, strip_dot, split_dot, push_first, is_label_byte, is_safe_label, is_safe_proxy_hostname,
  usable_proxy_hostname,
}
use trans_proxy.Tunnel.Request.{socks5_connect_request}
use trans_proxy.Net.Wire.{Stream}
use trans_proxy.Tunnel.Handshake.{ProxyAuth, username_password, greeting, socks5_handshake}
use trans_proxy.Config.{http_connect, socks5}
use trans_proxy.Connection.{open_tunnel}
use trans_proxy.Connection.Transparent.{Opening, open_tunnel-Opened, open_tunnel-tunnelled}
use trans_proxy.Tunnel.Handshake.Exact.{
  bound_v4, bound_domain, success, openly, by_password, socks5_handshake-success,
}
use trans_proxy.Net.{IpAddr, SocketAddr}
use trans_proxy.Base.Decimal.{text}
use trans_proxy.Tunnel.Connect.{find_header_end}
use trans_proxy.Tunnel.Head.{is_plain, http_connect_request, http_connect_request-one_head}
use trans_proxy.Tests.Data.{client, site_bytes}

site_usable : usable_proxy_hostname (some site_bytes) ≡ some site_bytes
unfolding usable_proxy_hostname is_safe_proxy_hostname strip_dot split_dot push_first is_safe_label
    is_label_byte
site_usable = refl

-- A proxy that asks for the password, and sends two bytes behind its reply.
abbrev proxy_stream : Stream
proxy_stream = record {
  incoming = (5 ∷ 2 ∷ 1 ∷ 0 ∷ []) ++ success 0 (bound_v4 0 0 0 0) 80 (72 ∷ 73 ∷ []);
  written = [];
  writes_left = 2 + 1;
}

abbrev user : ProxyAuth
user = username_password (117 ∷ []) (112 ∷ 119 ∷ [])

socks5_handshake-success_example :
    socks5_handshake proxy_stream user client (some site_bytes)
    ≡ ret (record {
      incoming = 72 ∷ 73 ∷ [];
      written =
          (greeting user ++ (1 ∷ 1 ∷ 117 ∷ 2 ∷ 112 ∷ 119 ∷ []))
          ++ socks5_connect_request client (some site_bytes);
      writes_left = 0;
    })
socks5_handshake-success_example =
    socks5_handshake-success user client (some site_bytes) (5 ∷ 2 ∷ 1 ∷ 0 ∷ [])
      (greeting user ++ (1 ∷ 1 ∷ 117 ∷ 2 ∷ 112 ∷ 119 ∷ [])) 2 0 0 (bound_v4 0 0 0 0) 80
      (72 ∷ 73 ∷ [])
      (by_password (117 ∷ []) (112 ∷ 119 ∷ []) 1 (omega arith) (omega arith) (omega arith)
        (omega arith))
      tt (omega arith)

-- Every address is written in the same way.
abbrev show_address : IpAddr → Bytes
show_address a = text "10.0.0.1"

address_is_plain : all is_plain (show_address client.ip) ≡ true
unfolding is_plain text
address_is_plain = refl

http_connect_request-one_head_example :
    find_header_end (http_connect_request show_address client (some site_bytes))
    ≡ some (length (http_connect_request show_address client (some site_bytes)))
http_connect_request-one_head_example =
    http_connect_request-one_head show_address client (some site_bytes) address_is_plain

-- `H 200\r\n\r\n`, and two bytes of the server's.
abbrev http_stream : Stream
http_stream = record {
  incoming = 72 ∷ 32 ∷ 50 ∷ 48 ∷ 48 ∷ 13 ∷ 10 ∷ 13 ∷ 10 ∷ 1 ∷ 2 ∷ [];
  written = [];
  writes_left = 2;
}

abbrev dial_http : SocketAddr → Run Stream
dial_http a = ret http_stream

-- All arrives at once.
abbrev at_once : Bytes → List Bytes
at_once bs = bs ∷ []

abbrev inbound : Stream
inbound = record { incoming = 22 ∷ 3 ∷ []; written = []; writes_left = 1 }

open_tunnel-Opened_example : Opening at_once http_stream inbound (
    open_tunnel show_address at_once dial_http
      (record { protocol = http_connect; addr = client })
      client
      (some site_bytes)
      inbound)
open_tunnel-Opened_example =
    open_tunnel-Opened show_address at_once append-nil client (some site_bytes) dial_http client
      http_stream refl inbound

-- A proxy that asks for no password, and sends two bytes of the server's behind its reply.
abbrev socks5_stream : Stream
socks5_stream = record {
  incoming = (5 ∷ 0 ∷ []) ++ success 0 (bound_domain (97 ∷ [])) 80 (1 ∷ 2 ∷ []);
  written = [];
  writes_left = 1 + 1;
}

abbrev dial_socks5 : SocketAddr → Run Stream
dial_socks5 a = ret socks5_stream

open_tunnel-tunnelled_example :
    open_tunnel show_address at_once dial_socks5
      (record { protocol = socks5 user; addr = client })
      client
      none
      inbound
    ≡ ret (
      inbound,
      record {
        incoming = 1 ∷ 2 ∷ [];
        written = greeting user ++ socks5_connect_request client none;
        writes_left = 0;
      },
    )
open_tunnel-tunnelled_example =
    open_tunnel-tunnelled show_address at_once append-nil client none dial_socks5 client inbound
      user (5 ∷ 0 ∷ []) (greeting user) 1 0 0 (bound_domain (97 ∷ [])) 80 (1 ∷ 2 ∷ []) (openly user)
      (omega arith) (omega arith) refl
