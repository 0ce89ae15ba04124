-- ===== src/Tests/Settings.antt =====
-- The command line at concrete values.
use trans_proxy.Base.{
  ◌≡◌, refl, false, [], ◌∷◌, arith, Bytes, List, Option, none, some, ret, fail, Returns,
}
use trans_proxy.Base.Decimal.{text}
use trans_proxy.Net.{SocketAddr}
use trans_proxy.Tunnel.Connect.{parse_u16, digits}
use trans_proxy.Tunnel.Handshake.{username_password}
use trans_proxy.Config.{
  contains, port_list, show_port_list, split, prepend, parse_ports, trim, trim_start, trim_end,
  is_space, upstream_proxy, socks5,
}
use trans_proxy.Config.Ports.{IsPorts, port_list-IsPorts, port_list-show}
use trans_proxy.Config.Upstream.{
  socks5_url, Negotiable, upstream_proxy-credentials, upstream_proxy-Negotiable,
}
use trans_proxy.Dns.ProxyUrl.{doh_proxy_url, credentials_of, AreBytes, doh_proxy_url-credentials_of}
use trans_proxy.Tests.Data.{client}

-- Spaces are stripped, and a port that is named twice is kept once.
ports_of_text : port_list (text "443, 80,443") ≡ ret (443 ∷ 80 ∷ [])
unfolding port_list split prepend parse_ports trim trim_start trim_end is_space contains parse_u16
    digits text
ports_of_text = refl

zero_is_no_port : port_list (text "80,0") ≡ fail
unfolding port_list split prepend parse_ports trim trim_start trim_end is_space contains parse_u16
    digits text
zero_is_no_port = refl

port_list-IsPorts_example : Returns IsPorts (port_list (text "443, 80,443"))
port_list-IsPorts_example = port_list-IsPorts (text "443, 80,443")

both-IsPorts : IsPorts (443 ∷ 65535 ∷ [])
unfolding contains
both-IsPorts = (omega arith, refl, refl)

port_list-show_example : port_list (show_port_list (443 ∷ 65535 ∷ [])) ≡ ret (443 ∷ 65535 ∷ [])
port_list-show_example = port_list-show (443 ∷ 65535 ∷ []) both-IsPorts

-- Every address is the same one, and no name resolves.
abbrev one_address : Bytes → Option SocketAddr
one_address s = some client

abbrev unresolved : Bytes → Option (List SocketAddr)
unresolved s = none

no_colon : contains 58 (text "joe") ≡ false
unfolding contains text
no_colon = refl

no_at : contains 64 (text "10.0.0.1:1080") ≡ false
unfolding contains text
no_at = refl

upstream_proxy-credentials_example :
    upstream_proxy one_address unresolved
      (socks5_url (text "joe") (text "p@:s") (text "10.0.0.1:1080"))
    ≡ ret
        (record { protocol = socks5 (username_password (text "joe") (text "p@:s")); addr = client })
unfolding text
upstream_proxy-credentials_example =
    upstream_proxy-credentials one_address unresolved (text "joe") (text "p@:s")
      (text "10.0.0.1:1080") client (omega arith, omega arith) (omega arith, omega arith) no_colon
      no_at refl

upstream_proxy-Negotiable_example :
    Returns Negotiable
      (upstream_proxy one_address unresolved (text "socks5://joe:pw@10.0.0.1:1080"))
upstream_proxy-Negotiable_example =
    upstream_proxy-Negotiable one_address unresolved (text "socks5://joe:pw@10.0.0.1:1080")

-- A colon in the user name and an at sign in the password.
user-AreBytes : AreBytes (text "a:b")
unfolding text
user-AreBytes = (omega arith, (omega arith, (omega arith, tt)))

password-AreBytes : AreBytes (text "p@w")
unfolding text
password-AreBytes = (omega arith, (omega arith, (omega arith, tt)))

abbrev show_one : SocketAddr → Bytes
show_one a = text "10.0.0.1:1080"

doh_proxy_url-credentials_of_example :
    credentials_of (
      doh_proxy_url show_one
        (record { protocol = socks5 (username_password (text "a:b") (text "p@w")); addr = client }))
    ≡ some (text "a:b", text "p@w")
doh_proxy_url-credentials_of_example =
    doh_proxy_url-credentials_of show_one (text "a:b") (text "p@w") client user-AreBytes
      password-AreBytes
