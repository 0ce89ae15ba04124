-- ===== src/Tunnel/Request/RoundTrip.antt =====
-- The SOCKS5 messages of src/tunnel.rs, read back.
use trans_proxy.Base.{
  ℕ, ◌+◌, ◌≤◌, ◌<◌, ◌≡◌, inl, inr, refl, ap, false, ◌∷◌, ◌++◌, arith, ltb, le→leb, ne→==-false, ◌%◌,
  Bytes, length, drop, u16_bytes, length-append, drop-append, ret, byte-drop, Option-cases, Option,
  none, some,
}
use trans_proxy.Net.{IpAddr, v4, v6, SocketAddr}
use trans_proxy.Tunnel.Host.{usable_proxy_hostname, usable-IsSafe}
use trans_proxy.Tunnel.Request.{
  octets, ip_type, target, encode_socks5_udp, udp_offset, socks5_udp_payload_offset,
  validate_socks5_auth_field, build_socks5_auth_request,
}

-- An IPv6 address has sixteen octets.
abbrev pub IsIp : IpAddr → Type 0
IsIp (v4 _ _ _ _) = Unit
IsIp (v6 os) = length os ≡ 16

target-named :
    (dest : SocketAddr) (hostname : Option Bytes) (h : Bytes)
    → usable_proxy_hostname hostname ≡ some h
    → target dest hostname ≡ 0x03 ∷ length h % 256 ∷ (h ++ u16_bytes dest.port)
unfolding target
target-named dest hostname h e = rw (target, e)

target-address :
    (dest : SocketAddr) (hostname : Option Bytes)
    → usable_proxy_hostname hostname ≡ none
    → target dest hostname ≡ ip_type dest.ip ∷ (octets dest.ip ++ u16_bytes dest.port)
unfolding target
target-address dest hostname e = rw (target, e)

-- A datagram whose header has the length that its address type announces.
offset-read :
    (atyp : ℕ) (rest payload : Bytes)
    → udp_offset (0 ∷ 0 ∷ 0 ∷ atyp ∷ (rest ++ payload)) atyp ≡ ret (4 + length rest)
    → (off : ℕ) × (socks5_udp_payload_offset (0 ∷ 0 ∷ 0 ∷ atyp ∷ (rest ++ payload)) ≡ ret off)
      × (drop off (0 ∷ 0 ∷ 0 ∷ atyp ∷ (rest ++ payload)) ≡ payload)
unfolding socks5_udp_payload_offset
offset-read atyp rest payload e =
    let pkt : Bytes = 0 ∷ 0 ∷ 0 ∷ atyp ∷ (rest ++ payload) in
    let long : ltb (length pkt) 4 ≡ false = ground arith in
    (
      4 + length rest,
      rw (
        long,
        byte-drop pkt 2 0 _ refl,
        byte-drop pkt 3 atyp _ refl,
        e,
        le→leb (4 + length rest) (length pkt) (omega (arith, length-append rest payload)),
      ),
      drop-append (0 ∷ 0 ∷ 0 ∷ atyp ∷ rest) payload (4 + length rest) (omega arith),
    )

-- Every datagram that the client sends through the proxy decodes: the offset that
-- `socks5_udp_payload_offset` finds in what `encode_socks5_udp` makes is where the payload
-- starts, whatever the destination, with and without a host name.
pub payload_offset-encode :
    (dest : SocketAddr) (hostname : Option Bytes) (payload : Bytes)
    → IsIp dest.ip
    → (off : ℕ) × (socks5_udp_payload_offset (encode_socks5_udp dest hostname payload) ≡ ret off)
      × (drop off (encode_socks5_udp dest hostname payload) ≡ payload)
unfolding encode_socks5_udp udp_offset octets
payload_offset-encode dest hostname payload valid =
    elim (Option-cases (usable_proxy_hostname hostname)) [
      | inr (h, usable) ↦
          let (_, _, short, _) = usable-IsSafe hostname h usable in
          let n : ℕ = length h % 256 in
          let size : 4 + 1 + n + 2 ≡ 4 + length (n ∷ (h ++ u16_bytes dest.port)) =
            omega (arith, length-append h (u16_bytes dest.port)) in
          rw (target-named dest hostname h usable)
            (offset-read 3 (n ∷ (h ++ u16_bytes dest.port)) payload (ap ret size))
      | inl unusable ↦
          rw (target-address dest hostname unusable) (raw dest.ip (u16_bytes dest.port) refl valid)
    ]
  where
    raw :
        (ip : IpAddr) (port : Bytes)
        → length port ≡ 2
        → IsIp ip
        → (off : ℕ) × (socks5_udp_payload_offset
              (0 ∷ 0 ∷ 0 ∷ ((ip_type ip ∷ (octets ip ++ port)) ++ payload))
            ≡ ret off)
          × (drop off (0 ∷ 0 ∷ 0 ∷ ((ip_type ip ∷ (octets ip ++ port)) ++ payload)) ≡ payload)
    raw (v4 a b c d) port two valid =
        offset-read 1 (a ∷ b ∷ c ∷ d ∷ port) payload (ap ret (omega arith))
    raw (v6 os) port two valid =
        offset-read 4 (os ++ port) payload (ap ret (omega (arith, length-append os port)))

-- The authentication request is built just when both fields hold between 1 and 255 bytes, which
-- is what their length bytes can say.
pub build_socks5_auth_request-valid :
    (username password : Bytes)
    → 0 < length username
    → length username ≤ 255
    → 0 < length password
    → length password ≤ 255
    → build_socks5_auth_request username password
      ≡ ret (0x01 ∷ length username ∷ (username ++ (length password ∷ password)))
unfolding build_socks5_auth_request validate_socks5_auth_field
build_socks5_auth_request-valid username password u_pos u_short p_pos p_short =
    let u : length username % 256 ≡ length username = omega arith in
    let p : length password % 256 ≡ length password = omega arith in
    rw (
      ne→==-false (length username) 0 (omega arith),
      le→leb (length username) 255 u_short,
      ne→==-false (length password) 0 (omega arith),
      le→leb (length password) 255 p_short,
      u,
      p,
    )
