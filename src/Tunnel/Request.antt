-- ===== src/Tunnel/Request.antt =====
-- The messages of src/tunnel.rs for a SOCKS5 proxy, as bytes.
pub mod RoundTrip
use trans_proxy.Base.{
  ℕ, zero, suc, ◌+◌, ◌-◌, ◌*◌, ◌≤◌, ◌<◌, ◌≡◌, ◌≢◌, ◌⊎◌, inl, inr, refl, sym, ap, ◌∙◌, true, false,
  Bool, not, ◌&&◌, ◌||◌, List, [], ◌∷◌, ◌++◌, map, arith, append_assoc, append-nil, ltb, leb,
  le→leb, ◌==◌, lt→ltb, ne→==-false, ==_refl, ◌/◌, ◌%◌, max, min, bit_and, bit_or, Bytes, length,
  drop, take, replicate, u16_bytes, u32_bytes, length-append, length-take, length-drop,
  length_from_drop, drop_past, take-append, drop-append, take-append-drop, Run, ret, fail, panic,
  spin, ◌>>=◌, ◌>>◌, guard, attempt, unwrap_or, byte, slice, slice_le, byte-drop, be16, be32,
  overwrite, if◌then◌else◌, Bool-cases, both_true, lift, get_elem?, Option, none, some, Returns,
  Returns-cases, overwrite_le, unwrap_or-Returns, be16_lt, byte_lt, Gives, ltb→lt, leb→le,
}
use trans_proxy.Base.{u16_limit, length-map}
use trans_proxy.Net.{IpAddr, v4, v6, SocketAddr}
use trans_proxy.Tunnel.Host.{usable_proxy_hostname, usable-IsSafe}

unfoldable pub octets : IpAddr → Bytes
octets (v4 a b c d) = a ∷ b ∷ c ∷ d ∷ []
octets (v6 os) = os

abbrev pub ip_type : IpAddr → ℕ
ip_type (v4 _ _ _ _) = 0x01
ip_type (v6 _) = 0x04

-- `ATYP`, the address and the port, as both requests push them: the host name where one is
-- usable, the address otherwise. `h.len() as u8` wraps.
unfoldable pub target : SocketAddr → Option Bytes → Bytes
target dest hostname = elim (usable_proxy_hostname hostname) [
  | some h ↦ 0x03 ∷ length h % 256 ∷ (h ++ u16_bytes dest.port)
  | none ↦ ip_type dest.ip ∷ (octets dest.ip ++ u16_bytes dest.port)
]

unfoldable pub socks5_connect_request : SocketAddr → Option Bytes → Bytes
socks5_connect_request dest hostname = 0x05 ∷ 0x01 ∷ 0x00 ∷ target dest hostname

unfoldable pub encode_socks5_udp : SocketAddr → Option Bytes → Bytes → Bytes
encode_socks5_udp dest hostname payload = 0x00 ∷ 0x00 ∷ 0x00 ∷ (target dest hostname ++ payload)

-- The length of the header that the address type announces.
unfoldable pub udp_offset : Bytes → ℕ → Run ℕ
udp_offset buf atyp =
    let domain = (do n ← lift (get_elem? buf 4); ret (4 + 1 + n + 2)) in
    if atyp == 0x01
    then ret (4 + 4 + 2)
    else if atyp == 0x04
    then ret (4 + 16 + 2)
    else if atyp == 0x03
    then domain
    else fail

unfoldable pub socks5_udp_payload_offset : Bytes → Run ℕ
socks5_udp_payload_offset buf =
    let read = do
      frag ← byte buf 2
      guard (frag == 0x00)
      atyp ← byte buf 3
      off ← udp_offset buf atyp
      guard (leb off (length buf))
      ret off
    in if ltb (length buf) 4 then fail else read

-- `validate_socks5_auth_field`, where `fail` stands for the error.
unfoldable pub validate_socks5_auth_field : Bytes → Run (Unit {0})
validate_socks5_auth_field value = do
  guard (not (length value == 0))
  guard (leb (length value) 255)
  ret tt

unfoldable pub build_socks5_auth_request : Bytes → Bytes → Run Bytes
build_socks5_auth_request username password = do
  _ ← validate_socks5_auth_field username
  _ ← validate_socks5_auth_field password
  ret (0x01 ∷ length username % 256 ∷ (username ++ (length password % 256 ∷ password)))
