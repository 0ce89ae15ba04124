-- ===== src/Gateway.antt =====
-- The gateway announcements, src/gateway.rs: the texts it reads from the system, the two packets
-- and the loop of `run`. The contents of the files, the addresses that `getifaddrs` lists for the
-- interface, and sending a packet are the environment's; a packet that is handed to be sent is an
-- output, whether the send succeeds or not.
pub mod Mac
pub mod Announce
use trans_proxy.Base.{
  ℕ, zero, suc, ◌+◌, ◌-◌, ◌*◌, ◌/◌, ◌%◌, ◌^◌, ◌≡◌, true, false, Bool, not, ◌&&◌, ◌||◌, List, [],
  ◌∷◌, ◌++◌, map, leb, ◌==◌, ltb, Bytes, length, take, replicate, u16_bytes, u32_bytes,
  if◌then◌else◌, Option, none, some, Run, ret, fail, panic, spin, ◌>>=◌, ◌>>◌, guard, lift,
  unwrap_or, bit_and,
}
use trans_proxy.Base.Decimal.{text}
use trans_proxy.Net.{IpAddr, v4, v6}
use trans_proxy.Config.{is_space, prepend, split, join_words, trim}
use trans_proxy.Firewall.{is_loopback_v6}
use trans_proxy.Tunnel.Handshake.{is_unspecified}

abbrev pub ra_interval_ticks : ℕ
ra_interval_ticks = 15

abbrev pub ra_router_lifetime : ℕ
ra_router_lifetime = 1800

-- `u8::from_str_radix(s, 16)` and that of `u32`: hexadecimal digits behind an optional plus.
unfoldable pub hex_value : ℕ → Option ℕ
hex_value b =
    if leb 48 b && leb b 57
    then some (b - 48)
    else if leb 97 b && leb b 102
    then some (b - 87)
    else if leb 65 b && leb b 70
    then some (b - 55)
    else none

unfoldable pub hex_digits : ℕ → ℕ → Bytes → Run ℕ
hex_digits limit acc [] = ret acc
hex_digits limit acc (b ∷ bs) = elim (hex_value b) [
  | none ↦ fail
  | some d ↦ guard (ltb (acc * 16 + d) limit) >> hex_digits limit (acc * 16 + d) bs
]

unfoldable pub from_hex : ℕ → Bytes → Run ℕ
from_hex limit [] = fail
from_hex limit (b ∷ bs) =
    if b == 43
    then (if length bs == 0 then fail else hex_digits limit 0 bs)
    else hex_digits limit 0 (b ∷ bs)

unfoldable pub parse_octets : List Bytes → Run Bytes
parse_octets [] = ret []
parse_octets (p ∷ ps) = do o ← from_hex 256 p; os ← parse_octets ps; ret (o ∷ os)

unfoldable pub parse_mac : Bytes → Run Bytes
parse_mac s = guard (length (split 58 s) == 6) >> parse_octets (split 58 s)

-- `{:02x}` of each octet, with colons between them.
unfoldable pub hex_digit : ℕ → ℕ
hex_digit d = if ltb d 10 then 48 + d else 87 + d

unfoldable pub hex_octet : ℕ → Bytes
hex_octet o = hex_digit (o / 16) ∷ hex_digit (o % 16) ∷ []

unfoldable pub show_mac : Bytes → Bytes
show_mac mac = join_words 58 (map hex_octet mac)

-- `line.split_whitespace()`.
unfoldable pub split_spaces : Bytes → List Bytes
split_spaces [] = [] ∷ []
split_spaces (b ∷ bs) =
    let parts = split_spaces bs in if is_space b then [] ∷ parts else prepend b parts

unfoldable pub non_empty : List Bytes → List Bytes
non_empty [] = []
non_empty (w ∷ ws) = let rest = non_empty ws in if length w == 0 then rest else w ∷ rest

unfoldable pub same_text : Bytes → Bytes → Bool
same_text [] [] = true
same_text [] (c ∷ cs) = false
same_text (b ∷ bs) [] = false
same_text (b ∷ bs) (c ∷ cs) = b == c && same_text bs cs

-- The gateway's field, where the line is the interface's default route.
unfoldable pub default_route : Bytes → List Bytes → Option Bytes
default_route iface (dev ∷ dest ∷ gw ∷ _) =
    if same_text dev iface && same_text dest (text "00000000") then some gw else none
default_route iface _ = none

-- `Ipv4Addr::from(gw.to_le_bytes())`.
unfoldable pub gateway_addr : Bytes → Run IpAddr
gateway_addr field = do
  gw ← from_hex (2 ^ 32) field
  ret (v4 (gw % 256) (gw / 256 % 256) (gw / 65536 % 256) (gw / 16777216 % 256))

unfoldable pub route_loop : Bytes → List Bytes → Run IpAddr
route_loop iface [] = fail
route_loop iface (line ∷ lines) = elim (default_route iface (non_empty (split_spaces line))) [
  | none ↦ route_loop iface lines
  | some gw ↦ gateway_addr gw
]

-- A carriage return is white space, and an empty last line has no fields, so that `lines` and
-- splitting at line feeds come to the same.
unfoldable pub skip_header : List Bytes → List Bytes
skip_header [] = []
skip_header (_ ∷ lines) = lines

unfoldable pub parse_linux_default_gateway_ipv4 : Bytes → Bytes → Run IpAddr
parse_linux_default_gateway_ipv4 iface route_table =
    route_loop iface (skip_header (split 10 route_table))

-- The link-local address, and the last that is neither link-local, nor loopback, nor multicast.
pub record RaAddrs : Type 0 where
  pub link_local : Option IpAddr
  pub prefix : Option IpAddr

-- `(ip.segments()[0] & 0xffc0) == 0xfe80`.
unfoldable pub in_link_local_range : Bytes → Bool
in_link_local_range (a ∷ b ∷ _) = bit_and (a * 256 + b) 0xffc0 == 0xfe80
in_link_local_range _ = false

unfoldable pub is_multicast : Bytes → Bool
is_multicast [] = false
is_multicast (a ∷ _) = a == 0xff

unfoldable pub note_addr : IpAddr → RaAddrs → RaAddrs
note_addr (v4 _ _ _ _) found = found
note_addr (v6 os) found =
    if in_link_local_range os
    then record found { link_local = some (v6 os) }
    else if not (is_loopback_v6 os) && not (is_multicast os)
    then record found { prefix = some (v6 os) }
    else found

unfoldable pub note_addrs : List IpAddr → RaAddrs → RaAddrs
note_addrs [] found = found
note_addrs (a ∷ as') found = note_addrs as' (note_addr a found)

unfoldable pub select_router_advertisement_addrs : RaAddrs → Run (IpAddr × IpAddr)
select_router_advertisement_addrs found = do
  ll ← lift found.link_local
  prefix ← lift found.prefix
  ret (ll, prefix)

-- `none` is a failure of `CString::new` or of `getifaddrs`.
unfoldable pub get_interface_ipv6 : Option (List IpAddr) → Run (IpAddr × IpAddr)
get_interface_ipv6 entries = do
  listed ← lift entries
  select_router_advertisement_addrs
      (note_addrs listed (record { link_local = none; prefix = none }))

unfoldable pub addr_octets : IpAddr → Bytes
addr_octets (v4 a b c d) = a ∷ b ∷ c ∷ d ∷ []
addr_octets (v6 os) = os

unfoldable pub build_gratuitous_arp : Bytes → IpAddr → Bytes
build_gratuitous_arp src_mac gateway_ip =
    replicate 6 0xff
    ++ (src_mac
        ++ (0x08
            ∷ 0x06
            ∷ 0x00
            ∷ 0x01
            ∷ 0x08
            ∷ 0x00
            ∷ 6
            ∷ 4
            ∷ 0x00
            ∷ 0x02
            ∷ (src_mac
                ++ (addr_octets gateway_ip ++ (replicate 6 0xff ++ addr_octets gateway_ip)))))

unfoldable pub prefix_bytes : Bytes → Bytes
prefix_bytes os = take 8 os ++ replicate 8 0

unfoldable pub build_router_advertisement : Bytes → IpAddr → Bytes
build_router_advertisement src_mac prefix =
    134
    ∷ 0
    ∷ 0
    ∷ 0
    ∷ 64
    ∷ 0x08
    ∷ (u16_bytes ra_router_lifetime
        ++ (u32_bytes 0
            ++ (u32_bytes 0
                ++ (1
                    ∷ 1
                    ∷ (src_mac
                        ++ (3
                            ∷ 4
                            ∷ 64
                            ∷ 0xc0
                            ∷ (u32_bytes 2592000
                                ++ (u32_bytes 604800
                                    ++ (u32_bytes 0 ++ prefix_bytes (addr_octets prefix))))))))))

-- What `run` hands to be sent.
pub data Announcement : Type 0 where
  arp : Bytes → Announcement
  ra : IpAddr → Bytes → Announcement

-- The source and the bytes of the advertisement, where it is enabled.
unfoldable pub ra_packet : Bytes → Run (IpAddr × IpAddr) → Option (IpAddr × Bytes)
ra_packet mac found =
    let unspecified : IpAddr = v6 (replicate 16 0) in
    let addrs : Run (IpAddr × IpAddr) = unwrap_or (unspecified, unspecified) found in
    elim addrs [
      | ret a ↦ if is_unspecified a.0 then none else some (a.0, build_router_advertisement mac a.1)
      | fail ↦ none
      | panic ↦ none
      | spin ↦ none
    ]

unfoldable pub due_ra : Option (IpAddr × Bytes) → ℕ → List Announcement
due_ra none tick_count = []
due_ra (some r) tick_count = if tick_count % ra_interval_ticks == 0 then ra r.0 r.1 ∷ [] else []

-- One round of the loop, at the count behind its increment.
unfoldable pub on_tick : Bytes → Option (IpAddr × Bytes) → ℕ → List Announcement
on_tick arp_pkt ra_pkt tick_count = arp arp_pkt ∷ due_ra ra_pkt tick_count

-- So many rounds.
unfoldable pub ticks : Bytes → Option (IpAddr × Bytes) → ℕ → List Announcement
ticks arp_pkt ra_pkt zero = []
ticks arp_pkt ra_pkt (suc n) = ticks arp_pkt ra_pkt n ++ on_tick arp_pkt ra_pkt (suc n)

-- `run`, for so many rounds: what the system's files and `getifaddrs` say comes as arguments. No
-- packet is sent where it returns an error.
unfoldable pub run : Bytes → Bytes → Bytes → Option (List IpAddr) → ℕ → Run (List Announcement)
run iface address route_table entries n = do
  mac ← parse_mac (trim address)
  gateway_ip ← parse_linux_default_gateway_ipv4 iface route_table
  ret (ticks (build_gratuitous_arp mac gateway_ip) (ra_packet mac (get_interface_ipv6 entries)) n)
