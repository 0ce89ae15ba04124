-- ===== src/Tests/Announcements.antt =====
-- The gateway announcements at concrete addresses.
use trans_proxy.Base.{◌≡◌, refl, [], ◌∷◌, Bytes, List, Option, some, ret, replicate}
use trans_proxy.Base.Decimal.{text}
use trans_proxy.Net.{IpAddr, v4, v6}
use trans_proxy.Config.{is_space, prepend, split}
use trans_proxy.Firewall.{is_loopback_v6}
use trans_proxy.Tunnel.Handshake.{is_unspecified}
use trans_proxy.Gateway.{
  parse_linux_default_gateway_ipv4, route_loop, skip_header, default_route, same_text, gateway_addr,
  from_hex, hex_digits, hex_value, non_empty, split_spaces, build_router_advertisement, ra_packet,
  get_interface_ipv6, note_addrs, note_addr, in_link_local_range, is_multicast,
  select_router_advertisement_addrs,
}
use trans_proxy.Base.{length, take, drop, ◌++◌}
use trans_proxy.Gateway.Announce.{options, build_router_advertisement-options}

abbrev mac : Bytes
mac = 0xaa ∷ 0xbb ∷ 0xcc ∷ 0 ∷ 0x11 ∷ 0x22 ∷ []

-- The octets of the gateway stand in the order of a little-endian machine.
gateway_of_table :
    parse_linux_default_gateway_ipv4
      (text "eth0")
      (text "h\neth0 0000A8C0 0\neth0 00000000 0101A8C0 3\n")
    ≡ ret (v4 192 168 1 1)
unfolding parse_linux_default_gateway_ipv4 route_loop skip_header default_route same_text
    gateway_addr from_hex hex_digits hex_value non_empty split_spaces is_space prepend split text
gateway_of_table = refl

abbrev prefix : IpAddr
prefix = v6 (0x20 ∷ 0x01 ∷ 0x0d ∷ 0xb8 ∷ 0 ∷ 1 ∷ 0 ∷ 2 ∷ replicate 8 5)

abbrev local_addr : IpAddr
local_addr = v6 (0xfe ∷ 0x80 ∷ replicate 14 1)

abbrev listed : Option (List IpAddr)
listed = some (local_addr ∷ v4 10 0 0 1 ∷ prefix ∷ [])

ra_enabled :
    ra_packet mac (get_interface_ipv6 listed)
    ≡ some (local_addr, build_router_advertisement mac prefix)
unfolding ra_packet get_interface_ipv6 note_addrs note_addr in_link_local_range is_multicast
    is_loopback_v6 select_router_advertisement_addrs is_unspecified
ra_enabled = refl

build_router_advertisement-options_example :
    (length (build_router_advertisement mac prefix) ≡ 56)
    × (take 16 (build_router_advertisement mac prefix)
        ≡ 134 ∷ 0 ∷ 0 ∷ 0 ∷ 64 ∷ 0x08 ∷ 7 ∷ 8 ∷ replicate 8 0)
    × (options 3 (drop 16 (build_router_advertisement mac prefix))
        ≡ some (
            (1, mac)
            ∷ (
              3,
              (64 ∷ 0xc0 ∷ 0 ∷ 39 ∷ 141 ∷ 0 ∷ 0 ∷ 9 ∷ 58 ∷ 128 ∷ 0 ∷ 0 ∷ 0 ∷ 0 ∷ [])
                  ++ (0x20 ∷ 0x01 ∷ 0x0d ∷ 0xb8 ∷ 0 ∷ 1 ∷ 0 ∷ 2 ∷ replicate 8 0),
            )
            ∷ []))
build_router_advertisement-options_example =
    build_router_advertisement-options 0xaa 0xbb 0xcc 0 0x11 0x22 0x20 0x01 0x0d 0xb8 0 1 0 2
      (replicate 8 5)
