-- ===== src/Firewall/Addresses.antt =====
-- The ports and addresses that the firewall is configured with, src/firewall/mod.rs.
use trans_proxy.Base.{
  ℕ, zero, suc, ◌+◌, ◌*◌, ◌/◌, ◌<◌, ◌≡◌, inl, inr, refl, true, false, Bool, not, ◌&&◌, ◌||◌, List,
  [], ◌∷◌, arith, ◌==◌, Bytes, Option, none, some, Bool-cases, Option-cases, if◌then◌else◌, bit_and,
}
use trans_proxy.Net.{IpAddr, v4, v6, SocketAddr}
use trans_proxy.Tunnel.Handshake.{is_unspecified}
use trans_proxy.Config.{Config, contains, proxy_udp_enabled}
use trans_proxy.Firewall.{
  FirewallConfig, InterfaceAddrs, from_config, without_dns, quic_block_ports, listen_target_v4,
  listen_target_v6, dns_target_v4, dns_target_v6, has_link_local_bits, is_loopback_v6, pick_addr,
  scan_addrs, get_interface_ips,
}

without_dns-contains :
    (p : ℕ) (ps : List ℕ) → contains p (without_dns ps) ≡ (not (p == 53) && contains p ps)
unfolding contains without_dns
without_dns-contains p [] = ground arith
without_dns-contains p (q ∷ ps) = ground (arith, without_dns-contains p ps)

-- The ports that are to be caught by this configuration.
abbrev pub is_caught : Config → ℕ → Bool
is_caught c p =
    not c.allow_quic && elim c.ports [ none ↦ p == 443 | some ps ↦ not (p == 53) && contains p ps ]

chosen_ports :
    (block : Bool) (ports : Option (List ℕ)) (p : ℕ)
    → contains p
        (if not block then [] else elim ports [ some ps ↦ without_dns ps | none ↦ 443 ∷ [] ])
      ≡ (block && elim ports [ none ↦ p == 443 | some ps ↦ not (p == 53) && contains p ps ])
unfolding contains
chosen_ports false ports p = refl
chosen_ports true none p = ground arith
chosen_ports true (some ps) p = without_dns-contains p ps

-- From the command line to the firewall: QUIC is caught on exactly the ports that are asked for,
-- except 53, or on 443 where none are, unless it is allowed; and where UDP is to be proxied,
-- QUIC is blocked, so that the fallback drops it.
pub quic_block_ports-from_config :
    (interface_ip : Bytes → Option IpAddr) (c : Config) (p : ℕ)
    → (contains p (quic_block_ports (from_config interface_ip c)) ≡ is_caught c p)
      × ((from_config interface_ip c).proxy_udp && not (from_config interface_ip c).block_quic
          ≡ false)
unfolding quic_block_ports from_config proxy_udp_enabled
quic_block_ports-from_config interface_ip c p =
    (chosen_ports (not c.allow_quic) c.ports p, ground arith)

abbrev is_v4 : IpAddr → Bool
is_v4 (v4 _ _ _ _) = true
is_v4 (v6 _) = false

-- An address that packets of the family can be sent to.
abbrev pub is_usable_v4 : IpAddr → Bool
is_usable_v4 a = is_v4 a && not (is_unspecified a)

abbrev pub is_usable_v6 : IpAddr → Bool
is_usable_v6 a = not (is_v4 a) && not (is_unspecified a)

abbrev pub all_some : (IpAddr → Bool) → Option IpAddr → Bool
all_some f none = true
all_some f (some a) = f a

abbrev pub target_ip : Option SocketAddr → Option IpAddr
target_ip none = none
target_ip (some t) = some t.ip

listen_v4-usable :
    (iface : Option IpAddr) (ip : IpAddr) (port : ℕ)
    → all_some is_usable_v4 iface ≡ true
    → all_some is_usable_v4 (target_ip (listen_target_v4 iface (record { ip = ip; port = port })))
      ≡ true
unfolding listen_target_v4
listen_v4-usable none (v4 a b c d) port h = ground arith
listen_v4-usable (some i) (v4 a b c d) port h = ground arith
listen_v4-usable none (v6 os) port h = ground arith
listen_v4-usable (some i) (v6 os) port h = ground arith

listen_v6-usable :
    (iface : Option IpAddr) (ip : IpAddr) (port : ℕ)
    → all_some is_usable_v6 iface ≡ true
    → all_some is_usable_v6 (target_ip (listen_target_v6 iface (record { ip = ip; port = port })))
      ≡ true
unfolding listen_target_v6
listen_v6-usable none (v4 a b c d) port h = ground arith
listen_v6-usable (some i) (v4 a b c d) port h = ground arith
listen_v6-usable none (v6 os) port h = ground arith
listen_v6-usable (some i) (v6 os) port h = ground arith

-- DNS is never redirected to a wildcard address, nor to one of the other family, where the
-- interface's addresses are specific ones of their families.
pub dns_target-usable :
    (c : FirewallConfig) (addrs : InterfaceAddrs)
    → all_some is_usable_v4 addrs.ipv4 ≡ true
    → all_some is_usable_v6 addrs.ipv6 ≡ true
    → (all_some is_usable_v4 (target_ip (dns_target_v4 c addrs.ipv4)) ≡ true)
      × (all_some is_usable_v6 (target_ip (dns_target_v6 c addrs.ipv6)) ≡ true)
unfolding dns_target_v4 dns_target_v6
dns_target-usable c addrs h k = elim (Option-cases c.dns_listen) [
  | inl e ↦ rw (dns_target_v4, dns_target_v6, e) (refl, refl)
  | inr (listen, e) ↦
      rw (dns_target_v4, dns_target_v6, e)
        (
          listen_v4-usable addrs.ipv4 listen.ip listen.port h,
          listen_v6-usable addrs.ipv6 listen.ip listen.port k,
        )
]

-- An address of fe80::/10.
abbrev pub is_link_local : IpAddr → Bool
is_link_local (v6 (a ∷ b ∷ _)) = a == 0xfe && (b / 64 == 2)
is_link_local _ = false

abbrev all_below : ℕ → (ℕ → Bool) → Bool
all_below zero f = true
all_below (suc n) f = f n && all_below n f

all_below_sound : (n : ℕ) (f : ℕ → Bool) (b : ℕ) → all_below n f ≡ true → b < n → f b ≡ true
all_below_sound zero f b h lt = absurd (omega arith)
all_below_sound (suc n) f b h lt = ground (arith, all_below_sound n f b)

-- The second octet of an address of fe80::/10, against the code's mask.
abbrev masked : ℕ → Bool
masked b = not (b / 64 == 2) || bit_and (0xfe * 256 + b) 0xfe80 == 0xfe80

masked-all : all_below 192 masked ≡ true
masked-all = refl

link_local-bits : (os : Bytes) → is_link_local (v6 os) ≡ true → has_link_local_bits os ≡ true
unfolding has_link_local_bits
link_local-bits [] h = cc
link_local-bits (a ∷ []) h = cc
link_local-bits (a ∷ b ∷ os) h =
    let first : a ≡ 0xfe = ground arith in
    let second : (b / 64 == 2) ≡ true = ground arith in
    let found : masked b ≡ true = all_below_sound 192 masked b masked-all (ground arith) in
    rw first (ground arith)

-- Not of fe80::/10, where there is one.
abbrev pub none_local : Option IpAddr → Bool
none_local none = true
none_local (some a) = not (is_link_local a)

pick-none_local :
    (a : IpAddr) (found : InterfaceAddrs)
    → none_local found.ipv6 ≡ true
    → none_local (pick_addr a found).ipv6 ≡ true
unfolding pick_addr
pick-none_local (v4 a b c d) found h = elim (Option-cases found.ipv4) [
  | inl e ↦ rw (pick_addr, e) h
  | inr (x, e) ↦ rw (pick_addr, e) h
]
pick-none_local (v6 os) found h = elim (Option-cases found.ipv6) [
  | inr (x, e) ↦ rw (pick_addr, e) h
  | inl e ↦ elim (Bool-cases (not (is_loopback_v6 os) && not (has_link_local_bits os))) [
    | inr k ↦ rw (pick_addr, e, k) h
    | inl k ↦ rw (pick_addr, e, k) (ground (arith, link_local-bits os))
  ]
]

scan-none_local :
    (as' : List IpAddr) (found : InterfaceAddrs)
    → none_local found.ipv6 ≡ true
    → none_local (scan_addrs as' found).ipv6 ≡ true
unfolding scan_addrs
scan-none_local [] found h = h
scan-none_local (a ∷ as') found h =
    scan-none_local as' (pick_addr a found) (pick-none_local a found h)

-- Whatever addresses the interface has, the IPv6 address that the rules name is not link-local.
pub get_interface_ips-none_local :
    (entries : Option (List IpAddr)) → none_local (get_interface_ips entries).ipv6 ≡ true
unfolding get_interface_ips
get_interface_ips-none_local none = refl
get_interface_ips-none_local (some entries) = scan-none_local entries _ refl
