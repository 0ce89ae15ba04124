-- ===== src/Gateway/Announce.antt =====
-- The announcements of src/gateway.rs: what a receiver reads from the two packets, and which packets
-- the loop sends.
use trans_proxy.Base.{
  ℕ, zero, suc, ◌+◌, ◌-◌, ◌*◌, ◌/◌, ◌≡◌, inl, inr, refl, true, false, Bool, not, ◌&&◌, ◌||◌, List,
  [], ◌∷◌, ◌++◌, arith, ◌==◌, Bytes, length, take, drop, replicate, if◌then◌else◌, Option, none,
  some, Run, ret, fail, panic, spin, Bool-cases, Returns, ltb,
}
use trans_proxy.Net.{IpAddr, v4, v6}
use trans_proxy.Tunnel.Handshake.{is_unspecified}
use trans_proxy.Gateway.{
  build_gratuitous_arp, build_router_advertisement, prefix_bytes, addr_octets, Announcement, arp,
  ra, ra_packet, due_ra, on_tick, ticks, RaAddrs, in_link_local_range, is_multicast, note_addr,
  note_addrs, select_router_advertisement_addrs, get_interface_ipv6,
}

-- What an ARP packet on Ethernet says (RFC 826): the frame's ends, and who is at which address.
pub record ArpReply : Type 0 where
  pub to : Bytes
  pub from : Bytes
  pub sender_mac : Bytes
  pub sender_ip : Bytes
  pub target_mac : Bytes
  pub target_ip : Bytes

abbrev pub part : ℕ → ℕ → Bytes → Bytes
part from n p = take n (drop from p)

-- The fields of a packet whose fixed part is that of an ARP reply for IPv4 on Ethernet.
abbrev pub Announces : Bytes → ArpReply → Type 0
Announces p r =
    (length p ≡ 42)
    × (part 0 6 p ≡ r.to)
    × (part 6 6 p ≡ r.from)
    × (part 12 10 p ≡ 0x08 ∷ 0x06 ∷ 0 ∷ 1 ∷ 0x08 ∷ 0 ∷ 6 ∷ 4 ∷ 0 ∷ 2 ∷ [])
    × (part 22 6 p ≡ r.sender_mac)
    × (part 28 4 p ≡ r.sender_ip)
    × (part 32 6 p ≡ r.target_mac)
    × (part 38 4 p ≡ r.target_ip)

-- The ARP packet is a broadcast reply by which the gateway's IPv4 address is at this hardware
-- address.
pub build_gratuitous_arp-Announces :
    (a b c d e f w x y z : ℕ)
    → Announces (build_gratuitous_arp (a ∷ b ∷ c ∷ d ∷ e ∷ f ∷ []) (v4 w x y z)) (record {
      to = replicate 6 0xff;
      from = a ∷ b ∷ c ∷ d ∷ e ∷ f ∷ [];
      sender_mac = a ∷ b ∷ c ∷ d ∷ e ∷ f ∷ [];
      sender_ip = w ∷ x ∷ y ∷ z ∷ [];
      target_mac = replicate 6 0xff;
      target_ip = w ∷ x ∷ y ∷ z ∷ [];
    })
unfolding build_gratuitous_arp addr_octets
build_gratuitous_arp-Announces a b c d e f w x y z =
    (refl, refl, refl, refl, refl, refl, refl, refl)

-- The options behind the fixed part of a router advertisement (RFC 4861): a type, a length in
-- units of eight bytes, which is not zero, and the data. `none` is a malformed option.
pub options : ℕ → Bytes → Option (List (ℕ × Bytes))
options zero p = none
options (suc f) [] = some []
options (suc f) (t ∷ []) = none
options (suc f) (t ∷ n ∷ rest) =
    let more = options f (drop (n * 8 - 2) rest) in
    if n == 0 || ltb (length rest) (n * 8 - 2)
    then none
    else elim more as (λ _. Option (List (ℕ × Bytes))) [
      | none ↦ none
      | some os ↦ some ((t, take (n * 8 - 2) rest) ∷ os)
    ]

-- The router advertisement has 56 bytes, high preference and a router lifetime of 1800 seconds, and a
-- reader of options finds in it the hardware address, and a prefix of 64 bits, on-link and for
-- autonomous configuration, that is the first half of the address and zeros.
pub build_router_advertisement-options :
    (a b c d e f p q r s t u v w : ℕ) (low : Bytes)
    → let packet =
        build_router_advertisement
          (a ∷ b ∷ c ∷ d ∷ e ∷ f ∷ [])
          (v6 (p ∷ q ∷ r ∷ s ∷ t ∷ u ∷ v ∷ w ∷ low)) in
      (length packet ≡ 56)
      × (take 16 packet ≡ 134 ∷ 0 ∷ 0 ∷ 0 ∷ 64 ∷ 0x08 ∷ 7 ∷ 8 ∷ replicate 8 0)
      × (options 3 (drop 16 packet)
          ≡ some (
              (1, a ∷ b ∷ c ∷ d ∷ e ∷ f ∷ [])
              ∷ (
                3,
                64
                    ∷ 0xc0
                    ∷ 0
                    ∷ 39
                    ∷ 141
                    ∷ 0
                    ∷ 0
                    ∷ 9
                    ∷ 58
                    ∷ 128
                    ∷ 0
                    ∷ 0
                    ∷ 0
                    ∷ 0
                    ∷ p
                    ∷ q
                    ∷ r
                    ∷ s
                    ∷ t
                    ∷ u
                    ∷ v
                    ∷ w
                    ∷ replicate 8 0,
              )
              ∷ []))
unfolding build_router_advertisement addr_octets prefix_bytes options
build_router_advertisement-options a b c d e f p q r s t u v w low = (refl, refl, refl)

abbrev pub arps : List Announcement → ℕ
arps [] = 0
arps (arp _ ∷ ps) = suc (arps ps)
arps (ra _ _ ∷ ps) = arps ps

abbrev pub ras : List Announcement → ℕ
ras [] = 0
ras (arp _ ∷ ps) = ras ps
ras (ra _ _ ∷ ps) = suc (ras ps)

arps-append : (ps qs : List Announcement) → arps (ps ++ qs) ≡ arps ps + arps qs
arps-append [] qs = omega arith
arps-append (arp _ ∷ ps) qs = omega (arith, arps-append ps qs)
arps-append (ra _ _ ∷ ps) qs = arps-append ps qs

ras-append : (ps qs : List Announcement) → ras (ps ++ qs) ≡ ras ps + ras qs
ras-append [] qs = omega arith
ras-append (arp _ ∷ ps) qs = ras-append ps qs
ras-append (ra _ _ ∷ ps) qs = omega (arith, ras-append ps qs)

abbrev pub expected_ras : Option (IpAddr × Bytes) → ℕ → ℕ
expected_ras none n = 0
expected_ras (some r) n = n / 15

due-counts :
    (r : Option (IpAddr × Bytes)) (n : ℕ)
    → (arps (due_ra r (suc n)) ≡ 0)
      × (expected_ras r n + ras (due_ra r (suc n)) ≡ expected_ras r (suc n))
unfolding due_ra
due-counts none n = (refl, refl)
due-counts (some r) n = ground arith

-- In any number of rounds, one ARP packet is sent in each, and, where advertising is enabled, one
-- router advertisement in every fifteenth, else none.
pub ticks-counts :
    (a : Bytes) (r : Option (IpAddr × Bytes)) (n : ℕ)
    → (arps (ticks a r n) ≡ n) × (ras (ticks a r n) ≡ expected_ras r n)
unfolding ticks on_tick
ticks-counts a none zero = (refl, refl)
ticks-counts a (some r) zero = (refl, refl)
ticks-counts a r (suc n) =
    let (ih_arps, ih_ras) = ticks-counts a r n in
    let (no_arps, more) = due-counts r n in
    (
      omega (arith, arps-append (ticks a r n) (arp a ∷ due_ra r (suc n)), ih_arps, no_arps),
      omega (arith, ras-append (ticks a r n) (arp a ∷ due_ra r (suc n)), ih_ras, more),
    )

abbrev local_source : IpAddr → Bool
local_source (v4 _ _ _ _) = false
local_source (v6 os) = in_link_local_range os

abbrev global_prefix : IpAddr → Bool
global_prefix (v4 _ _ _ _) = false
global_prefix (v6 os) = not (in_link_local_range os) && not (is_multicast os)

abbrev all_some : (IpAddr → Bool) → Option IpAddr → Bool
all_some f none = true
all_some f (some a) = f a

-- Of the addresses found: the one is link-local, and the other neither that nor multicast.
abbrev pub IsFound : RaAddrs → Type 0
IsFound found =
    (all_some local_source found.link_local ≡ true) × (all_some global_prefix found.prefix ≡ true)

note_addr-IsFound : (a : IpAddr) (found : RaAddrs) → IsFound found → IsFound (note_addr a found)
unfolding note_addr
note_addr-IsFound (v4 _ _ _ _) found h = h
note_addr-IsFound (v6 os) found h = ground arith

note_addrs-IsFound :
    (as' : List IpAddr) (found : RaAddrs) → IsFound found → IsFound (note_addrs as' found)
unfolding note_addrs
note_addrs-IsFound [] found h = h
note_addrs-IsFound (a ∷ as') found h =
    note_addrs-IsFound as' (note_addr a found) (note_addr-IsFound a found h)

-- A router's own link-local address, and an address whose prefix may be advertised.
abbrev pub IsRouter : IpAddr × IpAddr → Type 0
IsRouter a = (local_source a.0 ≡ true) × (global_prefix a.1 ≡ true)

select-IsRouter :
    (ll prefix : Option IpAddr)
    → IsFound (record { link_local = ll; prefix = prefix })
    → Returns IsRouter
        (select_router_advertisement_addrs (record { link_local = ll; prefix = prefix }))
unfolding select_router_advertisement_addrs
select-IsRouter none prefix h = tt
select-IsRouter (some l) none h = tt
select-IsRouter (some l) (some p) h = h

get_interface_ipv6-IsRouter :
    (entries : Option (List IpAddr)) → Returns IsRouter (get_interface_ipv6 entries)
unfolding get_interface_ipv6
get_interface_ipv6-IsRouter none = tt
get_interface_ipv6-IsRouter (some as') =
    select-IsRouter _ _
      (note_addrs-IsFound as' (record { link_local = none; prefix = none }) (refl, refl))

ra_packet-IsRouter :
    (mac : Bytes) (r : Run (IpAddr × IpAddr)) (src : IpAddr) (packet : Bytes)
    → Returns IsRouter r
    → ra_packet mac r ≡ some (src, packet)
    → (global : IpAddr) × IsRouter (src, global) × (packet ≡ build_router_advertisement mac global)
unfolding ra_packet is_unspecified
ra_packet-IsRouter mac (ret a) src packet h e = elim (Bool-cases (is_unspecified a.0)) [
  | inl u ↦ absurd (ground arith)
  | inr u ↦ let same : src ≡ a.0 = ground arith in (a.1, rw same h, ground arith)
]
ra_packet-IsRouter mac fail src packet h e = cc
ra_packet-IsRouter mac panic src packet h e = absurd h
ra_packet-IsRouter mac spin src packet h e = absurd h

-- Where advertising is enabled, it is from a link-local address of the interface, and the prefix is
-- that of an address which is neither link-local nor multicast.
pub ra-IsRouter :
    (mac : Bytes) (entries : Option (List IpAddr)) (src : IpAddr) (packet : Bytes)
    → ra_packet mac (get_interface_ipv6 entries) ≡ some (src, packet)
    → (global : IpAddr) × IsRouter (src, global) × (packet ≡ build_router_advertisement mac global)
ra-IsRouter mac entries src packet e =
    ra_packet-IsRouter mac (get_interface_ipv6 entries) src packet
      (get_interface_ipv6-IsRouter entries) e
