-- ===== src/Firewall.antt =====
-- The firewall's configuration, src/firewall/mod.rs, and the commands that it runs. A command is
-- its words. `exec` stands for the operating system: whether a command succeeds after those that
-- ran before it. The state is the record of the commands that ran, in order, each with its outcome.
pub mod Action
pub mod Nftables
pub mod Plan
pub mod Verdicts
pub mod Done
pub mod NoLeak
pub mod Outcome
pub mod Chains
pub mod Addresses
use trans_proxy.Base.{
  ℕ, ◌+◌, ◌*◌, ◌≡◌, refl, true, false, Bool, not, ◌&&◌, ◌||◌, List, [], ◌∷◌, ◌++◌, map, ◌==◌, Bytes,
  if◌then◌else◌, Option, none, some, bit_and,
}
use trans_proxy.Net.{IpAddr, v4, v6, SocketAddr}
use trans_proxy.Tunnel.Handshake.{is_unspecified}
use trans_proxy.Config.{Config, UpstreamProxy, proxy_udp_enabled, resolve_dns_listen}

pub record InterfaceAddrs : Type 0 where
  pub ipv4 : Option IpAddr
  pub ipv6 : Option IpAddr

pub record FirewallConfig : Type 0 where
  pub interface : Bytes
  pub proxy_port : ℕ
  pub fwmark : Option ℕ
  pub upstream_addr : Option SocketAddr
  pub ports : Option (List ℕ)
  pub dns_listen : Option SocketAddr
  pub block_quic : Bool
  pub proxy_udp : Bool

abbrev pub map_option {ℓ κ} : {A : Type ℓ} {B : Type κ} → (A → B) → Option A → Option B
map_option f none = none
map_option f (some a) = some (f a)

unfoldable pub from_config : (Bytes → Option IpAddr) → Config → FirewallConfig
from_config interface_ip c = record {
  interface = c.interface;
  proxy_port = c.listen_addr.port;
  fwmark = if c.local_traffic then some c.fwmark else none;
  upstream_addr =
      if c.local_traffic then map_option (λ (p : UpstreamProxy). p.addr) c.upstream_proxy else none;
  ports = c.ports;
  dns_listen = resolve_dns_listen interface_ip c;
  block_quic = not c.allow_quic;
  proxy_udp = proxy_udp_enabled c;
}

unfoldable pub without_dns : List ℕ → List ℕ
without_dns [] = []
without_dns (p ∷ ps) = let rest = without_dns ps in if p == 53 then rest else p ∷ rest

unfoldable pub quic_block_ports : FirewallConfig → List ℕ
quic_block_ports c =
    if not c.block_quic
    then []
    else elim c.ports [ some ports ↦ without_dns ports | none ↦ 443 ∷ [] ]

abbrev pub with_port : ℕ → Option IpAddr → Option SocketAddr
with_port port = map_option λ ip. record { ip = ip; port = port }

unfoldable pub listen_target_v4 : Option IpAddr → SocketAddr → Option SocketAddr
listen_target_v4 iface_v4 listen = elim listen.ip [
  | v4 a b c d ↦ if is_unspecified (v4 a b c d) then with_port listen.port iface_v4 else some listen
  | v6 os ↦ if is_unspecified (v6 os) then with_port listen.port iface_v4 else none
]

unfoldable pub dns_target_v4 : FirewallConfig → Option IpAddr → Option SocketAddr
dns_target_v4 c iface_v4 = elim c.dns_listen [
  | none ↦ none
  | some listen ↦ listen_target_v4 iface_v4 listen
]

unfoldable pub listen_target_v6 : Option IpAddr → SocketAddr → Option SocketAddr
listen_target_v6 iface_v6 listen = elim listen.ip [
  | v6 os ↦ if is_unspecified (v6 os) then with_port listen.port iface_v6 else some listen
  | v4 _ _ _ _ ↦ none
]

unfoldable pub dns_target_v6 : FirewallConfig → Option IpAddr → Option SocketAddr
dns_target_v6 c iface_v6 = elim c.dns_listen [
  | none ↦ none
  | some listen ↦ listen_target_v6 iface_v6 listen
]

-- The loop of `get_interface_ips` over what `getifaddrs` lists for the interface by name: the
-- addresses of the entries that have the name, an entry of another family being none.
unfoldable pub is_loopback_v6 : Bytes → Bool
is_loopback_v6 [] = false
is_loopback_v6 (o ∷ []) = o == 1
is_loopback_v6 (o ∷ p ∷ os) = let rest = is_loopback_v6 (p ∷ os) in o == 0 && rest

-- `segments()[0] & 0xfe80`.
unfoldable pub has_link_local_bits : Bytes → Bool
has_link_local_bits (a ∷ b ∷ _) = bit_and (a * 256 + b) 0xfe80 == 0xfe80
has_link_local_bits _ = false

unfoldable pub pick_addr : IpAddr → InterfaceAddrs → InterfaceAddrs
pick_addr (v4 a b c d) found = elim found.ipv4 [
  | none ↦ record found { ipv4 = some (v4 a b c d) }
  | some _ ↦ found
]
pick_addr (v6 os) found = elim found.ipv6 [
  | none ↦
      if not (is_loopback_v6 os) && not (has_link_local_bits os)
      then record found { ipv6 = some (v6 os) }
      else found
  | some _ ↦ found
]

unfoldable pub scan_addrs : List IpAddr → InterfaceAddrs → InterfaceAddrs
scan_addrs [] found = found
scan_addrs (a ∷ as') found = scan_addrs as' (pick_addr a found)

-- `none` is a failure of `CString::new` or of `getifaddrs`.
unfoldable pub get_interface_ips : Option (List IpAddr) → InterfaceAddrs
get_interface_ips none = record { ipv4 = none; ipv6 = none }
get_interface_ips (some entries) = scan_addrs entries (record { ipv4 = none; ipv6 = none })

-- `get_interface_ip` of src/config.rs runs the same loop.
unfoldable pub get_interface_ip : Option (List IpAddr) → Option IpAddr
get_interface_ip entries =
    let found = get_interface_ips entries in
    elim found.ipv4 [ some ip ↦ some ip | none ↦ found.ipv6 ]
