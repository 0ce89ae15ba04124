-- ===== src/Tests/Rules.antt =====
-- The firewall of a gateway with a SOCKS5 upstream, at concrete rules and packets.
use trans_proxy.Base.{
  replicate, ◌≡◌, inl, refl, true, false, Bool, not, [], ◌∷◌, Bytes, get_elem?, List, Option, none,
  some,
}
use trans_proxy.Base.Decimal.{text}
use trans_proxy.Net.{v4, v6, IpAddr, SocketAddr}
use trans_proxy.Tunnel.Handshake.{without}
use trans_proxy.Config.{contains, Config, socks5, is_socks5, proxy_udp_enabled, resolve_dns_listen}
use trans_proxy.Firewall.{FirewallConfig, InterfaceAddrs, from_config, quic_block_ports}
use trans_proxy.Firewall.Action.{Command, Log, run_all, ◌>>◌}
use trans_proxy.Firewall.Done.{Done, Ends}
use trans_proxy.Firewall.Nftables.{ip, ip6, family_table, setup_ipv4_output, setup_ipv6_output}
use trans_proxy.Firewall.Nftables.Quic.{setup_udp_handling}
use trans_proxy.Firewall.Nftables.Setup.{setup, enable_forwarding}
use trans_proxy.Firewall.Plan.{
  of_family, Packet, tcp, Nft, output_rules, prerouting_commands, accept, holds, Bytes-discrete,
}
use trans_proxy.Firewall.Verdicts.{first_match, expected_output}
use trans_proxy.Firewall.Chains.{MakesOutput, setup_output-verdict}
use trans_proxy.Firewall.NoLeak.{Caught, Dropped, udp_handling-Dropped}
use trans_proxy.Firewall.Outcome.{
  Listed, ipv4_commands, setup-succeeds_iff, setup-Done, setup-Caught,
}

abbrev gateway_ip : IpAddr
gateway_ip = v4 192 168 1 2

abbrev upstream : SocketAddr
upstream = record { ip = v4 10 0 0 1; port = 1080 }

abbrev command_line : Config
command_line = record {
  listen_addr = record { ip = v4 0 0 0 0; port = 8443 };
  upstream_proxy = some (record { protocol = socks5 without; addr = upstream });
  dns = true;
  dns_listen = none;
  interface = text "eth0";
  local_traffic = true;
  fwmark = 1;
  ports = none;
  allow_quic = false;
}

abbrev interface_ip : Bytes → Option IpAddr
interface_ip name = some gateway_ip

abbrev config : FirewallConfig
config = record {
  interface = text "eth0";
  proxy_port = 8443;
  fwmark = some 1;
  upstream_addr = some upstream;
  ports = none;
  dns_listen = some (record { ip = gateway_ip; port = 53 });
  block_quic = true;
  proxy_udp = true;
}

from_command_line : from_config interface_ip command_line ≡ config
unfolding from_config resolve_dns_listen proxy_udp_enabled is_socks5
from_command_line = refl

abbrev addrs : InterfaceAddrs
addrs = record { ipv4 = some gateway_ip; ipv6 = none }

-- Every command succeeds, but those of nft that name the chain for TPROXY.
abbrev refuses : Log → Command → Bool
refuses log c = elim (get_elem? c 5) [
  | none ↦ true
  | some w ↦ not (holds (Bytes-discrete w (text "tproxy_prerouting")))
]

abbrev accepts : Log → Command → Bool
accepts log c = true

abbrev show_ip : IpAddr → Bytes
show_ip a = text "192.168.1.2"

abbrev nft : Nft
nft = record {
  decide = λ rs p. first_match p rs accept;
  policy = λ p. refl;
  hit = λ r rs p e. rw e refl;
  miss = λ r rs p e. rw e refl;
}

abbrev to_web : Packet
to_web = record {
  iface = text "eth0";
  protocol = tcp;
  port = 443;
  destination = v4 1 2 3 4;
  local = false;
  mark = 0;
}

abbrev to_web_v6 : Packet
to_web_v6 = record to_web { destination = v6 (replicate 16 1) }

setup_output-verdict_example :
    (MakesOutput refuses show_ip nft ip
        (output_rules ip config 1 addrs.ipv4)
        (setup_ipv4_output refuses show_ip config addrs)
      × (Nft.decide nft (output_rules ip config 1 addrs.ipv4) to_web
          ≡ expected_output config 1 addrs.ipv4 to_web))
    × (MakesOutput refuses show_ip nft ip6
          (output_rules ip6 config 1 addrs.ipv6)
          (setup_ipv6_output refuses show_ip config addrs)
        × (Nft.decide nft (output_rules ip6 config 1 addrs.ipv6) to_web_v6
            ≡ expected_output config 1 addrs.ipv6 to_web_v6))
unfolding of_family
setup_output-verdict_example =
    setup_output-verdict refuses show_ip nft config addrs 1 to_web to_web_v6 refl refl refl

setup-succeeds_iff_example :
    (setup refuses show_ip config addrs []).0
    ≡ ((enable_forwarding refuses
          >> run_all refuses (ipv4_commands refuses show_ip config addrs)
          >> setup_udp_handling refuses config ip)
        []).0
setup-succeeds_iff_example = setup-succeeds_iff refuses show_ip config addrs []

caught_443 : contains 443 (quic_block_ports config) ≡ true
unfolding contains quic_block_ports
caught_443 = refl

setup-Caught_example : Ends (Caught config ip 443) (setup refuses show_ip config addrs [])
setup-Caught_example = setup-Caught refuses show_ip config addrs 443 caught_443 []

udp_handling-Dropped_example :
    Ends (Dropped config ip 443) (setup_udp_handling refuses config ip [])
udp_handling-Dropped_example = udp_handling-Dropped refuses config ip 443 caught_443 1 refl []

-- A link-local address stands in front of a global one.
abbrev entries : Option (List IpAddr)
entries = some (v6 (0xfe ∷ 0x80 ∷ 0 ∷ 1 ∷ []) ∷ gateway_ip ∷ v6 (0x20 ∷ 0x01 ∷ 0 ∷ 1 ∷ []) ∷ [])

abbrev first_command : Command
first_command = text "nft" ∷ text "add" ∷ text "table" ∷ family_table ip ∷ text "trans_proxy" ∷ []

first-Listed : Listed first_command (ipv4_commands refuses show_ip config addrs)
unfolding prerouting_commands
first-Listed = inl refl

setup-Done_example : Ends (Done first_command) (setup refuses show_ip config addrs [])
setup-Done_example = setup-Done refuses show_ip config addrs first_command first-Listed []
