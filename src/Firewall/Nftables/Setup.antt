-- ===== src/Firewall/Nftables/Setup.antt =====
-- Policy routing and the whole of `setup` and `teardown`, src/firewall/nftables.rs. A command whose
-- status is dropped, as `let _ = Command::new(..).status()`, is one that is ignored.
use trans_proxy.Base.{true, false, Bool, List, [], ◌∷◌, Bytes}
use trans_proxy.Base.Decimal.{text}
use trans_proxy.Net.{IpAddr}
use trans_proxy.Firewall.{FirewallConfig, InterfaceAddrs}
use trans_proxy.Firewall.Action.{Command, Action, Log, skip, ◌>>◌, or_else, run_cmd, run_cmd_ignore}
use trans_proxy.Firewall.Nftables.{
  Family, ip, ip6, family_table, setup_ipv4_prerouting, setup_ipv4_output, setup_ipv6_prerouting,
  setup_ipv6_output,
}
use trans_proxy.Firewall.Nftables.Quic.{tproxy_table, tproxy_fwmark_spec, setup_udp_handling}

-- `run_cmd(..)?` and `run_cmd_ignore(..)`.
pub data Step : Type 0 where
  must try : Command → Step

unfoldable pub ip_rule : Bytes → Command
ip_rule action =
    text "ip"
    ∷ text "rule"
    ∷ action
    ∷ text "fwmark"
    ∷ tproxy_fwmark_spec
    ∷ text "lookup"
    ∷ tproxy_table
    ∷ []

unfoldable pub ip6_rule : Bytes → Command
ip6_rule action =
    text "ip"
    ∷ text "-6"
    ∷ text "rule"
    ∷ action
    ∷ text "fwmark"
    ∷ tproxy_fwmark_spec
    ∷ text "lookup"
    ∷ tproxy_table
    ∷ []

unfoldable pub flush_route : Command
flush_route = text "ip" ∷ text "route" ∷ text "flush" ∷ text "table" ∷ tproxy_table ∷ []

unfoldable pub flush_route6 : Command
flush_route6 =
    text "ip" ∷ text "-6" ∷ text "route" ∷ text "flush" ∷ text "table" ∷ tproxy_table ∷ []

unfoldable pub tproxy_routing_steps : List Step
tproxy_routing_steps =
    try (ip_rule (text "del"))
    ∷ must (ip_rule (text "add"))
    ∷ try flush_route
    ∷ must (
        text "ip"
        ∷ text "route"
        ∷ text "add"
        ∷ text "local"
        ∷ text "0.0.0.0/0"
        ∷ text "dev"
        ∷ text "lo"
        ∷ text "table"
        ∷ tproxy_table
        ∷ [])
    ∷ try (ip6_rule (text "del"))
    ∷ try (ip6_rule (text "add"))
    ∷ try flush_route6
    ∷ try (
        text "ip"
        ∷ text "-6"
        ∷ text "route"
        ∷ text "add"
        ∷ text "local"
        ∷ text "::/0"
        ∷ text "dev"
        ∷ text "lo"
        ∷ text "table"
        ∷ tproxy_table
        ∷ [])
    ∷ []

unfoldable pub delete_table : Family → Command
delete_table f =
    text "nft" ∷ text "delete" ∷ text "table" ∷ family_table f ∷ text "trans_proxy" ∷ []

unfoldable pub sysctl : Bytes → Command
sysctl setting = text "sysctl" ∷ text "-w" ∷ setting ∷ []

module _ (exec : Log → Command → Bool) where
  unfoldable pub run_steps : List Step → Action
  run_steps [] = skip
  run_steps (must c ∷ steps) = run_cmd exec c >> run_steps steps
  run_steps (try c ∷ steps) = run_cmd_ignore exec c >> run_steps steps

  unfoldable pub setup_tproxy_routing : Action
  setup_tproxy_routing = run_steps tproxy_routing_steps

  unfoldable pub teardown_tproxy_routing : Action
  teardown_tproxy_routing = run_steps (
      try (ip_rule (text "del"))
      ∷ try flush_route
      ∷ try (ip6_rule (text "del"))
      ∷ try flush_route6
      ∷ [])

  -- The routing of TPROXY, where it is wanted.
  unfoldable pub route_tproxy : Bool → Action
  route_tproxy true = or_else setup_tproxy_routing skip
  route_tproxy false = skip

  -- What `setup` does before the rules.
  unfoldable pub enable_forwarding : Action
  enable_forwarding = run_steps (
      try (delete_table ip)
      ∷ try (delete_table ip6)
      ∷ must (sysctl (text "net.ipv4.ip_forward=1"))
      ∷ try (sysctl (text "net.ipv6.conf.all.forwarding=1"))
      ∷ [])

  unfoldable pub teardown : Action
  teardown =
      run_steps (try (delete_table ip) ∷ try (delete_table ip6) ∷ [])
      >> teardown_tproxy_routing
      >> run_steps (
          must (sysctl (text "net.ipv4.ip_forward=0"))
          ∷ try (sysctl (text "net.ipv6.conf.all.forwarding=0"))
          ∷ [])

  module _ (show_ip : IpAddr → Bytes) where
    unfoldable pub setup_ipv6 : FirewallConfig → InterfaceAddrs → Action
    setup_ipv6 c addrs =
        setup_ipv6_prerouting exec show_ip c addrs
        >> setup_ipv6_output exec show_ip c addrs
        >> setup_udp_handling exec c ip6

    -- `addrs` is what `get_interface_ips` returns for the interface.
    unfoldable pub setup : FirewallConfig → InterfaceAddrs → Action
    setup c addrs =
        enable_forwarding
        >> setup_ipv4_prerouting exec show_ip c addrs
        >> setup_ipv4_output exec show_ip c addrs
        >> setup_udp_handling exec c ip
        >> or_else (setup_ipv6 c addrs) skip
        >> route_tproxy c.proxy_udp
