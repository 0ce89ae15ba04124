-- ===== src/Firewall/Nftables.antt =====
-- The rules of src/firewall/nftables.rs: one function for each block of `setup` and `setup_ipv6`,
-- and one for each function that these call. The source writes the blocks of `setup_ipv6` out
-- again; here both families share them, and differ in the family and in the text of the DNS target.
-- `show_ip` is the `Display` of an address. What is printed is left out.
pub mod Quic
pub mod Setup
pub mod Issued
use Prim.Native.String.{String}
use trans_proxy.Base.{ℕ, true, false, Bool, ◌||◌, List, [], ◌∷◌, ◌++◌, Bytes, Option, none, some}
use trans_proxy.Base.Decimal.{text, decimal}
use trans_proxy.Net.{IpAddr, v4, v6, SocketAddr}
use trans_proxy.Firewall.{FirewallConfig, InterfaceAddrs, map_option, dns_target_v4, dns_target_v6}
use trans_proxy.Firewall.Action.{Command, Action, Log, skip, ◌>>◌, run_cmd}

-- `NftFamily`.
pub data Family : Type 0 where
  ip ip6 : Family

unfoldable pub family_table : Family → Bytes
family_table ip = text "ip"
family_table ip6 = text "ip6"

abbrev pub add_chain : Family → String → String → Command
add_chain f chain spec =
    text "nft"
    ∷ text "add"
    ∷ text "chain"
    ∷ family_table f
    ∷ text "trans_proxy"
    ∷ text chain
    ∷ text spec
    ∷ []

abbrev pub add_rule : Family → String → List Bytes → Command
add_rule f chain rule =
    text "nft" ∷ text "add" ∷ text "rule" ∷ family_table f ∷ text "trans_proxy" ∷ text chain ∷ rule

abbrev pub port_text : ℕ → Bytes
port_text port = 58 ∷ decimal port

-- `upstream_output_exclusion_args`.
unfoldable pub same_family : Family → IpAddr → Bool
same_family ip (v4 _ _ _ _) = true
same_family ip (v6 _) = false
same_family ip6 (v4 _ _ _ _) = false
same_family ip6 (v6 _) = true

module _ (show_ip : IpAddr → Bytes) where
  unfoldable pub upstream_output_exclusion_args : Family → SocketAddr → Option Command
  upstream_output_exclusion_args f upstream = elim (same_family f upstream.ip) [
    | true ↦ some (
        add_rule f "output" (
          family_table f
          ∷ text "daddr"
          ∷ show_ip upstream.ip
          ∷ text "tcp"
          ∷ text "dport"
          ∷ decimal upstream.port
          ∷ text "return"
          ∷ []))
    | false ↦ none
  ]

abbrev pub for_each {ℓ} : {A : Type ℓ} → (A → Action) → List A → Action
for_each f [] = skip
for_each f (x ∷ xs) = f x >> for_each f xs

module _ (exec : Log → Command → Bool) (show_ip : IpAddr → Bytes) where
  unfoldable pub add_nat_table : Family → Action
  add_nat_table f =
      run_cmd exec
        (text "nft" ∷ text "add" ∷ text "table" ∷ family_table f ∷ text "trans_proxy" ∷ [])
      >> run_cmd exec (add_chain f "prerouting" "{ type nat hook prerouting priority -100 ; }")

  -- The two rules for DNS, where there is a target.
  unfoldable pub intercept_dns : Family → Bytes → Option Bytes → Action
  intercept_dns f iface none = skip
  intercept_dns f iface (some target) =
      run_cmd exec (
        add_rule f "prerouting" (
          text "iifname"
          ∷ iface
          ∷ text "udp"
          ∷ text "dport"
          ∷ text "53"
          ∷ text "dnat"
          ∷ text "to"
          ∷ target
          ∷ []))
      >> run_cmd exec (
          add_rule f "prerouting" (
            text "iifname"
            ∷ iface
            ∷ text "tcp"
            ∷ text "dport"
            ∷ text "53"
            ∷ text "dnat"
            ∷ text "to"
            ∷ target
            ∷ []))

  unfoldable pub bypass_ssh : Family → Bytes → Option IpAddr → Action
  bypass_ssh f iface none = skip
  bypass_ssh f iface (some addr) = run_cmd exec (
      add_rule f "prerouting" (
        text "iifname"
        ∷ iface
        ∷ family_table f
        ∷ text "daddr"
        ∷ show_ip addr
        ∷ text "tcp"
        ∷ text "dport"
        ∷ text "22"
        ∷ text "return"
        ∷ []))

  -- The rules for TCP, with and without a list of ports.
  unfoldable pub redirect_tcp : Family → Bytes → ℕ → Option IpAddr → Option (List ℕ) → Action
  redirect_tcp f iface proxy_port addr (some ports) =
      for_each
        (λ p. run_cmd exec (
          add_rule f "prerouting" (
            text "iifname"
            ∷ iface
            ∷ text "tcp"
            ∷ text "dport"
            ∷ decimal p
            ∷ text "redirect"
            ∷ text "to"
            ∷ port_text proxy_port
            ∷ [])))
        ports
  redirect_tcp f iface proxy_port addr none =
      bypass_ssh f iface addr
      >> run_cmd exec (
          add_rule f "prerouting" (
            text "iifname"
            ∷ iface
            ∷ text "fib"
            ∷ text "daddr"
            ∷ text "type"
            ∷ text "local"
            ∷ text "return"
            ∷ []))
      >> run_cmd exec (
          add_rule f "prerouting" (
            text "iifname"
            ∷ iface
            ∷ text "meta"
            ∷ text "l4proto"
            ∷ text "tcp"
            ∷ text "redirect"
            ∷ text "to"
            ∷ port_text proxy_port
            ∷ []))

  unfoldable pub exclude_upstream : Family → Option SocketAddr → Action
  exclude_upstream f none = skip
  exclude_upstream f (some upstream) = elim (upstream_output_exclusion_args show_ip f upstream) [
    | none ↦ skip
    | some args ↦ run_cmd exec args
  ]

  unfoldable pub bypass_local_ssh : Family → Option IpAddr → Action
  bypass_local_ssh f none = skip
  bypass_local_ssh f (some addr) = run_cmd exec (
      add_rule f "output" (
        family_table f
        ∷ text "daddr"
        ∷ show_ip addr
        ∷ text "tcp"
        ∷ text "dport"
        ∷ text "22"
        ∷ text "return"
        ∷ []))

  unfoldable pub redirect_local_tcp : Family → ℕ → Option IpAddr → Option (List ℕ) → Action
  redirect_local_tcp f proxy_port addr (some ports) =
      for_each
        (λ p. run_cmd exec (
          add_rule f "output" (
            text "tcp"
            ∷ text "dport"
            ∷ decimal p
            ∷ text "redirect"
            ∷ text "to"
            ∷ port_text proxy_port
            ∷ [])))
        ports
  redirect_local_tcp f proxy_port addr none =
      bypass_local_ssh f addr
      >> run_cmd exec (
          add_rule f "output" (
            text "meta"
            ∷ text "l4proto"
            ∷ text "tcp"
            ∷ text "redirect"
            ∷ text "to"
            ∷ port_text proxy_port
            ∷ []))

  -- The OUTPUT chain, set up where there is a mark.
  unfoldable pub intercept_local : Family → FirewallConfig → Option IpAddr → Action
  intercept_local f c addr = elim c.fwmark [
    | none ↦ skip
    | some mark ↦
        run_cmd exec (add_chain f "output" "{ type nat hook output priority -100 ; }")
        >> run_cmd exec
            (add_rule f "output" (text "meta" ∷ text "mark" ∷ decimal mark ∷ text "return" ∷ []))
        >> exclude_upstream f c.upstream_addr
        >> run_cmd exec (
            add_rule f "output"
              (text "fib" ∷ text "daddr" ∷ text "type" ∷ text "local" ∷ text "return" ∷ []))
        >> redirect_local_tcp f c.proxy_port addr c.ports
  ]

  -- The text that nft takes for a DNS target: brackets stand round an IPv6 address.
  unfoldable pub target_text : Family → SocketAddr → Bytes
  target_text ip t = show_ip t.ip ++ port_text t.port
  target_text ip6 t = 91 ∷ show_ip t.ip ++ 93 ∷ port_text t.port

  unfoldable pub setup_ipv4_prerouting : FirewallConfig → InterfaceAddrs → Action
  setup_ipv4_prerouting c addrs =
      add_nat_table ip
      >> intercept_dns ip c.interface (map_option (target_text ip) (dns_target_v4 c addrs.ipv4))
      >> redirect_tcp ip c.interface c.proxy_port addrs.ipv4 c.ports

  unfoldable pub setup_ipv6_prerouting : FirewallConfig → InterfaceAddrs → Action
  setup_ipv6_prerouting c addrs =
      add_nat_table ip6
      >> intercept_dns ip6 c.interface (map_option (target_text ip6) (dns_target_v6 c addrs.ipv6))
      >> redirect_tcp ip6 c.interface c.proxy_port addrs.ipv6 c.ports

  unfoldable pub setup_ipv4_output : FirewallConfig → InterfaceAddrs → Action
  setup_ipv4_output c addrs = intercept_local ip c addrs.ipv4

  unfoldable pub setup_ipv6_output : FirewallConfig → InterfaceAddrs → Action
  setup_ipv6_output c addrs = intercept_local ip6 c addrs.ipv6
