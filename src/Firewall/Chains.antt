-- ===== src/Firewall/Chains.antt =====
-- The two NAT chains of src/firewall/nftables.rs, from the code to what happens to a packet.
use trans_proxy.Base.{true, Bool, ◌≡◌, refl, ◌∙◌, Bytes, List, Option, some, map, [], ◌∷◌, ℕ}
use trans_proxy.Base.Decimal.{text}
use trans_proxy.Net.{IpAddr}
use trans_proxy.Firewall.{FirewallConfig, InterfaceAddrs, map_option, dns_target_v4, dns_target_v6}
use trans_proxy.Firewall.Action.{Command, Action, Log, run_all}
use trans_proxy.Firewall.Nftables.{
  Family, ip, ip6, target_text, add_chain, family_table, setup_ipv4_output, setup_ipv6_output,
}
use trans_proxy.Firewall.Nftables.Issued.{output-run}
use trans_proxy.Firewall.Plan.{
  Rule, Packet, Nft, output_rules, rule_command, output_commands, of_family,
}
use trans_proxy.Firewall.Verdicts.{expected_output, output_rules-verdict}

-- The text of the DNS target, where there is one.
abbrev pub dns_text_v4 :
    (Log → Command → Bool) → (IpAddr → Bytes) → FirewallConfig → InterfaceAddrs → Option Bytes
dns_text_v4 exec show_ip c addrs =
    map_option (target_text exec show_ip ip) (dns_target_v4 c addrs.ipv4)

abbrev pub dns_text_v6 :
    (Log → Command → Bool) → (IpAddr → Bytes) → FirewallConfig → InterfaceAddrs → Option Bytes
dns_text_v6 exec show_ip c addrs =
    map_option (target_text exec show_ip ip6) (dns_target_v6 c addrs.ipv6)

module _ (exec : Log → Command → Bool) (show_ip : IpAddr → Bytes) (nft : Nft) where
  -- An action issues the commands, in order and up to the first that fails, that make the
  -- prerouting chain of these rules.
  abbrev pub MakesPrerouting : Family → List Rule → Action → Type 0
  MakesPrerouting f rules a =
      a
      ≡ run_all exec (
          (text "nft" ∷ text "add" ∷ text "table" ∷ family_table f ∷ text "trans_proxy" ∷ [])
          ∷ add_chain f "prerouting" "{ type nat hook prerouting priority -100 ; }"
          ∷ map (rule_command show_ip f "prerouting") rules)

  abbrev pub MakesOutput : Family → List Rule → Action → Type 0
  MakesOutput f rules a =
      a
      ≡ run_all exec (
          add_chain f "output" "{ type nat hook output priority -100 ; }"
          ∷ map (rule_command show_ip f "output") rules)

  output-made :
      (f : Family) (c : FirewallConfig) (mark : ℕ) (addr : Option IpAddr)
      → c.fwmark ≡ some mark
      → MakesOutput f (output_rules f c mark addr) (run_all exec (output_commands show_ip f c addr))
  unfolding output_commands output_rules
  output-made f c mark addr e = rw (output_commands, e) refl

  -- With a mark set, for each family the code makes the output chain of the planned rules, which, if
  -- nft decides by its documented rule, let go on what bears the mark, stays on the host or is TCP to
  -- the upstream proxy's address and port, and redirect other TCP (or to the listed ports) but SSH to
  -- the gateway.
  pub setup_output-verdict :
      (c : FirewallConfig) (addrs : InterfaceAddrs) (mark : ℕ) (p q : Packet)
      → c.fwmark ≡ some mark
      → of_family ip p.destination ≡ true
      → of_family ip6 q.destination ≡ true
      → (MakesOutput ip (output_rules ip c mark addrs.ipv4) (setup_ipv4_output exec show_ip c addrs)
          × (Nft.decide nft (output_rules ip c mark addrs.ipv4) p
              ≡ expected_output c mark addrs.ipv4 p))
        × (MakesOutput ip6
              (output_rules ip6 c mark addrs.ipv6)
              (setup_ipv6_output exec show_ip c addrs)
            × (Nft.decide nft (output_rules ip6 c mark addrs.ipv6) q
                ≡ expected_output c mark addrs.ipv6 q))
  unfolding setup_ipv4_output setup_ipv6_output
  setup_output-verdict c addrs mark p q e v4_packet v6_packet = (
    (
      output-run exec show_ip ip c addrs.ipv4 ∙ output-made ip c mark addrs.ipv4 e,
      output_rules-verdict nft ip c mark addrs.ipv4 p v4_packet,
    ),
    (
      output-run exec show_ip ip6 c addrs.ipv6 ∙ output-made ip6 c mark addrs.ipv6 e,
      output_rules-verdict nft ip6 c mark addrs.ipv6 q v6_packet,
    ),
  )
