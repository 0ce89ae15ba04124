-- ===== src/Firewall/Nftables/Quic.antt =====
-- QUIC, src/firewall/nftables.rs: handing it to the proxy by TPROXY, or dropping it.
use Prim.Native.String.{String}
use trans_proxy.Base.{ℕ, true, false, Bool, List, [], ◌∷◌, ◌++◌, Bytes, none, some}
use trans_proxy.Base.Decimal.{text, decimal}
use trans_proxy.Firewall.{FirewallConfig, quic_block_ports}
use trans_proxy.Firewall.Action.{Command, Action, Log, skip, ◌>>◌, run_cmd}
use trans_proxy.Firewall.Nftables.{Family, add_chain, add_rule, port_text, for_each}

abbrev pub tproxy_mark : Bytes
tproxy_mark = text "0x40000000"

abbrev pub tproxy_mask : Bytes
tproxy_mask = text "0x40000000"

abbrev pub tproxy_table : Bytes
tproxy_table = text "0x2333"

unfoldable pub tproxy_fwmark_spec : Bytes
tproxy_fwmark_spec = tproxy_mark ++ 47 ∷ tproxy_mask

unfoldable pub tproxy_rule_args : Family → Bytes → ℕ → ℕ → Command
tproxy_rule_args f iface port proxy_port = add_rule f "tproxy_prerouting" (
    text "iifname"
    ∷ iface
    ∷ text "udp"
    ∷ text "dport"
    ∷ decimal port
    ∷ text "tproxy"
    ∷ text "to"
    ∷ port_text proxy_port
    ∷ text "meta"
    ∷ text "mark"
    ∷ text "set"
    ∷ tproxy_mark
    ∷ text "accept"
    ∷ [])

unfoldable pub quic_drop_rule_args : Family → String → String → Bytes → ℕ → Command
quic_drop_rule_args f chain dir iface port =
    add_rule f chain
      (text dir ∷ iface ∷ text "udp" ∷ text "dport" ∷ decimal port ∷ text "drop" ∷ [])

module _ (exec : Log → Command → Bool) where
  -- A chain, and a rule in it for each port.
  unfoldable pub chain_rules : Command → (ℕ → Command) → List ℕ → Action
  chain_rules chain rule ports = run_cmd exec chain >> for_each (λ p. run_cmd exec (rule p)) ports

  unfoldable pub setup_udp_tproxy : FirewallConfig → Family → Action
  setup_udp_tproxy c f = elim (quic_block_ports c) [
    | [] ↦ skip
    | port ∷ ports ↦
        chain_rules
          (add_chain f "tproxy_prerouting" "{ type filter hook prerouting priority mangle ; }")
          (λ p. tproxy_rule_args f c.interface p c.proxy_port) (port ∷ ports)
  ]

  -- The drops in the output hook, where there are ports.
  unfoldable pub drop_output : Family → Bytes → List ℕ → Action
  drop_output f iface [] = skip
  drop_output f iface (port ∷ ports) =
      chain_rules (add_chain f "quic_output" "{ type filter hook output priority 0 ; }")
        (quic_drop_rule_args f "quic_output" "oifname" iface) (port ∷ ports)

  unfoldable pub setup_quic_block_output : FirewallConfig → Family → Action
  setup_quic_block_output c f = elim c.fwmark [
    | none ↦ skip
    | some _ ↦ drop_output f c.interface (quic_block_ports c)
  ]

  unfoldable pub setup_quic_block : FirewallConfig → Family → Action
  setup_quic_block c f = elim (quic_block_ports c) [
    | [] ↦ skip
    | port ∷ ports ↦
        chain_rules (add_chain f "quic_forward" "{ type filter hook forward priority 0 ; }")
          (quic_drop_rule_args f "quic_forward" "iifname" c.interface) (port ∷ ports)
        >> setup_quic_block_output c f
  ]

  -- `match a { Ok(()) => b?, Err(e) => d? }`.
  abbrev pub branch : Action → Action → Bool × Log → Bool × Log
  branch b d (true, log) = b log
  branch b d (false, log) = d log

  unfoldable pub setup_udp_handling : FirewallConfig → Family → Action
  setup_udp_handling c f log = elim c.proxy_udp [
    | true ↦ branch (setup_quic_block_output c f) (setup_quic_block c f) (setup_udp_tproxy c f log)
    | false ↦ elim c.block_quic [ true ↦ setup_quic_block c f log | false ↦ (true, log) ]
  ]
