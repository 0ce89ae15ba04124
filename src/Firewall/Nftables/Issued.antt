-- ===== src/Firewall/Nftables/Issued.antt =====
-- The commands of src/firewall/nftables.rs are those of the plan, in its order.
use trans_proxy.Base.{
  ℕ, ◌≡◌, refl, sym, ap, ◌∙◌, true, false, Bool, List, [], ◌∷◌, ◌++◌, map, map-append, Bytes,
  Option, none, some, Bool-cases, Option-cases, inl, inr,
}
use mathlib.Core.Path.{fun_ext}
use trans_proxy.Base.Decimal.{text, decimal}
use trans_proxy.Net.{IpAddr, v4, v6, SocketAddr}
use trans_proxy.Firewall.{FirewallConfig, InterfaceAddrs, map_option, dns_target_v4, dns_target_v6}
use trans_proxy.Firewall.Action.{
  Command, Action, Log, skip, proceed, ◌>>◌, run_cmd, run_all, run_all-append,
}
use trans_proxy.Firewall.Nftables.{
  Family, ip, ip6, same_family, for_each, upstream_output_exclusion_args, add_nat_table,
  intercept_dns, bypass_ssh, redirect_tcp, exclude_upstream, bypass_local_ssh, redirect_local_tcp,
  intercept_local, target_text, setup_ipv4_prerouting, setup_ipv6_prerouting, setup_ipv4_output,
  setup_ipv6_output, add_rule,
}
use trans_proxy.Firewall.Plan.{
  Rule, dns_rules, ssh_rules, port_rules, tcp_rules, prerouting_rules, upstream_rules,
  local_tcp_rules, output_rules, rule_command, rule_words, match_words, verdict_words,
  protocol_text, of_family, prerouting_commands, output_commands, from_iface, to_local, go_on,
}

map_map :
    {A B C : Type 0} (f : A → B) (g : B → C) (xs : List A)
    → map (λ x. g (f x)) xs ≡ map g (map f xs)
map_map f g [] = refl
map_map f g (x ∷ xs) = ap (◌∷◌ (g (f x))) (map_map f g xs)

same_family-of_family : (f : Family) (a : IpAddr) → same_family f a ≡ of_family f a
unfolding same_family of_family
same_family-of_family ip (v4 _ _ _ _) = refl
same_family-of_family ip (v6 _) = refl
same_family-of_family ip6 (v4 _ _ _ _) = refl
same_family-of_family ip6 (v6 _) = refl

module _ (exec : Log → Command → Bool) where
  append-run :
      (cs ds : List Command) → run_all exec (cs ++ ds) ≡ (run_all exec cs >> run_all exec ds)
  append-run cs ds = fun_ext (run_all-append exec cs ds)

  proceed-skip : (r : Bool × Log) → proceed skip r ≡ r
  proceed-skip (true, log) = refl
  proceed-skip (false, log) = refl

  run-one : (c : Command) → run_all exec (c ∷ []) ≡ run_cmd exec c
  unfolding run_all
  run-one c = fun_ext λ log. proceed-skip (run_cmd exec c log)

  each-run {ℓ} :
      {A : Type ℓ} (f : A → Command) (xs : List A)
      → for_each (λ x. run_cmd exec (f x)) xs ≡ run_all exec (map f xs)
  unfolding run_all
  each-run f [] = refl
  each-run f (x ∷ xs) = ap (λ r. run_cmd exec (f x) >> r) (each-run f xs)

  -- A sequence of commands that ends in one.
  then-run :
      (c : Command) (a : Action) (cs : List Command)
      → a ≡ run_all exec cs
      → (run_cmd exec c >> a) ≡ run_all exec (c ∷ cs)
  unfolding run_all
  then-run c a cs e = ap (λ r. run_cmd exec c >> r) e

  then_all-run :
      (a b : Action) (cs ds : List Command)
      → a ≡ run_all exec cs
      → b ≡ run_all exec ds
      → (a >> b) ≡ run_all exec (cs ++ ds)
  then_all-run a b cs ds e k = rw (e, k) (sym (append-run cs ds))

  module _ (show_ip : IpAddr → Bytes) where
    abbrev commands : Family → List Rule → List Command
    commands f rs = map (rule_command show_ip f "prerouting") rs

    abbrev local_commands : Family → List Rule → List Command
    local_commands f rs = map (rule_command show_ip f "output") rs

    dns-run :
        (f : Family) (iface : Bytes) (t : Option Bytes)
        → intercept_dns exec show_ip f iface t ≡ run_all exec (commands f (dns_rules iface t))
    unfolding intercept_dns dns_rules run_all rule_command rule_words match_words verdict_words
        protocol_text text decimal
    dns-run f iface none = refl
    dns-run f iface (some t) = then-run _ _ (_ ∷ []) (sym (run-one _))

    ssh-run :
        (f : Family) (iface : Bytes) (addr : Option IpAddr)
        → bypass_ssh exec show_ip f iface addr
          ≡ run_all exec (commands f (ssh_rules (from_iface iface ∷ []) f addr))
    unfolding bypass_ssh ssh_rules run_all rule_command rule_words match_words verdict_words
        protocol_text text decimal
    ssh-run f iface none = refl
    ssh-run f iface (some a) = sym (run-one _)

    tcp-run :
        (f : Family) (iface : Bytes) (port : ℕ) (addr : Option IpAddr) (ports : Option (List ℕ))
        → redirect_tcp exec show_ip f iface port addr ports
          ≡ run_all exec (commands f (tcp_rules f iface port addr ports))
    unfolding redirect_tcp tcp_rules port_rules rule_command rule_words match_words verdict_words
        protocol_text
    tcp-run f iface port addr (some ports) =
        each-run _ ports ∙ ap (run_all exec) (map_map _ _ ports)
    tcp-run f iface port addr none =
        then_all-run _ _ (commands f (ssh_rules (from_iface iface ∷ []) f addr)) _
          (ssh-run f iface addr) (then-run _ _ (_ ∷ []) (sym (run-one _)))
        ∙ ap (run_all exec) (sym (map-append _ (ssh_rules (from_iface iface ∷ []) f addr) _))

    -- The prerouting chain: its table, its chain and its rules.
    pub prerouting-run :
        (f : Family) (c : FirewallConfig) (t : Option Bytes) (addr : Option IpAddr)
        → (add_nat_table exec show_ip f
            >> intercept_dns exec show_ip f c.interface t
            >> redirect_tcp exec show_ip f c.interface c.proxy_port addr c.ports)
          ≡ run_all exec (prerouting_commands show_ip f c t addr)
    unfolding add_nat_table prerouting_commands prerouting_rules
    prerouting-run f c t addr =
        then_all-run (add_nat_table exec show_ip f) _ (_ ∷ _ ∷ []) _
          (then-run _ _ (_ ∷ []) (sym (run-one _)))
          (then_all-run _ _ (commands f (dns_rules c.interface t)) _ (dns-run f c.interface t)
              (tcp-run f c.interface c.proxy_port addr c.ports)
            ∙ ap (run_all exec) (sym (map-append _ (dns_rules c.interface t) _)))

    upstream-run :
        (f : Family) (u : Option SocketAddr)
        → exclude_upstream exec show_ip f u ≡ run_all exec (local_commands f (upstream_rules f u))
    unfolding exclude_upstream upstream_output_exclusion_args upstream_rules rule_command rule_words
        match_words verdict_words protocol_text run_all
    upstream-run f none = refl
    upstream-run f (some u) = elim (Bool-cases (of_family f u.ip)) [
      | inl e ↦
          rw (same_family-of_family f u.ip, e, exclude_upstream, upstream_output_exclusion_args)
            (sym (run-one _))
      | inr e ↦
          rw (same_family-of_family f u.ip, e, exclude_upstream, upstream_output_exclusion_args)
            refl
    ]

    local_ssh-run :
        (f : Family) (addr : Option IpAddr)
        → bypass_local_ssh exec show_ip f addr
          ≡ run_all exec (local_commands f (ssh_rules [] f addr))
    unfolding bypass_local_ssh ssh_rules run_all rule_command rule_words match_words verdict_words
        protocol_text text decimal
    local_ssh-run f none = refl
    local_ssh-run f (some a) = sym (run-one _)

    local_tcp-run :
        (f : Family) (port : ℕ) (addr : Option IpAddr) (ports : Option (List ℕ))
        → redirect_local_tcp exec show_ip f port addr ports
          ≡ run_all exec (local_commands f (local_tcp_rules f port addr ports))
    unfolding redirect_local_tcp local_tcp_rules port_rules rule_command rule_words match_words
        verdict_words protocol_text
    local_tcp-run f port addr (some ports) =
        each-run _ ports ∙ ap (run_all exec) (map_map _ _ ports)
    local_tcp-run f port addr none =
        then_all-run _ _ (local_commands f (ssh_rules [] f addr)) _ (local_ssh-run f addr)
          (sym (run-one _))
        ∙ ap (run_all exec) (sym (map-append _ (ssh_rules [] f addr) _))

    -- What stands behind the two bypasses of the output chain.
    abbrev local_rules : Family → FirewallConfig → Option IpAddr → List Rule
    local_rules f c addr =
        record { matches = to_local ∷ []; verdict = go_on }
        ∷ local_tcp_rules f c.proxy_port addr c.ports

    bypass-run :
        (f : Family) (c : FirewallConfig) (addr : Option IpAddr)
        → (exclude_upstream exec show_ip f c.upstream_addr
            >> run_cmd exec (
                add_rule f "output"
                  (text "fib" ∷ text "daddr" ∷ text "type" ∷ text "local" ∷ text "return" ∷ []))
            >> redirect_local_tcp exec show_ip f c.proxy_port addr c.ports)
          ≡ run_all exec
              (local_commands f (upstream_rules f c.upstream_addr ++ local_rules f c addr))
    unfolding rule_command rule_words match_words verdict_words
    bypass-run f c addr =
        then_all-run _ _ (local_commands f (upstream_rules f c.upstream_addr))
          (local_commands f (local_rules f c addr)) (upstream-run f c.upstream_addr)
          (then-run _ _ (local_commands f (local_tcp_rules f c.proxy_port addr c.ports))
            (local_tcp-run f c.proxy_port addr c.ports))
        ∙ ap (run_all exec) (sym (map-append _ (upstream_rules f c.upstream_addr) _))

    pub output-run :
        (f : Family) (c : FirewallConfig) (addr : Option IpAddr)
        → intercept_local exec show_ip f c addr ≡ run_all exec (output_commands show_ip f c addr)
    unfolding intercept_local output_commands output_rules run_all rule_command rule_words
        match_words verdict_words
    output-run f c addr = elim (Option-cases c.fwmark) [
      | inl e ↦ rw (e, intercept_local, output_commands) refl
      | inr (mark, e) ↦
          rw (e, intercept_local, output_commands)
            (then-run _ _ (local_commands f (output_rules f c mark addr)) (
              then-run _ _
                (local_commands f (upstream_rules f c.upstream_addr ++ local_rules f c addr))
                (bypass-run f c addr)))
    ]

    -- For each family the code issues exactly the commands of the plan, in its order and up to the
    -- first that fails: the table, the prerouting chain and its rules, and where there is a mark the
    -- output chain and its rules.
    pub setup-Planned :
        (c : FirewallConfig) (addrs : InterfaceAddrs)
        → ((setup_ipv4_prerouting exec show_ip c addrs >> setup_ipv4_output exec show_ip c addrs)
            ≡ run_all exec (
                prerouting_commands show_ip ip c
                  (map_option (target_text exec show_ip ip) (dns_target_v4 c addrs.ipv4))
                  addrs.ipv4
                ++ output_commands show_ip ip c addrs.ipv4))
          × ((setup_ipv6_prerouting exec show_ip c addrs >> setup_ipv6_output exec show_ip c addrs)
              ≡ run_all exec (
                  prerouting_commands show_ip ip6 c
                    (map_option (target_text exec show_ip ip6) (dns_target_v6 c addrs.ipv6))
                    addrs.ipv6
                  ++ output_commands show_ip ip6 c addrs.ipv6))
    unfolding setup_ipv4_prerouting setup_ipv6_prerouting setup_ipv4_output setup_ipv6_output
    setup-Planned c addrs = (
      then_all-run _ _ _ _ (prerouting-run ip c _ addrs.ipv4) (output-run ip c addrs.ipv4),
      then_all-run _ _ _ _ (prerouting-run ip6 c _ addrs.ipv6) (output-run ip6 c addrs.ipv6),
    )
