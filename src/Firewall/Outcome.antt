-- ===== src/Firewall/Outcome.antt =====
-- What is in place when `setup` of src/firewall/nftables.rs succeeds, and when it fails.
use trans_proxy.Base.{
  ℕ, ◌≡◌, refl, sym, ap, ◌∙◌, ◌⊎◌, true, false, Bool, List, [], ◌∷◌, ◌++◌, Bytes, inl, inr,
}
use mathlib.Core.Path.{fun_ext}
use trans_proxy.Config.{contains}
use trans_proxy.Net.{IpAddr}
use trans_proxy.Firewall.{
  FirewallConfig, InterfaceAddrs, quic_block_ports, map_option, dns_target_v4, dns_target_v6,
}
use trans_proxy.Firewall.Action.{
  Command, Action, Log, skip, proceed, handle, ◌>>◌, or_else, run_cmd, run_cmd_ignore, run_all,
}
use trans_proxy.Firewall.Done.{
  Done, Ends, Ends-kept, Ends-proceed, Keeps, Keeps-then, Ends-then_first, Ends-then_second,
  run_cmd-Keeps, run_cmd_ignore-Keeps, run_cmd-Done,
}
use trans_proxy.Firewall.Nftables.{
  ip, ip6, target_text, setup_ipv4_prerouting, setup_ipv4_output, setup_ipv6_prerouting,
  setup_ipv6_output,
}
use trans_proxy.Firewall.Nftables.Quic.{setup_udp_handling}
use trans_proxy.Firewall.Nftables.Setup.{
  Step, must, try, run_steps, setup_tproxy_routing, route_tproxy, setup_ipv6, enable_forwarding,
  setup,
}
use trans_proxy.Firewall.Nftables.Issued.{setup-Planned}
use trans_proxy.Firewall.Plan.{prerouting_commands, output_commands}
use trans_proxy.Firewall.NoLeak.{Caught, udp_handling-Keeps, udp_handling-Caught}

abbrev pub Listed : Command → List Command → Type 0
Listed d [] = ⊥
Listed d (c ∷ cs) = (d ≡ c) ⊎ Listed d cs

proceed_assoc : (b c : Action) (r : Bool × Log) → proceed c (proceed b r) ≡ proceed (b >> c) r
proceed_assoc b c (true, log) = refl
proceed_assoc b c (false, log) = refl

>>-assoc : (a b c : Action) → ((a >> b) >> c) ≡ (a >> b >> c)
>>-assoc a b c = fun_ext λ log. proceed_assoc b c (a log)

handle-Keeps : (d : Command) (r : Bool × Log) → Done d r.1 → Done d (handle skip r).1
handle-Keeps d (true, log) h = h
handle-Keeps d (false, log) h = h

handle-succeeds : (r : Bool × Log) → (handle skip r).0 ≡ true
handle-succeeds (true, log) = refl
handle-succeeds (false, log) = refl

proceed-succeeds :
    (b : Action) (r : Bool × Log)
    → r.0 ≡ true
    → ((log : Log) → (b log).0 ≡ true)
    → (proceed b r).0 ≡ true
proceed-succeeds b (true, log) h k = k log
proceed-succeeds b (false, log) h k = h

proceed-same :
    (b : Action) (r : Bool × Log) → ((log : Log) → (b log).0 ≡ true) → (proceed b r).0 ≡ r.0
proceed-same b (true, log) k = k log
proceed-same b (false, log) k = refl

module _ (exec : Log → Command → Bool) where
  run_all-Keeps : (d : Command) (cs : List Command) → Keeps d (run_all exec cs)
  unfolding run_all
  run_all-Keeps d [] = λ log h. h
  run_all-Keeps d (c ∷ cs) =
      Keeps-then d (run_cmd exec c) (run_all exec cs) (run_cmd-Keeps exec d c) (run_all-Keeps d cs)

  run_all-Done :
      (d : Command) (cs : List Command)
      → Listed d cs
      → (log : Log) → Ends (Done d) (run_all exec cs log)
  unfolding run_all
  run_all-Done d [] h = absurd h
  run_all-Done d (c ∷ cs) h = elim h [
    | inl e ↦
        Ends-then_first d (run_cmd exec c) (run_all exec cs) (rw e (run_cmd-Done exec c))
          (run_all-Keeps d cs)
    | inr later ↦
        Ends-then_second (Done d) (run_cmd exec c) (run_all exec cs) (run_all-Done d cs later)
  ]

  run_steps-Keeps : (d : Command) (steps : List Step) → Keeps d (run_steps exec steps)
  unfolding run_steps
  run_steps-Keeps d [] = λ log h. h
  run_steps-Keeps d (must c ∷ steps) =
      Keeps-then d (run_cmd exec c) (run_steps exec steps) (run_cmd-Keeps exec d c)
        (run_steps-Keeps d steps)
  run_steps-Keeps d (try c ∷ steps) =
      Keeps-then d (run_cmd_ignore exec c) (run_steps exec steps) (run_cmd_ignore-Keeps exec d c)
        (run_steps-Keeps d steps)

  route-Keeps : (d : Command) (wanted : Bool) → Keeps d (route_tproxy exec wanted)
  unfolding route_tproxy setup_tproxy_routing
  route-Keeps d true =
      λ log h. handle-Keeps d (setup_tproxy_routing exec log) (run_steps-Keeps d _ log h)
  route-Keeps d false = λ log h. h

  module _ (show_ip : IpAddr → Bytes) (c : FirewallConfig) (addrs : InterfaceAddrs) where
    -- The commands that IPv4 needs.
    abbrev pub ipv4_commands : List Command
    ipv4_commands =
        prerouting_commands show_ip ip c
          (map_option (target_text exec show_ip ip) (dns_target_v4 c addrs.ipv4)) addrs.ipv4
        ++ output_commands show_ip ip c addrs.ipv4

    abbrev ipv6_commands : List Command
    ipv6_commands =
        prerouting_commands show_ip ip6 c
          (map_option (target_text exec show_ip ip6) (dns_target_v6 c addrs.ipv6)) addrs.ipv6
        ++ output_commands show_ip ip6 c addrs.ipv6

    -- The parts of `setup` that may not fail, and those that may.
    abbrev needed : Action
    needed = enable_forwarding exec >> run_all exec ipv4_commands >> setup_udp_handling exec c ip

    abbrev optional : Action
    optional = or_else (setup_ipv6 exec show_ip c addrs) skip >> route_tproxy exec c.proxy_udp

    ipv6-run :
        setup_ipv6 exec show_ip c addrs
        ≡ (run_all exec ipv6_commands >> setup_udp_handling exec c ip6)
    unfolding setup_ipv6
    ipv6-run =
        sym (
          >>-assoc (setup_ipv6_prerouting exec show_ip c addrs)
            (setup_ipv6_output exec show_ip c addrs) (setup_udp_handling exec c ip6))
        ∙ ap (λ a. a >> setup_udp_handling exec c ip6) (setup-Planned exec show_ip c addrs).1

    setup-parts : setup exec show_ip c addrs ≡ (needed >> optional)
    unfolding setup
    setup-parts =
        ap (λ a. enable_forwarding exec >> a)
          (sym (
              >>-assoc (setup_ipv4_prerouting exec show_ip c addrs)
                (setup_ipv4_output exec show_ip c addrs) (setup_udp_handling exec c ip >> optional))
            ∙ ap (λ a. a >> setup_udp_handling exec c ip >> optional)
                (setup-Planned exec show_ip c addrs).0
            ∙ sym (>>-assoc (run_all exec ipv4_commands) (setup_udp_handling exec c ip) optional))
        ∙ sym (
            >>-assoc (enable_forwarding exec)
              (run_all exec ipv4_commands >> setup_udp_handling exec c ip) optional)

    ipv6-Keeps : (d : Command) → Keeps d (setup_ipv6 exec show_ip c addrs)
    ipv6-Keeps d = rw ipv6-run (
        Keeps-then d (run_all exec ipv6_commands) (setup_udp_handling exec c ip6)
          (run_all-Keeps d ipv6_commands) (udp_handling-Keeps exec c ip6 d))

    optional-Keeps : (d : Command) → Keeps d optional
    optional-Keeps d =
        Keeps-then d (or_else (setup_ipv6 exec show_ip c addrs) skip)
          (route_tproxy exec c.proxy_udp)
          (λ log h. handle-Keeps d (setup_ipv6 exec show_ip c addrs log) (ipv6-Keeps d log h))
          (route-Keeps d c.proxy_udp)

    route-succeeds : (wanted : Bool) (log : Log) → (route_tproxy exec wanted log).0 ≡ true
    unfolding route_tproxy
    route-succeeds true log = handle-succeeds (setup_tproxy_routing exec log)
    route-succeeds false log = refl

    optional-succeeds : (log : Log) → (optional log).0 ≡ true
    optional-succeeds log =
        proceed-succeeds (route_tproxy exec c.proxy_udp)
          (or_else (setup_ipv6 exec show_ip c addrs) skip log)
          (handle-succeeds (setup_ipv6 exec show_ip c addrs log)) (route-succeeds c.proxy_udp)

    -- Setting the firewall up succeeds exactly if forwarding is enabled, every IPv4 command of the
    -- plan succeeds and the handling of IPv4 UDP does: neither IPv6 nor the policy routing of
    -- TPROXY makes it fail.
    pub setup-succeeds_iff :
        (log : Log)
        → (setup exec show_ip c addrs log).0
          ≡ ((enable_forwarding exec >> run_all exec ipv4_commands >> setup_udp_handling exec c ip)
              log).0
    setup-succeeds_iff log =
        ap (λ a. (a log).0) setup-parts ∙ proceed-same optional (needed log) optional-succeeds

    needed-Done : (d : Command) → Listed d ipv4_commands → (log : Log) → Ends (Done d) (needed log)
    needed-Done d h =
        Ends-then_second (Done d) (enable_forwarding exec)
          (run_all exec ipv4_commands >> setup_udp_handling exec c ip)
          (Ends-then_first d (run_all exec ipv4_commands) (setup_udp_handling exec c ip)
            (run_all-Done d ipv4_commands h) (udp_handling-Keeps exec c ip d))

    -- When setting the firewall up succeeds, every IPv4 command of the plan has run and succeeded,
    -- whatever happened to IPv6 and to the policy routing afterwards.
    pub setup-Done :
        (d : Command)
        → Listed d ipv4_commands
        → (log : Log) → Ends (Done d) (setup exec show_ip c addrs log)
    setup-Done d h =
        rw setup-parts (Ends-then_first d needed optional (needed-Done d h) (optional-Keeps d))

    module _ (p : ℕ) (chosen : contains p (quic_block_ports c) ≡ true) where
      needed-Caught : (log : Log) → Ends (Caught c ip p) (needed log)
      needed-Caught =
          Ends-then_second (Caught c ip p) (enable_forwarding exec)
            (run_all exec ipv4_commands >> setup_udp_handling exec c ip)
            (Ends-then_second (Caught c ip p) (run_all exec ipv4_commands)
              (setup_udp_handling exec c ip) (udp_handling-Caught exec c ip p chosen))

      -- When setting the firewall up succeeds, for every port that is to be caught there is a chain at
      -- the prerouting hook with the rule that hands IPv4 UDP to the port to the proxy, or one at the
      -- forward hook with the rule that drops it, whatever commands the kernel refused.
      pub setup-Caught : (log : Log) → Ends (Caught c ip p) (setup exec show_ip c addrs log)
      setup-Caught log = rw setup-parts (
          Ends-proceed (Caught c ip p) (Caught c ip p) optional (needed log) (needed-Caught log)
            λ after h. Ends-kept (Caught c ip p) (optional after) (elim h [
              | inl d ↦ inl (optional-Keeps _ after d.0, optional-Keeps _ after d.1)
              | inr d ↦ inr (optional-Keeps _ after d.0, optional-Keeps _ after d.1)
            ]))
