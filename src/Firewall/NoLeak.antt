-- ===== src/Firewall/NoLeak.antt =====
-- QUIC under the rules of src/firewall/nftables.rs: what ran when `setup_udp_handling` succeeds.
use trans_proxy.Base.{
  ℕ, ◌≡◌, refl, ◌⊎◌, true, false, Bool, List, [], ◌∷◌, arith, some, Bool-cases, Option-cases, inl,
  inr,
}
use trans_proxy.Config.{contains}
use trans_proxy.Firewall.{FirewallConfig, quic_block_ports}
use trans_proxy.Firewall.Action.{Command, Action, Log, run_cmd}
use trans_proxy.Firewall.Done.{
  Done, Ends, Keeps, Keeps-then, Ends-proceed, run_cmd-Done, Ends-then_first, Ends-then_second,
  run_cmd-Keeps, each-Keeps, each-Done, Ends-any, Ends-kept, Ends-map,
}
use Prim.Native.String.{String}
use trans_proxy.Base.{Bytes}
use trans_proxy.Base.Decimal.{text, decimal}
use trans_proxy.Firewall.Action.{◌>>◌}
use trans_proxy.Firewall.Nftables.{Family, for_each, add_chain, add_rule}
use trans_proxy.Firewall.Nftables.Quic.{
  tproxy_rule_args, quic_drop_rule_args, setup_udp_tproxy, drop_output, setup_quic_block_output,
  setup_quic_block, setup_udp_handling, branch, chain_rules,
}

List-cases : (xs : List ℕ) → (xs ≡ []) ⊎ ((x : ℕ) × (ys : List ℕ) × (xs ≡ x ∷ ys))
List-cases [] = inl refl
List-cases (x ∷ ys) = inr (x, ys, refl)

-- A base chain of these properties was made, and a rule was added to it.
abbrev pub InChain : Family → String → String → List Bytes → Log → Type 0
InChain f chain properties rule log =
    Done (add_chain f chain properties) log × Done (add_rule f chain rule) log

abbrev udp_to : ℕ → List Bytes → List Bytes
udp_to p more = text "udp" ∷ text "dport" ∷ decimal p ∷ more

-- Forwarded UDP to the port is handed to the proxy before it is routed, or it is dropped where
-- packets are forwarded.
abbrev pub Caught : FirewallConfig → Family → ℕ → Log → Type 0
Caught c f p log =
    InChain f "tproxy_prerouting" "{ type filter hook prerouting priority mangle ; }"
      (text "iifname"
        ∷ c.interface
        ∷ udp_to p (
            text "tproxy"
            ∷ text "to"
            ∷ (58 ∷ decimal c.proxy_port)
            ∷ text "meta"
            ∷ text "mark"
            ∷ text "set"
            ∷ text "0x40000000"
            ∷ text "accept"
            ∷ []))
      log
    ⊎ InChain f "quic_forward" "{ type filter hook forward priority 0 ; }"
        (text "iifname" ∷ c.interface ∷ udp_to p (text "drop" ∷ [])) log

-- UDP to the port that the gateway itself sends is dropped.
abbrev pub Dropped : FirewallConfig → Family → ℕ → Log → Type 0
Dropped c f p log =
    InChain f "quic_output" "{ type filter hook output priority 0 ; }"
      (text "oifname" ∷ c.interface ∷ udp_to p (text "drop" ∷ [])) log

-- The two of a chain and its rule for the port.
abbrev Both : Command → Command → Log → Type 0
Both chain rule log = Done chain log × Done rule log

Ends-both :
    (P Q : Log → Type 0) (r : Bool × Log) → Ends P r → Ends Q r → Ends (λ log. P log × Q log) r
Ends-both P Q (true, log) h k = (h, k)
Ends-both P Q (false, log) h k = tt

module _ (exec : Log → Command → Bool) (c : FirewallConfig) (f : Family) where
  chain_rules-Keeps :
      (d chain : Command) (rule : ℕ → Command) (ports : List ℕ)
      → Keeps d (chain_rules exec chain rule ports)
  unfolding chain_rules
  chain_rules-Keeps d chain rule ports =
      Keeps-then d (run_cmd exec chain) (for_each (λ p. run_cmd exec (rule p)) ports)
        (run_cmd-Keeps exec d chain) (each-Keeps exec rule d ports)

  chain_rules-Done :
      (chain : Command) (rule : ℕ → Command) (p : ℕ) (ports : List ℕ)
      → contains p ports ≡ true
      → (log : Log) → Ends (Both chain (rule p)) (chain_rules exec chain rule ports log)
  unfolding chain_rules
  chain_rules-Done chain rule p ports h log =
      Ends-both (Done chain) (Done (rule p)) _
        (Ends-then_first chain (run_cmd exec chain) (for_each (λ p. run_cmd exec (rule p)) ports)
          (run_cmd-Done exec chain) (each-Keeps exec rule chain ports) log)
        (Ends-then_second (Done (rule p)) (run_cmd exec chain)
          (for_each (λ p. run_cmd exec (rule p)) ports) (each-Done exec rule p ports h) log)

  -- What the first of two actions has done stays done.
  then-Both :
      (chain rule : Command) (a b : Action)
      → ((log : Log) → Ends (Both chain rule) (a log))
      → Keeps chain b
      → Keeps rule b
      → (log : Log) → Ends (Both chain rule) ((a >> b) log)
  then-Both chain rule a b first k l log =
      Ends-proceed (Both chain rule) (Both chain rule) b (a log) (first log)
        λ after h. Ends-kept (Both chain rule) (b after) (k after h.0, l after h.1)

  drop_output-Keeps :
      (d : Command) (ports : List ℕ) → Keeps d (drop_output exec f c.interface ports)
  unfolding drop_output
  drop_output-Keeps d [] = λ log h. h
  drop_output-Keeps d (q ∷ ports) = chain_rules-Keeps d _ _ (q ∷ ports)

  pub block_output-Keeps : (d : Command) → Keeps d (setup_quic_block_output exec c f)
  unfolding setup_quic_block_output
  block_output-Keeps d = elim (Option-cases c.fwmark) [
    | inl e ↦ rw (e, setup_quic_block_output) (λ log h. h)
    | inr (mark, e) ↦ rw (e, setup_quic_block_output) (drop_output-Keeps d (quic_block_ports c))
  ]

  pub tproxy-Keeps : (d : Command) → Keeps d (setup_udp_tproxy exec c f)
  unfolding setup_udp_tproxy
  tproxy-Keeps d = elim (List-cases (quic_block_ports c)) [
    | inl e ↦ rw (setup_udp_tproxy, e) (λ log h. h)
    | inr (q, ports, e) ↦ rw (setup_udp_tproxy, e) (chain_rules-Keeps d _ _ (q ∷ ports))
  ]

  pub block-Keeps : (d : Command) → Keeps d (setup_quic_block exec c f)
  unfolding setup_quic_block
  block-Keeps d = elim (List-cases (quic_block_ports c)) [
    | inl e ↦ rw (setup_quic_block, e) (λ log h. h)
    | inr (q, ports, e) ↦
        rw (setup_quic_block, e)
          (Keeps-then d (chain_rules exec _ _ (q ∷ ports)) (setup_quic_block_output exec c f)
            (chain_rules-Keeps d _ _ (q ∷ ports)) (block_output-Keeps d))
  ]

  -- The two branches of a match on what an action returned.
  branch-Ends :
      (P Q : Log → Type 0) (a b : Action) (r : Bool × Log)
      → Ends P r
      → ((log : Log) → P log → Ends Q (a log))
      → ((log : Log) → Ends Q (b log))
      → Ends Q (branch exec a b r)
  branch-Ends P Q a b (true, log) h k m = k log h
  branch-Ends P Q a b (false, log) h k m = m log

  branch-Keeps :
      (d : Command) (a b : Action) (r : Bool × Log)
      → Keeps d a
      → Keeps d b
      → Done d r.1
      → Done d (branch exec a b r).1
  branch-Keeps d a b (true, log) k m h = k log h
  branch-Keeps d a b (false, log) k m h = m log h

  pub udp_handling-Keeps : (d : Command) → Keeps d (setup_udp_handling exec c f)
  unfolding setup_udp_handling
  udp_handling-Keeps d log h = elim (Bool-cases c.proxy_udp) [
    | inl e ↦
        rw (setup_udp_handling, e)
          (branch-Keeps d (setup_quic_block_output exec c f) (setup_quic_block exec c f)
            (setup_udp_tproxy exec c f log) (block_output-Keeps d) (block-Keeps d)
            (tproxy-Keeps d log h))
    | inr e ↦ elim (Bool-cases c.block_quic) [
      | inl k ↦ rw (setup_udp_handling, e, k) (block-Keeps d log h)
      | inr k ↦ rw (setup_udp_handling, e, k) h
    ]
  ]

  module _ (p : ℕ) (chosen : contains p (quic_block_ports c) ≡ true) where
    drop_output-Dropped :
        (ports : List ℕ)
        → contains p ports ≡ true
        → (log : Log) → Ends (Dropped c f p) (drop_output exec f c.interface ports log)
    unfolding drop_output contains quic_drop_rule_args
    drop_output-Dropped [] h = cc
    drop_output-Dropped (q ∷ ports) h =
        chain_rules-Done _ (quic_drop_rule_args f "quic_output" "oifname" c.interface) p (q ∷ ports)
          h

    block_output-Dropped :
        (mark : ℕ)
        → c.fwmark ≡ some mark
        → (log : Log) → Ends (Dropped c f p) (setup_quic_block_output exec c f log)
    unfolding setup_quic_block_output
    block_output-Dropped mark e =
        rw (e, setup_quic_block_output) (drop_output-Dropped (quic_block_ports c) chosen)

    abbrev tproxy_chain : Command
    tproxy_chain =
        add_chain f "tproxy_prerouting" "{ type filter hook prerouting priority mangle ; }"

    abbrev forward_chain : Command
    forward_chain = add_chain f "quic_forward" "{ type filter hook forward priority 0 ; }"

    tproxy-Done :
        (log : Log)
        → Ends
            (Both tproxy_chain (tproxy_rule_args f c.interface p c.proxy_port))
            (setup_udp_tproxy exec c f log)
    unfolding setup_udp_tproxy contains
    tproxy-Done = elim (List-cases (quic_block_ports c)) [
      | inl e ↦ absurd (ground (arith, e))
      | inr (q, ports, e) ↦
          rw (setup_udp_tproxy, e)
            (chain_rules-Done _ (λ p. tproxy_rule_args f c.interface p c.proxy_port) p (q ∷ ports)
              (rw e at chosen))
    ]

    block-Done :
        (log : Log)
        → Ends
            (Both forward_chain (quic_drop_rule_args f "quic_forward" "iifname" c.interface p))
            (setup_quic_block exec c f log)
    unfolding setup_quic_block contains
    block-Done = elim (List-cases (quic_block_ports c)) [
      | inl e ↦ absurd (ground (arith, e))
      | inr (q, ports, e) ↦
          rw (setup_quic_block, e)
            (then-Both forward_chain _ (chain_rules exec _ _ (q ∷ ports))
              (setup_quic_block_output exec c f)
              (chain_rules-Done _ (quic_drop_rule_args f "quic_forward" "iifname" c.interface) p
                (q ∷ ports) (rw e at chosen))
              (block_output-Keeps forward_chain) (block_output-Keeps _))
    ]

    block-Dropped :
        (mark : ℕ)
        → c.fwmark ≡ some mark
        → (log : Log) → Ends (Dropped c f p) (setup_quic_block exec c f log)
    unfolding setup_quic_block contains
    block-Dropped mark m = elim (List-cases (quic_block_ports c)) [
      | inl e ↦ absurd (ground (arith, e))
      | inr (q, ports, e) ↦
          rw (setup_quic_block, e)
            (Ends-then_second (Dropped c f p) (chain_rules exec _ _ (q ∷ ports))
              (setup_quic_block_output exec c f) (block_output-Dropped mark m))
    ]

    -- No port is to be caught where QUIC is not blocked.
    blocked : c.block_quic ≡ true
    unfolding quic_block_ports contains
    blocked = ground arith

    -- When the handling of UDP succeeds, for every port that is to be caught the rule that hands
    -- forwarded UDP to the proxy was added, or the rule that drops it: also where the kernel refuses
    -- TPROXY at any point and the code falls back.
    pub udp_handling-Caught : (log : Log) → Ends (Caught c f p) (setup_udp_handling exec c f log)
    unfolding setup_udp_handling tproxy_rule_args quic_drop_rule_args
    udp_handling-Caught log = elim (Bool-cases c.proxy_udp) [
      | inl e ↦
          rw (setup_udp_handling, e)
            (branch-Ends (Both tproxy_chain (tproxy_rule_args f c.interface p c.proxy_port))
              (Caught c f p) (setup_quic_block_output exec c f) (setup_quic_block exec c f)
              (setup_udp_tproxy exec c f log) (tproxy-Done log)
              (λ after h.
                Ends-kept (Caught c f p) _
                  (inl (block_output-Keeps _ after h.0, block_output-Keeps _ after h.1)))
              (λ after. Ends-map _ (Caught c f p) _ (block-Done after) λ later h. inr h))
      | inr e ↦
          rw (setup_udp_handling, e, blocked)
            (Ends-map _ (Caught c f p) _ (block-Done log) λ later h. inr h)
    ]

    -- When the handling of UDP succeeds and a mark is set, for every port that is to be caught there is
    -- a filter chain at the output hook with the rule that drops UDP to the port that leaves by the
    -- interface, with TPROXY or without.
    pub udp_handling-Dropped :
        (mark : ℕ)
        → c.fwmark ≡ some mark
        → (log : Log) → Ends (Dropped c f p) (setup_udp_handling exec c f log)
    unfolding setup_udp_handling
    udp_handling-Dropped mark m log = elim (Bool-cases c.proxy_udp) [
      | inl e ↦
          rw (setup_udp_handling, e)
            (branch-Ends (λ _. Unit) (Dropped c f p) (setup_quic_block_output exec c f)
              (setup_quic_block exec c f) (setup_udp_tproxy exec c f log) (Ends-any _)
              (λ after h. block_output-Dropped mark m after) (block-Dropped mark m))
      | inr e ↦ rw (setup_udp_handling, e, blocked) (block-Dropped mark m log)
    ]
