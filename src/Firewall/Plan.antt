-- ===== src/Firewall/Plan.antt =====
-- What the rules of src/firewall/nftables.rs are to be: the chains as lists of typed rules, the
-- words of a rule in the grammar of nft, and what a rule matches.
use Prim.Native.String.{String}
use trans_proxy.Base.{
  ℕ, ◌≡◌, true, false, Bool, ◌&&◌, List, [], ◌∷◌, ◌++◌, map, ◌==◌, Bytes, Option, none, some,
  if◌then◌else◌,
}
use native.Mathlib.Decide.{ℕ_discrete}
use trans_proxy.Base.Decimal.{text, decimal}
use trans_proxy.Net.{IpAddr, v4, v6, SocketAddr, IpAddr-discrete}
use trans_proxy.Firewall.{FirewallConfig}
use trans_proxy.Firewall.Action.{Command}
use trans_proxy.Firewall.Nftables.{Family, ip, ip6, add_chain, add_rule, port_text, family_table}

pub data Protocol : Type 0 where
  tcp udp other : Protocol

pub data Match : Type 0 where
  from_iface : Bytes → Match
  dport : Protocol → ℕ → Match
  daddr : Family → IpAddr → Match
  to_local : Match
  is_tcp : Match
  has_mark : ℕ → Match

pub data Verdict : Type 0 where
  accept go_on : Verdict
  redirect : ℕ → Verdict
  dnat : Bytes → Verdict

pub record Rule : Type 0 where
  pub matches : List Match
  pub verdict : Verdict

unfoldable pub protocol_text : Protocol → Bytes
protocol_text tcp = text "tcp"
protocol_text udp = text "udp"
protocol_text other = []

unfoldable pub match_words : (IpAddr → Bytes) → Match → List Bytes
match_words show_ip (from_iface i) = text "iifname" ∷ i ∷ []
match_words show_ip (dport proto p) = protocol_text proto ∷ text "dport" ∷ decimal p ∷ []
match_words show_ip (daddr f a) = family_table f ∷ text "daddr" ∷ show_ip a ∷ []
match_words show_ip to_local = text "fib" ∷ text "daddr" ∷ text "type" ∷ text "local" ∷ []
match_words show_ip is_tcp = text "meta" ∷ text "l4proto" ∷ text "tcp" ∷ []
match_words show_ip (has_mark m) = text "meta" ∷ text "mark" ∷ decimal m ∷ []

unfoldable pub verdict_words : Verdict → List Bytes
verdict_words accept = text "accept" ∷ []
verdict_words go_on = text "return" ∷ []
verdict_words (redirect p) = text "redirect" ∷ text "to" ∷ port_text p ∷ []
verdict_words (dnat t) = text "dnat" ∷ text "to" ∷ t ∷ []

unfoldable pub rule_words : (IpAddr → Bytes) → List Match → Verdict → List Bytes
rule_words show_ip [] v = verdict_words v
rule_words show_ip (m ∷ ms) v = match_words show_ip m ++ rule_words show_ip ms v

unfoldable pub rule_command : (IpAddr → Bytes) → Family → String → Rule → Command
rule_command show_ip f chain r = add_rule f chain (rule_words show_ip r.matches r.verdict)

-- The rules of the prerouting chain, with the DNS target and the interface's address.
unfoldable pub dns_rules : Bytes → Option Bytes → List Rule
dns_rules iface none = []
dns_rules iface (some t) =
    record { matches = from_iface iface ∷ dport udp 53 ∷ []; verdict = dnat t }
    ∷ record { matches = from_iface iface ∷ dport tcp 53 ∷ []; verdict = dnat t }
    ∷ []

unfoldable pub ssh_rules : List Match → Family → Option IpAddr → List Rule
ssh_rules from f none = []
ssh_rules from f (some a) =
    record { matches = from ++ daddr f a ∷ dport tcp 22 ∷ []; verdict = go_on } ∷ []

unfoldable pub port_rules : List Match → ℕ → List ℕ → List Rule
port_rules from proxy_port =
    map λ p. record { matches = from ++ dport tcp p ∷ []; verdict = redirect proxy_port }

unfoldable pub tcp_rules : Family → Bytes → ℕ → Option IpAddr → Option (List ℕ) → List Rule
tcp_rules f iface proxy_port addr (some ports) = port_rules (from_iface iface ∷ []) proxy_port ports
tcp_rules f iface proxy_port addr none =
    ssh_rules (from_iface iface ∷ []) f addr
    ++ record { matches = from_iface iface ∷ to_local ∷ []; verdict = go_on }
      ∷ record { matches = from_iface iface ∷ is_tcp ∷ []; verdict = redirect proxy_port }
      ∷ []

unfoldable pub prerouting_rules : Family → FirewallConfig → Option Bytes → Option IpAddr → List Rule
prerouting_rules f c target addr =
    dns_rules c.interface target ++ tcp_rules f c.interface c.proxy_port addr c.ports

-- The rules of the output chain.
unfoldable pub of_family : Family → IpAddr → Bool
of_family ip (v4 _ _ _ _) = true
of_family ip6 (v6 _) = true
of_family _ _ = false

unfoldable pub upstream_rules : Family → Option SocketAddr → List Rule
upstream_rules f none = []
upstream_rules f (some u) =
    if of_family f u.ip
    then record { matches = daddr f u.ip ∷ dport tcp u.port ∷ []; verdict = go_on } ∷ []
    else []

unfoldable pub local_tcp_rules : Family → ℕ → Option IpAddr → Option (List ℕ) → List Rule
local_tcp_rules f proxy_port addr (some ports) = port_rules [] proxy_port ports
local_tcp_rules f proxy_port addr none =
    ssh_rules [] f addr ++ record { matches = is_tcp ∷ []; verdict = redirect proxy_port } ∷ []

unfoldable pub output_rules : Family → FirewallConfig → ℕ → Option IpAddr → List Rule
output_rules f c mark addr =
    record { matches = has_mark mark ∷ []; verdict = go_on }
    ∷ (upstream_rules f c.upstream_addr
        ++ record { matches = to_local ∷ []; verdict = go_on }
          ∷ local_tcp_rules f c.proxy_port addr c.ports)

-- The commands that make the two chains.
module _ (show_ip : IpAddr → Bytes) where
  unfoldable pub prerouting_commands :
      Family → FirewallConfig → Option Bytes → Option IpAddr → List Command
  prerouting_commands f c target addr =
      (text "nft" ∷ text "add" ∷ text "table" ∷ family_table f ∷ text "trans_proxy" ∷ [])
      ∷ add_chain f "prerouting" "{ type nat hook prerouting priority -100 ; }"
      ∷ map (rule_command show_ip f "prerouting") (prerouting_rules f c target addr)

  unfoldable pub output_commands : Family → FirewallConfig → Option IpAddr → List Command
  output_commands f c addr = elim c.fwmark [
    | none ↦ []
    | some mark ↦
        add_chain f "output" "{ type nat hook output priority -100 ; }"
        ∷ map (rule_command show_ip f "output") (output_rules f c mark addr)
  ]

-- A packet, and whether a rule matches it.
pub record Packet : Type 0 where
  pub iface : Bytes
  pub protocol : Protocol
  pub port : ℕ
  pub destination : IpAddr
  pub local : Bool
  pub mark : ℕ

abbrev pub holds : {P : Type 0} → Dec P → Bool
holds (yes _) = true
holds (no _) = false

unfoldable pub Bytes-discrete : Discrete Bytes
Bytes-discrete = hlevel ℕ_discrete

unfoldable pub same_protocol : Protocol → Protocol → Bool
same_protocol tcp tcp = true
same_protocol udp udp = true
same_protocol other other = true
same_protocol _ _ = false

unfoldable pub satisfies : Packet → Match → Bool
satisfies p (from_iface i) = holds (Bytes-discrete i p.iface)
satisfies p (dport proto n) = same_protocol proto p.protocol && n == p.port
satisfies p (daddr f a) = holds (IpAddr-discrete a p.destination)
satisfies p to_local = p.local
satisfies p is_tcp = same_protocol tcp p.protocol
satisfies p (has_mark m) = m == p.mark

unfoldable pub satisfies_all : Packet → List Match → Bool
satisfies_all p [] = true
satisfies_all p (m ∷ ms) = satisfies p m && satisfies_all p ms

-- What nft documents of a base chain that accepts by policy: rules are tried in order, and the
-- verdict of the first that matches is final.
pub record Nft : Type 0 where
  pub decide : List Rule → Packet → Verdict
  pub policy : (p : Packet) → decide [] p ≡ accept
  pub hit :
      (r : Rule) (rs : List Rule) (p : Packet)
      → satisfies_all p r.matches ≡ true
      → decide (r ∷ rs) p ≡ r.verdict
  pub miss :
      (r : Rule) (rs : List Rule) (p : Packet)
      → satisfies_all p r.matches ≡ false
      → decide (r ∷ rs) p ≡ decide rs p
