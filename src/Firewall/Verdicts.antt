-- ===== src/Firewall/Verdicts.antt =====
-- What happens to a packet under the rules of the two NAT chains of src/firewall/nftables.rs.
use trans_proxy.Base.{
  ℕ, ◌≡◌, refl, ap, ◌∙◌, true, false, Bool, ◌&&◌, ◌||◌, List, [], ◌∷◌, ◌++◌, arith, ◌==◌, Bytes,
  Option, none, some, Bool-cases, inl, inr, if◌then◌else◌,
}
use trans_proxy.Net.{IpAddr, SocketAddr, IpAddr-discrete}
use trans_proxy.Config.{contains}
use trans_proxy.Firewall.{FirewallConfig}
use trans_proxy.Firewall.Nftables.{Family}
use trans_proxy.Firewall.Plan.{
  tcp, udp, Match, from_iface, dport, to_local, has_mark, Verdict, accept, go_on, redirect, dnat,
  Rule, dns_rules, ssh_rules, port_rules, tcp_rules, prerouting_rules, upstream_rules,
  local_tcp_rules, output_rules, of_family, Packet, holds, Bytes-discrete, same_protocol, satisfies,
  satisfies_all, Nft,
}

-- The rules in order, then what is decided where none of them matches.
abbrev pub first_match : Packet → List Rule → Verdict → Verdict
first_match p [] v = v
first_match p (r ∷ rs) v = if satisfies_all p r.matches then r.verdict else first_match p rs v

pub decide-first_match :
    (nft : Nft) (rs : List Rule) (p : Packet) → Nft.decide nft rs p ≡ first_match p rs accept
decide-first_match nft [] p = Nft.policy nft p
decide-first_match nft (r ∷ rs) p = elim (Bool-cases (satisfies_all p r.matches)) [
  | inl e ↦ rw e (Nft.hit nft r rs p e)
  | inr e ↦ rw e (Nft.miss nft r rs p e ∙ decide-first_match nft rs p)
]

first_match-append :
    (p : Packet) (rs ss : List Rule) (v : Verdict)
    → first_match p (rs ++ ss) v ≡ first_match p rs (first_match p ss v)
first_match-append p [] ss v = refl
first_match-append p (r ∷ rs) ss v =
    ap (λ x. if satisfies_all p r.matches then r.verdict else x) (first_match-append p rs ss v)

-- The packet is TCP or UDP to port 53.
abbrev pub is_dns : Packet → Bool
is_dns p = (same_protocol udp p.protocol || same_protocol tcp p.protocol) && 53 == p.port

abbrev pub is_ssh_to : Packet → Option IpAddr → Bool
is_ssh_to p none = false
is_ssh_to p (some a) =
    holds (IpAddr-discrete a p.destination) && (same_protocol tcp p.protocol && 22 == p.port)

-- TCP without a list of ports, and with one.
abbrev pub expected_tcp : ℕ → Option (List ℕ) → Bool → Packet → Verdict
expected_tcp proxy_port none bypassed p =
    if bypassed then go_on else if same_protocol tcp p.protocol then redirect proxy_port else accept
expected_tcp proxy_port (some ports) bypassed p =
    if same_protocol tcp p.protocol && contains p.port ports then redirect proxy_port else accept

abbrev pub expected_dns : Option Bytes → Packet → Verdict → Verdict
expected_dns none p v = v
expected_dns (some t) p v = if is_dns p then dnat t else v

-- What the prerouting chain is for: DNS from the interface goes to the target, SSH to the gateway
-- and all that is addressed to it go on, and other TCP, or TCP to a listed port, to the proxy.
abbrev pub expected_prerouting : FirewallConfig → Option Bytes → Option IpAddr → Packet → Verdict
expected_prerouting c target addr p =
    if holds (Bytes-discrete c.interface p.iface)
    then expected_dns target p (expected_tcp c.proxy_port c.ports (is_ssh_to p addr || p.local) p)
    else accept

satisfies_all-snoc :
    (p : Packet) (ms : List Match) (m : Match)
    → satisfies_all p (ms ++ m ∷ []) ≡ (satisfies_all p ms && satisfies p m)
unfolding satisfies_all
satisfies_all-snoc p [] m = ground arith
satisfies_all-snoc p (n ∷ ms) m = ground (arith, satisfies_all-snoc p ms m)

port_rules-verdict :
    (from : List Match) (p : Packet) (port : ℕ) (ports : List ℕ)
    → first_match p (port_rules from port ports) accept ≡ (
        if satisfies_all p from && (same_protocol tcp p.protocol && contains p.port ports)
        then redirect port
        else accept)
unfolding port_rules contains satisfies
port_rules-verdict from p port [] = ground arith
port_rules-verdict from p port (q ∷ ports) =
    ground (arith, satisfies_all-snoc p from (dport tcp q), port_rules-verdict from p port ports)

dns_rules-verdict :
    (iface : Bytes) (t : Option Bytes) (p : Packet) (v : Verdict)
    → first_match p (dns_rules iface t) v
      ≡ (if holds (Bytes-discrete iface p.iface) then expected_dns t p v else v)
unfolding dns_rules satisfies_all satisfies
dns_rules-verdict iface none p v = ground arith
dns_rules-verdict iface (some t) p v = ground arith

ssh_rules-verdict :
    (f : Family) (iface : Bytes) (addr : Option IpAddr) (p : Packet) (v : Verdict)
    → first_match p (ssh_rules (from_iface iface ∷ []) f addr) v
      ≡ (if holds (Bytes-discrete iface p.iface) && is_ssh_to p addr then go_on else v)
unfolding ssh_rules satisfies_all satisfies
ssh_rules-verdict f iface none p v = ground arith
ssh_rules-verdict f iface (some a) p v = ground arith

tcp_rules-verdict :
    (f : Family) (iface : Bytes) (port : ℕ) (addr : Option IpAddr) (ports : Option (List ℕ))
    (p : Packet)
    → first_match p (tcp_rules f iface port addr ports) accept ≡ (
        if holds (Bytes-discrete iface p.iface)
        then expected_tcp port ports (is_ssh_to p addr || p.local) p
        else accept)
unfolding tcp_rules satisfies_all satisfies
tcp_rules-verdict f iface port addr (some ports) p =
    port_rules-verdict (from_iface iface ∷ []) p port ports ∙ ground arith
tcp_rules-verdict f iface port addr none p =
    first_match-append p (ssh_rules (from_iface iface ∷ []) f addr) _ accept
    ∙ ssh_rules-verdict f iface addr p _
    ∙ ground arith

twice {ℓ} :
    {A : Type ℓ} (b : Bool) (g : A → A) (v w : A)
    → (if b then g (if b then v else w) else (if b then v else w)) ≡ (if b then g v else w)
twice true g v w = refl
twice false g v w = refl

-- Whatever nft decides by its documented rule, the prerouting chain does with every packet what it
-- is for, for each family, DNS target, address and list of ports.
pub prerouting_rules-verdict :
    (nft : Nft) (f : Family) (c : FirewallConfig) (target : Option Bytes) (addr : Option IpAddr)
    (p : Packet)
    → Nft.decide nft (prerouting_rules f c target addr) p ≡ expected_prerouting c target addr p
unfolding prerouting_rules
prerouting_rules-verdict nft f c target addr p =
    decide-first_match nft (prerouting_rules f c target addr) p
    ∙ first_match-append p (dns_rules c.interface target) _ accept
    ∙ ap (first_match p (dns_rules c.interface target))
        (tcp_rules-verdict f c.interface c.proxy_port addr c.ports p)
    ∙ dns_rules-verdict c.interface target p _
    ∙ twice (holds (Bytes-discrete c.interface p.iface)) (expected_dns target p) _ accept

-- Whether the packet goes to the upstream proxy itself.
abbrev pub is_to_upstream : Packet → Option SocketAddr → Bool
is_to_upstream p none = false
is_to_upstream p (some u) =
    holds (IpAddr-discrete u.ip p.destination) && (same_protocol tcp p.protocol && u.port == p.port)

-- What the output chain is for: what the proxy marked, what goes to the upstream proxy and what
-- stays on the host goes on, and other TCP, or TCP to a listed port, goes to the proxy.
abbrev pub expected_output : FirewallConfig → ℕ → Option IpAddr → Packet → Verdict
expected_output c mark addr p =
    if mark == p.mark || (is_to_upstream p c.upstream_addr || p.local)
    then go_on
    else expected_tcp c.proxy_port c.ports (is_ssh_to p addr) p

-- An address that is a packet's destination is of the packet's family.
family_known :
    (f : Family) (a b : IpAddr) (d : Dec (a ≡ b))
    → of_family f b ≡ true
    → (x : Bool) → (of_family f a && (holds d && x)) ≡ (holds d && x)
family_known f a b (yes same) h x = rw (ap (of_family f) same ∙ h) refl
family_known f a b (no other) h x = ground arith

upstream_rules-verdict :
    (f : Family) (u : Option SocketAddr) (p : Packet) (v : Verdict)
    → of_family f p.destination ≡ true
    → first_match p (upstream_rules f u) v ≡ (if is_to_upstream p u then go_on else v)
unfolding upstream_rules satisfies_all satisfies
upstream_rules-verdict f none p v h = refl
upstream_rules-verdict f (some u) p v h =
    in_family u v
    ∙ ap (λ b. if b then go_on else v)
        (family_known f u.ip p.destination (IpAddr-discrete u.ip p.destination) h
          (same_protocol tcp p.protocol && u.port == p.port))
  where
    in_family :
        (u : SocketAddr) (v : Verdict)
        → first_match p (upstream_rules f (some u)) v ≡ (
            if of_family f u.ip
              && (holds (IpAddr-discrete u.ip p.destination)
                  && (same_protocol tcp p.protocol && u.port == p.port))
            then go_on
            else v)
    in_family u v = ground arith

local_ssh-verdict :
    (f : Family) (addr : Option IpAddr) (p : Packet) (v : Verdict)
    → first_match p (ssh_rules [] f addr) v ≡ (if is_ssh_to p addr then go_on else v)
unfolding ssh_rules satisfies_all satisfies
local_ssh-verdict f none p v = refl
local_ssh-verdict f (some a) p v = ground arith

local_tcp-verdict :
    (f : Family) (port : ℕ) (addr : Option IpAddr) (ports : Option (List ℕ)) (p : Packet)
    → first_match p (local_tcp_rules f port addr ports) accept
      ≡ expected_tcp port ports (is_ssh_to p addr) p
unfolding local_tcp_rules satisfies_all satisfies
local_tcp-verdict f port addr (some ports) p = port_rules-verdict [] p port ports
local_tcp-verdict f port addr none p =
    first_match-append p (ssh_rules [] f addr) _ accept
    ∙ local_ssh-verdict f addr p _
    ∙ ground arith

joined :
    (a b d : Bool) (v : Verdict)
    → (if a && true then go_on else if b then go_on else if d && true then go_on else v)
      ≡ (if a || (b || d) then go_on else v)
joined a b d v = ground arith

-- Whatever nft decides by its documented rule, the output chain does with every packet what it is
-- for: in particular it never redirects a packet that bears the proxy's mark or goes to the
-- upstream proxy.
pub output_rules-verdict :
    (nft : Nft) (f : Family) (c : FirewallConfig) (mark : ℕ) (addr : Option IpAddr) (p : Packet)
    → of_family f p.destination ≡ true
    → Nft.decide nft (output_rules f c mark addr) p ≡ expected_output c mark addr p
unfolding output_rules satisfies_all satisfies
output_rules-verdict nft f c mark addr p h =
    decide-first_match nft (output_rules f c mark addr) p
    ∙ ap (λ v. if satisfies_all p (has_mark mark ∷ []) then go_on else v)
        (first_match-append p (upstream_rules f c.upstream_addr) _ accept
          ∙ ap
              (λ v.
                first_match p (upstream_rules f c.upstream_addr)
                  (if satisfies_all p (to_local ∷ []) then go_on else v))
              (local_tcp-verdict f c.proxy_port addr c.ports p)
          ∙ upstream_rules-verdict f c.upstream_addr p _ h)
    ∙ joined (mark == p.mark) (is_to_upstream p c.upstream_addr) p.local _
