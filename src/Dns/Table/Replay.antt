-- ===== src/Dns/Table/Replay.antt =====
-- `DnsTable` of src/dns.rs against a table without bound: the function that any sequence of
-- insertions makes of the function that knows nothing.
use trans_proxy.Base.{
  ℕ, ◌+◌, ◌≡◌, refl, sym, ap, ◌∙◌, List, [], ◌∷◌, Option, none, some, leb, if◌then◌else◌, Bytes,
  arith,
}
use trans_proxy.Map
use trans_proxy.Map.{test}
use trans_proxy.Map.Order.{KeyOrder}
use trans_proxy.Net.{IpAddr, IpAddr-discrete}
use trans_proxy.Dns.Table.{TableEntry, Table, new, unexpired, lookup, insert, secs}
use trans_proxy.Dns.Table.Laws.{IsTable, insert-IsTable, lookup-insert_self, lookup-insert_ne}

-- An insertion, with the two readings of the clock.
pub record Learned : Type 0 where
  pub now : ℕ
  pub later : ℕ
  pub ip : IpAddr
  pub domain : Bytes
  pub ttl : ℕ

-- What is known, at a time, of an address.
abbrev pub Known : Type 0
Known = ℕ → IpAddr → Option Bytes

abbrev pub learn : Learned → Known → Known
learn c f at j =
    if test (IpAddr-discrete c.ip j)
    then (if leb (c.now + secs c.ttl) at then none else some c.domain)
    else f at j

abbrev pub replay_learned : List Learned → Known → Known
replay_learned [] f = f
replay_learned (c ∷ cs) f = replay_learned cs (learn c f)

new-IsTable : IsTable new
new-IsTable = record { distinct = tt; bounded = omega arith }

new_empty : (at : ℕ) (j : IpAddr) → lookup at j new ≡ none
unfolding lookup unexpired Map.get
new_empty at j = refl

module _ (order : KeyOrder TableEntry IpAddr-discrete) where
  unfoldable pub learn_all : List Learned → Table → Table
  learn_all [] table = table
  learn_all (c ∷ cs) table = learn_all cs (insert order c.now c.later c.ip c.domain c.ttl table)

  -- What the table answers is known.
  abbrev Refines : Table → Known → Type 0
  Refines table f = (at : ℕ) (j : IpAddr) (d : Bytes) → lookup at j table ≡ some d → f at j ≡ some d

  insert-Refines :
      (c : Learned) (table : Table) (f : Known)
      → IsTable table
      → Refines table f
      → Refines (insert order c.now c.later c.ip c.domain c.ttl table) (learn c f)
  insert-Refines c table f t h at j d e =
      elim (IpAddr-discrete c.ip j)
        as (λ k.
          (if test k then (if leb (c.now + secs c.ttl) at then none else some c.domain) else f at j)
          ≡ some d) [
            | yes p ↦
                let found : lookup at c.ip (insert order c.now c.later c.ip c.domain c.ttl table)
                    ≡ some d =
                  ap (λ k. lookup at k (insert order c.now c.later c.ip c.domain c.ttl table)) p
                  ∙ e in
                sym (lookup-insert_self order c.now c.later at c.ip c.domain c.ttl table) ∙ found
            | no p ↦
                h at j d
                  (lookup-insert_ne order c.now c.later at c.ip j c.domain d c.ttl table t p e)
          ]

  learn_all-Refines :
      (cs : List Learned) (table : Table) (f : Known)
      → IsTable table
      → Refines table f
      → IsTable (learn_all cs table) × Refines (learn_all cs table) (replay_learned cs f)
  unfolding learn_all
  learn_all-Refines [] table f t h = (t, h)
  learn_all-Refines (c ∷ cs) table f t h =
      learn_all-Refines cs (insert order c.now c.later c.ip c.domain c.ttl table) (learn c f)
        (insert-IsTable order c.now c.later c.ip c.domain c.ttl table t)
        (insert-Refines c table f t h)

  -- After any sequence of insertions into the empty table, whatever the evictions, the table has one
  -- entry for each address and at most 10,000, and a domain that it answers at any time is the one
  -- that was last learned for that address, with its lifetime not yet over.
  pub learn_all-replay :
      (cs : List Learned) (at : ℕ) (j : IpAddr) (d : Bytes)
      → lookup at j (learn_all cs new) ≡ some d
      → IsTable (learn_all cs new) × (replay_learned cs (λ _ _. none) at j ≡ some d)
  learn_all-replay cs at j d e =
      let (t, h) =
        learn_all-Refines cs new (λ _ _. none) new-IsTable (λ at j d e. sym (new_empty at j) ∙ e) in
      (t, h at j d e)
