-- ===== src/Dns/Pending/Insert.antt =====
-- `pending_insert` of src/dns.rs: it ends, keeps the map bounded, and gives each query an id of
-- its own.
use trans_proxy.Base.{
  ℕ, suc, ◌<◌, ◌≡◌, ◌⊎◌, inl, inr, refl, sym, ap, ◌∙◌, Option-cases, List, [], ◌∷◌, arith, length,
  take, ret, Option, none, some,
}
use mathlib.Core.Path.{subst}
use native.Mathlib.Decide.{ℕ_discrete}
use trans_proxy.Map
use trans_proxy.Map.{Distinct, test}
use trans_proxy.Map.Laws.{
  get-insert_self, length-insert-le, insert-Distinct, retain-Distinct, length-retain-le,
}
use trans_proxy.Dns.Pending.{
  max_pending_queries, PendingQuery, Pending, is_waiting, pick, pending_insert,
}
use trans_proxy.Dns.Pending.Laws.{IsPending, Within, Within-retain, evict-total}

-- The query was stored under an id that none of the queries kept had.
pub record Stored (entry : PendingQuery) (kept m' : Pending) (id : ℕ) : Type 0 where
  pub unused : Map.get ℕ_discrete id kept ≡ none
  pub map_is : m' ≡ Map.insert ℕ_discrete id entry kept

-- One of the numbers is no query's id.
abbrev pub HasFree : List ℕ → Pending → Type 0
HasFree [] m = ⊥
HasFree (id ∷ ids) m = (Map.get ℕ_discrete id m ≡ none) ⊎ HasFree ids m

-- Only where none of the numbers is free the queries kept are the whole result.
abbrev pub PickResult : List ℕ → PendingQuery → Pending → Pending → Option ℕ → Type 0
PickResult ids entry kept m' none = (m' ≡ kept) × (HasFree ids kept → ⊥)
PickResult ids entry kept m' (some id) = Stored entry kept m' id

-- A number that is in use is not free.
still_none :
    (id : ℕ) (ids : List ℕ) (entry q : PendingQuery) (kept m' : Pending) (given : Option ℕ)
    → Map.get ℕ_discrete id kept ≡ some q
    → PickResult ids entry kept m' given
    → PickResult (id ∷ ids) entry kept m' given
still_none id ids entry q kept m' none used (e, no_free) =
    (e, λ h. elim h [ inl free ↦ absurd (cc) | inr later ↦ no_free later ])
still_none id ids entry q kept m' (some i) used stored = stored

pick-PickResult :
    (ids : List ℕ) (entry : PendingQuery) (kept : Pending)
    → PickResult ids entry kept (pick ids entry kept).0 (pick ids entry kept).1
unfolding pick
pick-PickResult [] entry kept = (refl, λ h. h)
pick-PickResult (id ∷ ids) entry kept = elim (Option-cases (Map.get ℕ_discrete id kept)) [
  | inl free ↦ rw (free, pick) (record { unused = free; map_is = refl })
  | inr (q, used) ↦
      rw (used, pick)
        (still_none id ids entry q kept (pick ids entry kept).0 (pick ids entry kept).1 used
          (pick-PickResult ids entry kept))
]

PickResult-IsPending :
    (ids : List ℕ) (entry : PendingQuery) (kept m' : Pending) (id : Option ℕ)
    → Distinct ℕ_discrete kept
    → length kept < max_pending_queries
    → PickResult ids entry kept m' id
    → IsPending m'
PickResult-IsPending ids entry kept m' none d few (e, _) =
    rw e (record { distinct = d; bounded = omega arith })
PickResult-IsPending ids entry kept m' (some id) d few stored = rw stored.map_is (record {
  distinct = insert-Distinct ℕ_discrete id entry kept d;
  bounded = omega (arith, length-insert-le ℕ_discrete id entry kept);
})

-- What a call of `pending_insert` leaves behind.
pub record Inserted (drawn : List ℕ) (entry : PendingQuery) (now : ℕ) (m : Pending) : Type 0 where
  pub kept : Pending
  pub map_after : Pending
  pub id : Option ℕ
  pub returned : pending_insert drawn entry now m ≡ ret (map_after, id)
  pub valid : IsPending map_after
  pub kept_within : Within kept m
  pub outcome : PickResult (take 64 drawn) entry kept map_after id
  pub picked : pick (take 64 drawn) entry kept ≡ (map_after, id)

-- `pending_insert` always ends. Every query it keeps was there before; the new query is stored
-- under an id that none of them has, and is left out only where each of the first 64 numbers drawn
-- is the id of a query kept; and the map never holds more than 4,096 queries.
pub pending_insert-Inserted :
    (drawn : List ℕ) (entry : PendingQuery) (now : ℕ) (m : Pending)
    → Distinct ℕ_discrete m
    → Inserted drawn entry now m
unfolding pending_insert
pending_insert-Inserted drawn entry now m d =
    let swept = Map.retain (is_waiting now) m in
    let (kept, e, d', few, within) =
      evict-total (suc (length m)) swept (omega (arith, length-retain-le (is_waiting now) m))
        (retain-Distinct ℕ_discrete (is_waiting now) m d) in
    let result = pick (take 64 drawn) entry kept in
    record {
      kept = kept;
      map_after = result.0;
      id = result.1;
      returned = rw e;
      valid =
          PickResult-IsPending (take 64 drawn) entry kept result.0 result.1 d' few
            (pick-PickResult (take 64 drawn) entry kept);
      kept_within = λ j q h. Within-retain (is_waiting now) m d j q (within j q h);
      outcome = pick-PickResult (take 64 drawn) entry kept;
      picked = refl;
    }

HasFree-Within :
    (ids : List ℕ) (kept m : Pending) → Within kept m → HasFree ids m → HasFree ids kept
HasFree-Within [] kept m w h = h
HasFree-Within (id ∷ ids) kept m w (inr later) = inr (HasFree-Within ids kept m w later)
HasFree-Within (id ∷ ids) kept m w (inl free) = elim (Option-cases (Map.get ℕ_discrete id kept)) [
  | inl e ↦ inl e
  | inr (q, found) ↦ absurd (cc (w id q found))
]

pick-HasFree :
    (ids : List ℕ) (entry : PendingQuery) (kept : Pending)
    → HasFree ids kept
    → (id : ℕ) × ((pick ids entry kept).1 ≡ some id)
unfolding pick
pick-HasFree [] entry kept h = absurd h
pick-HasFree (id ∷ ids) entry kept h = elim (Option-cases (Map.get ℕ_discrete id kept)) [
  | inl free ↦ (id, rw (free, pick))
  | inr (q, used) ↦
      rw (used, pick)
        (pick-HasFree ids entry kept (elim h [ inl free ↦ absurd (cc) | inr later ↦ later ]))
]

-- The query is stored whenever one of the first 64 numbers drawn is no pending query's id: an
-- expired or evicted query never stands in the way.
pub pending_insert-HasFree :
    (drawn : List ℕ) (entry : PendingQuery) (now : ℕ) (m : Pending)
    → Distinct ℕ_discrete m
    → HasFree (take 64 drawn) m
    → (id : ℕ) × (m' : Pending) × (pending_insert drawn entry now m ≡ ret (m', some id))
      × (Map.get ℕ_discrete id m' ≡ some entry)
pending_insert-HasFree drawn entry now m d h =
    let r = pending_insert-Inserted drawn entry now m d in
    let (id, given) =
      pick-HasFree (take 64 drawn) entry r.kept
        (HasFree-Within (take 64 drawn) r.kept m r.kept_within h) in
    let is_id : r.id ≡ some id = ap (λ (x : Pending × Option ℕ). x.1) (sym r.picked) ∙ given in
    let stored : PickResult (take 64 drawn) entry r.kept r.map_after (some id) =
      subst (PickResult (take 64 drawn) entry r.kept r.map_after) is_id r.outcome in
    (
      id,
      r.map_after,
      r.returned ∙ ap (λ i. ret (r.map_after, i)) is_id,
      ap (Map.get ℕ_discrete id) stored.map_is ∙ get-insert_self ℕ_discrete id entry r.kept,
    )
