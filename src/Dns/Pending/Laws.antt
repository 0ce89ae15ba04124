-- ===== src/Dns/Pending/Laws.antt =====
-- What the pending queries of src/dns.rs hold after each operation.
use trans_proxy.Base.{
  ℕ, zero, suc, ◌≤◌, ◌<◌, ◌≡◌, ◌⊎◌, refl, sym, ◌∙◌, Bool, true, [], ◌∷◌, Option, none, some, ltb,
  leb, length, ret, arith, Bool-cases, inl, inr, leb→le,
}
use mathlib.Core.Path.{subst}
use native.Mathlib.Decide.{ℕ_discrete}
use trans_proxy.Map
use trans_proxy.Map.{Distinct, test}
use trans_proxy.Map.Laws.{get-remove, get-retain, length-remove, remove-Distinct, keep_if}
use trans_proxy.Dns.Pending.{max_pending_queries, PendingQuery, Pending, oldest_of, oldest, evict}

pub record IsPending (m : Pending) : Type 0 where
  pub distinct : Distinct ℕ_discrete m
  pub bounded : length m ≤ max_pending_queries

-- Every query found in one map is found in the other.
abbrev pub Within : Pending → Pending → Type 0
Within small m =
    (id : ℕ) (q : PendingQuery)
    → Map.get ℕ_discrete id small ≡ some q
    → Map.get ℕ_discrete id m ≡ some q

Within-remove : (id : ℕ) (m : Pending) → Within (Map.remove ℕ_discrete id m) m
Within-remove id m j q h = ground (arith, get-remove ℕ_discrete id j m)

pub Within-retain :
    (keep : PendingQuery → Bool) (m : Pending)
    → Distinct ℕ_discrete m
    → Within (Map.retain keep m) m
Within-retain keep m d j q h =
    kept (Map.get ℕ_discrete j m) (sym (get-retain ℕ_discrete keep j m d) ∙ h)
  where
    kept : (o : Option PendingQuery) → keep_if keep o ≡ some q → o ≡ some q
    kept none f = f
    kept (some q') f = ground arith

-- No query of the map was made before this moment.
abbrev pub NoneBefore : ℕ → Pending → Type 0
NoneBefore c [] = Unit
NoneBefore c ((j, q) ∷ m) = (c ≤ q.created) × NoneBefore c m

-- What a scan from an earlier candidate comes to: the candidate, or an entry of the map.
record Scanned (id created : ℕ) (m : Pending) : Type 0 where
  least : ℕ
  below : least ≤ created
  first : NoneBefore least m
  is_from :
      ((oldest_of id created m ≡ id) × (least ≡ created))
      ⊎ ((q : PendingQuery) × (Map.get ℕ_discrete (oldest_of id created m) m ≡ some q)
          × (q.created ≡ least))

get-head : (j : ℕ) (q : PendingQuery) (m : Pending) → Map.get ℕ_discrete j ((j, q) ∷ m) ≡ some q
unfolding Map.get
get-head j q m = ground arith

get-tail :
    (j k : ℕ) (q q' : PendingQuery) (m : Pending)
    → Map.get ℕ_discrete j m ≡ none
    → Map.get ℕ_discrete k m ≡ some q'
    → Map.get ℕ_discrete k ((j, q) ∷ m) ≡ some q'
unfolding Map.get
get-tail j k q q' m absent found = elim (ℕ_discrete j k) [
  | yes e ↦ absurd (cc (rw e at absent))
  | no n ↦ ground arith
]

scan : (id created : ℕ) (m : Pending) → Distinct ℕ_discrete m → Scanned id created m
unfolding oldest_of
scan id created [] d = record {
  least = created;
  below = omega arith;
  first = tt;
  is_from = inl (refl, refl);
}
scan id created ((j, q) ∷ m) d = elim (Bool-cases (ltb q.created created)) [
  | inl older ↦
      let rest = scan j q.created m d.1 in
      record {
        least = rest.least;
        below = ground (arith, rest.below);
        first = (rest.below, rest.first);
        is_from = rw older (elim rest.is_from [
          | inl (same, e) ↦ inr (q, rw same (get-head j q m), sym e)
          | inr (q', found, e) ↦ inr (q', get-tail j _ q q' m d.0 found, e)
        ]);
      }
  | inr newer ↦
      let rest = scan id created m d.1 in
      record {
        least = rest.least;
        below = rest.below;
        first = (ground (arith, rest.below), rest.first);
        is_from = rw newer (elim rest.is_from [
          | inl (same, e) ↦ inl (same, e)
          | inr (q', found, e) ↦ inr (q', get-tail j _ q q' m d.0 found, e)
        ]);
      }
]

-- What is evicted is a query of the map, and none was made before it.
pub oldest-NoneBefore :
    (m : Pending)
    → Distinct ℕ_discrete m
    → 0 < length m
    → (id : ℕ) × (q : PendingQuery) × (oldest m ≡ some id)
      × (Map.get ℕ_discrete id m ≡ some q)
      × NoneBefore q.created m
unfolding oldest
oldest-NoneBefore [] d h = absurd (omega arith)
oldest-NoneBefore ((j, q) ∷ m) d h =
    let rest = scan j q.created m d.1 in
    elim rest.is_from [
      | inl (same, e) ↦ (
        oldest_of j q.created m,
        q,
        refl,
        rw same (get-head j q m),
        (omega arith, subst (λ c. NoneBefore c m) e rest.first),
      )
      | inr (q', found, e) ↦ (
        oldest_of j q.created m,
        q',
        refl,
        get-tail j _ q q' m d.0 found,
        (omega (arith, rest.below), subst (λ c. NoneBefore c m) (sym e) rest.first),
      )
    ]

pub evict-total :
    (f : ℕ) (m : Pending)
    → length m < f
    → Distinct ℕ_discrete m
    → (m' : Pending) × (evict f m ≡ ret (m', true))
      × Distinct ℕ_discrete m'
      × (length m' < max_pending_queries)
      × Within m' m
unfolding evict
evict-total zero m h d = absurd (omega arith)
evict-total (suc f) m h d = elim (Bool-cases (leb max_pending_queries (length m))) [
  | inl full ↦
      let (id, q, chosen, found, _) =
        oldest-NoneBefore m d (omega (arith, leb→le max_pending_queries (length m) full)) in
      let smaller = Map.remove ℕ_discrete id m in
      let (m', e, d', few, within) =
        evict-total f smaller (omega (arith, length-remove ℕ_discrete id q m d found))
          (remove-Distinct ℕ_discrete id m d) in
      (m', rw (full, chosen) e, d', few, λ j q' h'. Within-remove id m j q' (within j q' h'))
  | inr some_room ↦ (m, rw some_room, d, ground arith, λ j q' h'. h')
]
