-- ===== src/Dns/Pending/Match.antt =====
-- `pending_take_match` of src/dns.rs: a response is matched by id, name and type, and once.
use trans_proxy.Base.{
  ℕ, ◌≡◌, inl, inr, sym, ap, ◌∙◌, true, false, Option-cases, Bool, not, ◌||◌, arith, ◌==◌, Bytes,
  Bool-cases, Option, none, some,
}
use native.Mathlib.Decide.{ℕ_discrete}
use trans_proxy.Map
use trans_proxy.Map.{Distinct, test}
use trans_proxy.Map.Laws.{get-remove}
use trans_proxy.Dns.Pending.{PendingQuery, Pending, eq_ignore_ascii_case, pending_take_match}

-- The response answers this query: same name but for case, same type.
pub record Answers (entry : PendingQuery) (resp_name : Bytes) (resp_qtype : ℕ) : Type 0 where
  pub same_name : eq_ignore_ascii_case entry.name resp_name ≡ true
  pub same_type : entry.qtype ≡ resp_qtype

module _ (tx_id : ℕ) (resp_name : Bytes) (resp_qtype : ℕ) (m : Pending) where
  -- A query is handed out only to a response that answers it, and is no longer pending then.
  pub take_match-Answers :
      {m' : Pending} {entry : PendingQuery}
      → pending_take_match tx_id resp_name resp_qtype m ≡ (m', some entry)
      → (Map.get ℕ_discrete tx_id m ≡ some entry)
        × Answers entry resp_name resp_qtype
        × (m' ≡ Map.remove ℕ_discrete tx_id m)
        × (Map.get ℕ_discrete tx_id m' ≡ none)
  unfolding pending_take_match
  take_match-Answers {m'} {entry} h = elim (Option-cases (Map.get ℕ_discrete tx_id m)) [
    | inl absent ↦ absurd (cc (rw (absent, pending_take_match) at h))
    | inr (q, found) ↦ elim (Bool-cases (mismatch q)) [
      | inl wrong ↦ absurd (cc (rw (found, pending_take_match, wrong) at h))
      | inr right ↦ taken q found right (rw (found, pending_take_match, right) at h)
    ]
  ]
    where
      mismatch : PendingQuery → Bool
      mismatch q = not (eq_ignore_ascii_case q.name resp_name) || not (q.qtype == resp_qtype)

      taken :
          (q : PendingQuery)
          → Map.get ℕ_discrete tx_id m ≡ some q
          → mismatch q ≡ false
          → ◌≡◌ {A = Pending × Option PendingQuery}
              (Map.remove ℕ_discrete tx_id m, Map.get ℕ_discrete tx_id m)
              (m', some entry)
          → (Map.get ℕ_discrete tx_id m ≡ some entry)
            × Answers entry resp_name resp_qtype
            × (m' ≡ Map.remove ℕ_discrete tx_id m)
            × (Map.get ℕ_discrete tx_id m' ≡ none)
      taken q found right e =
          let same : q ≡ entry = cc in
          let left : m' ≡ Map.remove ℕ_discrete tx_id m =
            ap (λ (x : Pending × Option PendingQuery). x.0) (sym e) in
          (
            found ∙ ap some same,
            rw (← same) (record { same_name = ground arith; same_type = ground arith }),
            left,
            rw left (get-remove ℕ_discrete tx_id tx_id m ∙ ground arith),
          )

  -- Every other response leaves the pending queries as they are.
  pub take_match_none :
      {m' : Pending} → pending_take_match tx_id resp_name resp_qtype m ≡ (m', none) → m' ≡ m
  unfolding pending_take_match
  take_match_none {m'} h = ground arith

  -- The genuine response finds its query.
  pub take_match_found :
      (entry : PendingQuery)
      → Map.get ℕ_discrete tx_id m ≡ some entry
      → Answers entry resp_name resp_qtype
      → pending_take_match tx_id resp_name resp_qtype m
        ≡ (Map.remove ℕ_discrete tx_id m, some entry)
  unfolding pending_take_match
  take_match_found entry found a = ground (arith, found, a.same_name, a.same_type)
