-- ===== src/Map/Laws.antt =====
-- The laws of the map operations: what can be looked up after each, how many entries there are,
-- and that keys stay distinct.
use trans_proxy.Base.{
  suc, ◌+◌, ◌≤◌, Bool, not, List, [], ◌∷◌, Option, none, some, ◌≡◌, ◌≢◌, refl, sym, ap, ◌∙◌,
  if◌then◌else◌, arith, length, Bool-cases, inl, inr,
}
use trans_proxy.Map.{test, get, remove, insert, remove_all, Distinct, retain, keys_where}

module _ {ℓ κ} {K : Type ℓ} {V : Type κ} (dec : Discrete K) where
  pub get-remove :
      (k j : K) (m : List (K × V))
      → get dec j (remove dec k m) ≡ (if test (dec k j) then none else get dec j m)
  unfolding get remove
  get-remove k j [] = ground arith
  get-remove k j ((i, v) ∷ m) = ground (arith, get-remove k j m)

  pub get-insert :
      (k j : K) (v : V) (m : List (K × V))
      → get dec j (insert dec k v m) ≡ (if test (dec k j) then some v else get dec j m)
  unfolding get insert
  get-insert k j v m = ground (arith, get-remove k j m)

  pub get-insert_self : (k : K) (v : V) (m : List (K × V)) → get dec k (insert dec k v m) ≡ some v
  unfolding get insert
  get-insert_self k v m = ground arith

  pub get-insert_ne :
      (k j : K) (v : V) (m : List (K × V)) → k ≢ j → get dec j (insert dec k v m) ≡ get dec j m
  unfolding get insert
  get-insert_ne k j v m other = ground (arith, get-remove k j m)

  pub length-remove-le : (k : K) (m : List (K × V)) → length (remove dec k m) ≤ length m
  unfolding remove
  length-remove-le k [] = omega arith
  length-remove-le k ((i, v) ∷ m) = ground (arith, length-remove-le k m)

  pub length-insert-le :
      (k : K) (v : V) (m : List (K × V)) → length (insert dec k v m) ≤ suc (length m)
  unfolding insert
  length-insert-le k v m = omega (arith, length-remove-le k m)

  pub remove_absent : (k : K) (m : List (K × V)) → get dec k m ≡ none → remove dec k m ≡ m
  unfolding get remove
  remove_absent k [] h = refl
  remove_absent k ((i, v) ∷ m) h = ground (arith, remove_absent k m)

  pub length-remove :
      (k : K) (v : V) (m : List (K × V))
      → Distinct dec m
      → get dec k m ≡ some v
      → suc (length (remove dec k m)) ≡ length m
  unfolding get remove
  length-remove k v [] d h = ground arith
  length-remove k v ((i, w) ∷ m) d h = ground (arith, length-remove k v m d.1, remove_absent k m)

  pub remove-Distinct : (k : K) (m : List (K × V)) → Distinct dec m → Distinct dec (remove dec k m)
  unfolding remove
  remove-Distinct k [] d = tt
  remove-Distinct k ((i, v) ∷ m) d = ground (arith, remove-Distinct k m d.1, get-remove k i m)

  pub insert-Distinct :
      (k : K) (v : V) (m : List (K × V)) → Distinct dec m → Distinct dec (insert dec k v m)
  unfolding insert
  insert-Distinct k v m d = (ground (arith, get-remove k k m), remove-Distinct k m d)

-- A value that passes a test, if there is one.
abbrev pub keep_if {ℓ} : {V : Type ℓ} → (V → Bool) → Option V → Option V
keep_if p none = none
keep_if p (some v) = if p v then some v else none

abbrev Absent {ℓ} : {K : Type ℓ} → K → List K → Type ℓ
Absent j [] = Unit
Absent j (k ∷ ks) = (k ≢ j) × Absent j ks

module _ {ℓ κ} {K : Type ℓ} {V : Type κ} (dec : Discrete K) where
  pub get-retain :
      (keep : V → Bool) (j : K) (m : List (K × V))
      → Distinct dec m
      → get dec j (retain keep m) ≡ keep_if keep (get dec j m)
  unfolding get retain
  get-retain keep j [] d = refl
  get-retain keep j ((i, v) ∷ m) d = elim (dec i j) [
    | yes e ↦
        let absent : get dec j m ≡ none = ap (λ k. get dec k m) (sym e) ∙ d.0 in
        let later : get dec j (retain keep m) ≡ none =
          get-retain keep j m d.1 ∙ ap (keep_if keep) absent in
        ground arith
    | no n ↦ ground (arith, get-retain keep j m d.1)
  ]

  pub retain-Distinct :
      (keep : V → Bool) (m : List (K × V)) → Distinct dec m → Distinct dec (retain keep m)
  unfolding retain
  retain-Distinct keep [] d = tt
  retain-Distinct keep ((i, v) ∷ m) d = elim (Bool-cases (keep v)) [
    | inl e ↦ rw e (get-retain keep i m d.1 ∙ ap (keep_if keep) d.0, retain-Distinct keep m d.1)
    | inr e ↦ rw e (retain-Distinct keep m d.1)
  ]

  -- The keys are distinct keys of the map.
  abbrev pub Yields : List K → List (K × V) → Type κ
  Yields [] m = Unit
  Yields (k ∷ ks) m = ((v : V) × (get dec k m ≡ some v)) × Yields ks (remove dec k m)

  pub remove_all-Distinct :
      (ks : List K) (m : List (K × V)) → Distinct dec m → Distinct dec (remove_all dec ks m)
  unfolding remove_all
  remove_all-Distinct [] m d = d
  remove_all-Distinct (k ∷ ks) m d =
      remove_all-Distinct ks (remove dec k m) (remove-Distinct dec k m d)

  pub length-remove_all :
      (ks : List K) (m : List (K × V))
      → Distinct dec m
      → Yields ks m
      → length (remove_all dec ks m) + length ks ≡ length m
  unfolding remove_all
  length-remove_all [] m d h = omega arith
  length-remove_all (k ∷ ks) m d h = omega (
    arith,
    length-remove_all ks (remove dec k m) (remove-Distinct dec k m d) h.1,
    length-remove dec k h.0.0 m d h.0.1,
  )

  -- Removing keys makes no entry up.
  pub get-remove_all :
      (ks : List K) (j : K) (v : V) (m : List (K × V))
      → get dec j (remove_all dec ks m) ≡ some v
      → get dec j m ≡ some v
  unfolding remove_all
  get-remove_all [] j v m h = h
  get-remove_all (k ∷ ks) j v m h =
      ground (arith, get-remove_all ks j v (remove dec k m) h, get-remove dec k j m)

  keys_where-Absent :
      (p : V → Bool) (j : K) (m : List (K × V)) → get dec j m ≡ none → Absent j (keys_where p m)
  unfolding get keys_where
  keys_where-Absent p j [] h = tt
  keys_where-Absent p j ((i, v) ∷ m) h = elim (dec i j) [
    | yes same ↦ absurd (ground arith)
    | no other ↦ elim (Bool-cases (p v)) [
      | inl e ↦ rw e (other, keys_where-Absent p j m (ground arith))
      | inr e ↦ rw e (keys_where-Absent p j m (ground arith))
    ]
  ]

  remove_all-cons :
      (ks : List K) (j : K) (v : V) (m : List (K × V))
      → Absent j ks
      → remove_all dec ks ((j, v) ∷ m) ≡ (j, v) ∷ remove_all dec ks m
  unfolding remove_all remove
  remove_all-cons [] j v m h = refl
  remove_all-cons (k ∷ ks) j v m h = elim (dec j k) [
    | yes e ↦ absurd (h.0 (sym e))
    | no n ↦ ground (arith, remove_all-cons ks j v (remove dec k m) h.1)
  ]

  -- Collecting the keys that pass a test and removing them keeps the others.
  pub remove_all-keys_where :
      (p : V → Bool) (m : List (K × V))
      → Distinct dec m
      → remove_all dec (keys_where p m) m ≡ retain (λ v. not (p v)) m
  unfolding keys_where retain remove_all remove
  remove_all-keys_where p [] d = refl
  remove_all-keys_where p ((i, v) ∷ m) d = elim (Bool-cases (p v)) [
    | inl e ↦ ground (arith, remove_all-keys_where p m d.1, remove_absent dec i m d.0)
    | inr e ↦ ground (
      arith,
      remove_all-keys_where p m d.1,
      remove_all-cons (keys_where p m) i v m (keys_where-Absent p i m d.0),
    )
  ]

pub length-retain-le {ℓ κ} :
    {K : Type ℓ} {V : Type κ} (keep : V → Bool) (m : List (K × V))
    → length (retain keep m) ≤ length m
unfolding retain
length-retain-le keep [] = omega arith
length-retain-le keep ((i, v) ∷ m) = ground (arith, length-retain-le keep m)
