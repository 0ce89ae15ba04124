-- ===== src/Map.antt =====
-- `std::collections::HashMap`, as an association list with distinct keys. The order in which a
-- hash map yields its entries is not specified; a function that depends on it takes the keys
-- yielded as an argument.
pub mod Laws
pub mod Order
use trans_proxy.Base.{
  ℕ, zero, suc, Bool, true, false, not, List, [], ◌∷◌, map, Option, none, some, ◌≡◌, if◌then◌else◌,
}
use mathlib.Core.Logic.{ite}

-- The Boolean of a decision, so that a test on keys is a branch like any other.
abbrev pub test {ℓ} : {A : Type ℓ} → Dec A → Bool
test (yes p) = true
test (no p) = false

module _ {ℓ κ} {K : Type ℓ} {V : Type κ} (dec : Discrete K) where
  unfoldable pub get : K → List (K × V) → Option V
  get k [] = none
  get k ((j, v) ∷ m) = if test (dec j k) then some v else get k m

  unfoldable pub remove : K → List (K × V) → List (K × V)
  remove k [] = []
  remove k ((j, v) ∷ m) = let rest = remove k m in if test (dec j k) then rest else (j, v) ∷ rest

  unfoldable pub insert : K → V → List (K × V) → List (K × V)
  insert k v m = (k, v) ∷ remove k m

  -- `for k in keys { map.remove(&k); }`
  unfoldable pub remove_all : List K → List (K × V) → List (K × V)
  remove_all [] m = m
  remove_all (k ∷ ks) m = remove_all ks (remove k m)

  -- Each key stands in one entry.
  abbrev pub Distinct : List (K × V) → Type κ
  Distinct [] = Unit
  Distinct ((k, v) ∷ m) = (get k m ≡ none) × Distinct m

-- `map.retain(|_, v| keep(v))`
unfoldable pub retain {ℓ κ} : {K : Type ℓ} {V : Type κ} → (V → Bool) → List (K × V) → List (K × V)
retain keep [] = []
retain keep ((k, v) ∷ m) = let rest = retain keep m in if keep v then (k, v) ∷ rest else rest

-- The keys of the entries whose value passes a test, as `iter().filter(..).map(..).collect()`.
unfoldable pub keys_where {ℓ κ} : {K : Type ℓ} {V : Type κ} → (V → Bool) → List (K × V) → List K
keys_where p [] = []
keys_where p ((k, v) ∷ m) = let rest = keys_where p m in if p v then k ∷ rest else rest
