-- ===== src/Map/Order.antt =====
-- The order in which a hash map yields its keys: unspecified, but distinct keys of the map, as
-- many as are asked for or as there are.
use trans_proxy.Base.{
  ℕ, zero, suc, some, List, [], ◌∷◌, ◌≡◌, ◌∙◌, arith, length, take, min, length-take, length-map,
  map,
}
use trans_proxy.Map.{get, remove, Distinct}
use trans_proxy.Map.Laws.{Yields, remove_absent}

pub record KeyOrder {ℓ κ} {K : Type ℓ} (V : Type κ) (dec : Discrete K) : Type (ℓ ⊔ κ) where
  pub first_keys : ℕ → List (K × V) → List K
  pub yields : (n : ℕ) (m : List (K × V)) → Distinct dec m → Yields dec (first_keys n m) m
  pub count : (n : ℕ) (m : List (K × V)) → length (first_keys n m) ≡ min n (length m)

module _ {ℓ κ} {K : Type ℓ} {V : Type κ} (dec : Discrete K) where
  unfoldable pub front_keys : ℕ → List (K × V) → List K
  front_keys n m = map (λ e. e.0) (take n m)

  pub front_keys-Yields :
      (n : ℕ) (m : List (K × V)) → Distinct dec m → Yields dec (front_keys n m) m
  unfolding front_keys
  front_keys-Yields zero m d = tt
  front_keys-Yields (suc n) [] d = tt
  front_keys-Yields (suc n) ((k, v) ∷ m) d =
      let here : get dec k ((k, v) ∷ m) ≡ some v = unfold get in ground arith in
      let rest : remove dec k ((k, v) ∷ m) ≡ m =
        unfold remove in ground (arith, remove_absent dec k m d.0) in
      ((v, here), rw rest (front_keys-Yields n m d.1))

  pub length-front_keys : (n : ℕ) (m : List (K × V)) → length (front_keys n m) ≡ min n (length m)
  unfolding front_keys
  length-front_keys n m = length-map (take n m) (λ e. e.0) ∙ length-take n m

  -- The order of the list itself is one such order.
  abbrev pub list_order : KeyOrder V dec
  list_order = record {
    first_keys = front_keys;
    yields = front_keys-Yields;
    count = length-front_keys;
  }
