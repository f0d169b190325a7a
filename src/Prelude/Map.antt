-- ===== src/Prelude/Map.antt =====
-- `std::unordered_map` and `std::map` as association lists with a Boolean test on keys.
use hakoniwa_pdu_endpoint.Prelude.Tests.{if◌then◌else◌}
use hakoniwa_pdu_endpoint.Prelude.Equality.{HasEq, ◌==◌}
use mathlib.Core.Path.{◌≡◌, refl}
use mathlib.Core.Bool.{Bool, true}
use mathlib.Core.Option.{Option, none, some}
use mathlib.Core.List.{List, [], ◌∷◌}
use native.Mathlib.Omega.{arith}

abbrev pub Map {ℓ κ} : Type ℓ → Type κ → Type (ℓ ⊔ κ)
Map K V = List (K × V)

pub beq_refl {ℓ} : {K : Type ℓ} ⦃e : HasEq K⦄ (k : K) → (k == k) ≡ true
beq_refl ⦃e⦄ k = (e.equal_iff k k).1 refl

module _ {ℓ κ} {K : Type ℓ} {V : Type κ} ⦃e : HasEq K⦄ where
  unfoldable pub find : K → Map K V → Option V
  find k [] = none
  find k ((j, v) ∷ m) = if j == k then some v else find k m

  -- `m[k] = v`: the slot of `k` is overwritten, or a new one is made.
  unfoldable pub assign : K → V → Map K V → Map K V
  assign k v [] = (k, v) ∷ []
  assign k v ((j, w) ∷ m) = if j == k then (k, v) ∷ m else (j, w) ∷ assign k v m

  unfoldable pub erase : K → Map K V → Map K V
  erase k [] = []
  erase k ((j, w) ∷ m) = if j == k then erase k m else (j, w) ∷ erase k m

  -- `m.erase(k)` for each of some keys.
  unfoldable pub erase_all : List K → Map K V → Map K V
  erase_all [] m = m
  erase_all (k ∷ ks) m = erase_all ks (erase k m)

  pub find-assign :
      (k j : K) (v : V) (m : Map K V)
      → find j (assign k v m) ≡ (if k == j then some v else find j m)
  unfolding find assign
  find-assign k j v [] = refl
  find-assign k j v ((i, w) ∷ m) =
      ground (arith, e.equal_iff k j, e.equal_iff i k, e.equal_iff i j, find-assign k j v m)

  pub find-erase :
      (k j : K) (m : Map K V) → find j (erase k m) ≡ (if k == j then none else find j m)
  unfolding find erase
  find-erase k j [] = ground arith
  find-erase k j ((i, w) ∷ m) =
      ground (arith, e.equal_iff k j, e.equal_iff i k, e.equal_iff i j, find-erase k j m)

  pub find-assign_self : (k : K) (v : V) (m : Map K V) → find k (assign k v m) ≡ some v
  find-assign_self k v m = rw (find-assign, beq_refl)

-- `std::map` keeps its keys in order, so a new key goes before the first greater one.
module _ {ℓ κ} {K : Type ℓ} {V : Type κ} (lt : K → K → Bool) ⦃e : HasEq K⦄ where
  unfoldable pub assign_ordered : K → V → Map K V → Map K V
  assign_ordered k v [] = (k, v) ∷ []
  assign_ordered k v ((j, w) ∷ m) =
      if j == k
      then (k, v) ∷ m
      else if lt k j
      then (k, v) ∷ (j, w) ∷ m
      else (j, w) ∷ assign_ordered k v m

  pub find-assign_ordered :
      (k j : K) (v : V) (m : Map K V)
      → find j (assign_ordered k v m) ≡ (if k == j then some v else find j m)
  unfolding find assign_ordered
  find-assign_ordered k j v [] = refl
  find-assign_ordered k j v ((i, w) ∷ m) =
      ground (arith, e.equal_iff k j, e.equal_iff i k, e.equal_iff i j, find-assign_ordered k j v m)
