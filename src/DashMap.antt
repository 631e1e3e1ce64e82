-- ===== src/DashMap.antt =====
-- The concurrent map of the `dashmap` crate, as src/aqua/connection uses it: an interface with the
-- documented behaviour of its operations. `eq` is the equality of the keys.
pub mod Assoc
use aqua.Base.{
  ◌≡◌, ◌↔◌, Bool, true, false, ◌||◌, Option, none, some, is_some, List, [], ◌∷◌, if◌then◌else◌,
}

pub record IsEquality {ℓ} {K : Type ℓ} (eq : K → K → Bool) : Type ℓ where
  pub iff : (a b : K) → (eq a b ≡ true) ↔ (a ≡ b)

-- Whether a list of keys holds `k`
abbrev pub has {ℓ} : {K : Type ℓ} → (K → K → Bool) → K → List K → Bool
has eq k [] = false
has eq k (j ∷ js) = eq j k || has eq k js

-- `keys` stands for an iteration, whose order is not specified.
pub record DashMap {K : Type 0} (eq : K → K → Bool) (V : Type 0) : Type 1 where
  pub Map : Type 0
  pub empty : Map
  pub get : Map → K → Option V
  pub insert : Map → K → V → Map
  pub remove : Map → K → Map
  pub keys : Map → List K
  pub get-empty : (k : K) → get empty k ≡ none
  pub get-insert :
      (m : Map) (k : K) (v : V) (j : K)
      → get (insert m k v) j ≡ (if eq k j then some v else get m j)
  pub get-remove : (m : Map) (k j : K) → get (remove m k) j ≡ (if eq k j then none else get m j)
  pub has-keys : (m : Map) (k : K) → has eq k (keys m) ≡ is_some (get m k)
