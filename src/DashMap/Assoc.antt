-- ===== src/DashMap/Assoc.antt =====
-- The interface can be met: an association list.
use aqua.Base.{◌≡◌, refl, Bool, Option, none, some, is_some, List, [], ◌∷◌, if◌then◌else◌, arith}
use aqua.DashMap.{IsEquality, has, DashMap}

module _ {K : Type 0} (eq : K → K → Bool) {V : Type 0} where
  abbrev lookup : List (K × V) → K → Option V
  lookup [] k = none
  lookup ((j, v) ∷ m) k = if eq j k then some v else lookup m k

  abbrev delete : List (K × V) → K → List (K × V)
  delete [] k = []
  delete ((j, v) ∷ m) k = let rest = delete m k in if eq j k then rest else (j, v) ∷ rest

  abbrev firsts : List (K × V) → List K
  firsts [] = []
  firsts ((j, v) ∷ m) = j ∷ firsts m

  pub has-firsts : (m : List (K × V)) (k : K) → has eq k (firsts m) ≡ is_some (lookup m k)
  has-firsts [] k = refl
  has-firsts ((j, v) ∷ m) k = ground (arith, has-firsts m k)

  module _ (e : IsEquality eq) where
    pub lookup-delete :
        (m : List (K × V)) (k j : K) → lookup (delete m k) j ≡ (if eq k j then none else lookup m j)
    lookup-delete [] k j = ground arith
    lookup-delete ((i, v) ∷ m) k j =
        ground (arith, lookup-delete m k j, e.iff i k, e.iff i j, e.iff k j)

    pub lookup-insert :
        (m : List (K × V)) (k : K) (v : V) (j : K)
        → lookup ((k, v) ∷ delete m k) j ≡ (if eq k j then some v else lookup m j)
    lookup-insert m k v j = ground (arith, lookup-delete m k j)

    abbrev pub assoc : DashMap eq V
    assoc = record {
      Map = List (K × V);
      empty = [];
      get = lookup;
      insert = λ m k v. (k, v) ∷ delete m k;
      remove = delete;
      keys = firsts;
      get-empty = λ k. refl;
      get-insert = lookup-insert;
      get-remove = lookup-delete;
      has-keys = has-firsts;
    }
