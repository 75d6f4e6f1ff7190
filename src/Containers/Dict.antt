-- ===== src/Containers/Dict.antt =====
-- std::unordered_map: `get` is find, `put` is m[k] = v, `emplace` is emplace, `erase` is erase.
-- Outside this file the representation is shut: clients have the laws below.
use spraybus.Prelude.{
  ◌≡◌, refl, Bool, true, false, Option, none, some, List, [], ◌∷◌, arith, if◌then◌else◌, Key,
}

pub record Dict (K V : Type 0) : Type 0 where
  entries : List (K × V)

module _ {K V : Type 0} ⦃key : Key K⦄ where
  lookup : K → List (K × V) → Option V
  lookup k [] = none
  lookup k ((j, v) ∷ l) = if key.same j k then some v else lookup k l

  without : K → List (K × V) → List (K × V)
  without k [] = []
  without k ((j, v) ∷ l) = let rest = without k l in if key.same j k then rest else (j, v) ∷ rest

  lookup-without :
      (k j : K) (l : List (K × V))
      → lookup j (without k l) ≡ (if key.same k j then none else lookup j l)
  unfolding lookup without
  lookup-without k j [] = ground arith
  lookup-without k j ((i, v) ∷ l) =
      ground (arith, lookup-without k j l, key.same_iff i k, key.same_iff i j, key.same_iff k j)

  unfoldable pub get : Dict K V → K → Option V
  unfolding lookup
  get d k = lookup k d.entries

  unfoldable pub put : Dict K V → K → V → Dict K V
  unfolding without
  put d k v = record { entries = (k, v) ∷ without k d.entries }

  unfoldable pub erase : Dict K V → K → Dict K V
  unfolding without
  erase d k = record { entries = without k d.entries }

  -- m.emplace(k, v): the new map, and whether the entry was inserted.
  unfoldable pub emplace : Dict K V → K → V → Dict K V × Bool
  unfolding get put
  emplace d k v = elim (get d k) [ none ↦ (put d k v, true) | some _ ↦ (d, false) ]

  pub get-erase :
      (d : Dict K V) (k j : K) → get (erase d k) j ≡ (if key.same k j then none else get d j)
  unfolding get erase
  get-erase d k j = lookup-without k j d.entries

  pub get-put :
      (d : Dict K V) (k j : K) (v : V)
      → get (put d k v) j ≡ (if key.same k j then some v else get d j)
  unfolding get put
  get-put d k j v = ground (arith, lookup-without k j d.entries)

  pub emplace_fresh :
      (d : Dict K V) (k : K) (v : V) → get d k ≡ none → emplace d k v ≡ (put d k v, true)
  unfolding emplace
  emplace_fresh d k v h = ground arith

  pub emplace_taken :
      (d : Dict K V) (k : K) (v : V) {w : V} → get d k ≡ some w → emplace d k v ≡ (d, false)
  unfolding emplace
  emplace_taken d k v h = ground arith

module _ {K V : Type 0} where
  unfoldable pub empty : Dict K V
  empty = record { entries = [] }

  pub get-empty : ⦃key : Key K⦄ (k : K) → get {V = V} empty k ≡ none
  unfolding get empty
  get-empty k = refl

pub ruleset dict_laws = (get-empty, get-put, get-erase)
