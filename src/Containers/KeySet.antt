-- ===== src/Containers/KeySet.antt =====
-- std::unordered_set: contains, insert and erase.
use spraybus.Prelude.{
  ◌≡◌, refl, Bool, true, false, not, ◌&&◌, ◌||◌, List, [], ◌∷◌, arith, if◌then◌else◌, Key,
}

pub record KeySet (K : Type 0) : Type 0 where
  members : List K

module _ {K : Type 0} ⦃key : Key K⦄ where
  any_same : K → List K → Bool
  any_same k [] = false
  any_same k (j ∷ l) = key.same j k || any_same k l

  all_but : K → List K → List K
  all_but k [] = []
  all_but k (j ∷ l) = let rest = all_but k l in if key.same j k then rest else j ∷ rest

  unfoldable pub contains : KeySet K → K → Bool
  unfolding any_same
  contains s k = any_same k s.members

  unfoldable pub insert : KeySet K → K → KeySet K
  unfolding contains
  insert s k = if contains s k then s else record { members = k ∷ s.members }

  unfoldable pub erase : KeySet K → K → KeySet K
  unfolding all_but
  erase s k = record { members = all_but k s.members }

  any_same-same : (k j : K) (l : List K) → key.same k j ≡ true → any_same k l ≡ any_same j l
  unfolding any_same
  any_same-same k j l h = ground (arith, key.same_iff k j)

  pub contains-insert :
      (s : KeySet K) (k j : K) → contains (insert s k) j ≡ (key.same k j || contains s j)
  unfolding contains insert any_same
  contains-insert s k j = ground (arith, any_same-same k j s.members)

  any_same-all_but :
      (k j : K) (l : List K) → any_same j (all_but k l) ≡ (not (key.same k j) && any_same j l)
  unfolding any_same all_but
  any_same-all_but k j [] = ground arith
  any_same-all_but k j (i ∷ l) =
      ground (arith, any_same-all_but k j l, key.same_iff i k, key.same_iff i j, key.same_iff k j)

  pub contains-erase :
      (s : KeySet K) (k j : K) → contains (erase s k) j ≡ (not (key.same k j) && contains s j)
  unfolding contains erase
  contains-erase s k j = any_same-all_but k j s.members

module _ {K : Type 0} where
  unfoldable pub empty : KeySet K
  empty = record { members = [] }

  pub contains-empty : ⦃key : Key K⦄ (k : K) → contains empty k ≡ false
  unfolding contains any_same empty
  contains-empty k = refl

pub ruleset set_laws = (contains-empty, contains-insert, contains-erase)
