-- ===== src/TopicMap/Keys.antt =====
-- The keys of class TopicMap (include/spraybus/server/topic_map.hpp) and the names they belong to.
use mathlib.Core.Option
use spraybus.Prelude.{
  ℕ, suc, ◌+◌, ◌^◌, ◌≤◌, ◌<◌, ◌≡◌, ap, sym, ◌∙◌, none, some, List, [], ◌∷◌, arith, length,
  get_elem?, Option-cases, Bool-cases, inl, inr, bytes_eq, bytes_eq_iff, text_key,
}
use spraybus.Containers.Dict
use spraybus.Containers.Dict.{dict_laws, get-put, get-empty}
use spraybus.TopicMap.{Topic, TopicMap, empty, get_or_create, get, register}
use spraybus.TopicMap.Names.{
  created, known, index_of, request, requested, key_of, Represents, index_of-snoc, empty-Represents,
  request_new, request_old, register-Represents,
}

get_elem?-index_of :
    (t : Topic) (names : List Topic) (i : ℕ)
    → index_of t names ≡ some i
    → get_elem? names i ≡ some t
unfolding index_of
get_elem?-index_of t [] i h = cc
get_elem?-index_of t (n ∷ names) i h = elim (Option-cases (index_of t names)) [
  | inl new ↦ ground (arith, bytes_eq_iff n t)
  | inr (j, old) ↦ ground (arith, bytes_eq_iff n t, get_elem?-index_of t names j old)
]

index_of-injective :
    (t u : Topic) (names : List Topic) (i : ℕ)
    → index_of t names ≡ some i
    → index_of u names ≡ some i
    → t ≡ u
index_of-injective t u names i h k =
    cc (get_elem?-index_of t names i h, get_elem?-index_of u names i k)

pub index_of-lt-length :
    (t : Topic) (names : List Topic) (i : ℕ) → index_of t names ≡ some i → i < length names
unfolding index_of
index_of-lt-length t [] i h = cc
index_of-lt-length t (n ∷ names) i h = elim (Option-cases (index_of t names)) [
  | inl new ↦ ground arith
  | inr (j, old) ↦ ground (arith, index_of-lt-length t names j old)
]

key_of_position :
    (names : List Topic) (t : Topic) (k : ℕ)
    → key_of names t ≡ some k
    → (i : ℕ) × (index_of t names ≡ some i) × (k ≡ suc i)
key_of_position names t k h = elim (Option-cases (index_of t names)) [
  | inl new ↦ cc (ap (Option.map suc) new)
  | inr (i, old) ↦ (i, old, ground (arith, ap (Option.map suc) old))
]

-- A key belongs to one name.
pub Represents-injective :
    (m : TopicMap) (names : List Topic) (t u : Topic) (k : ℕ)
    → Represents m names
    → get m t ≡ some k
    → get m u ≡ some k
    → t ≡ u
Represents-injective m names t u k r ht hu =
    let (i, at_t, ki) = key_of_position names t k (sym (r.at_name t) ∙ ht) in
    let (j, at_u, kj) = key_of_position names u k (sym (r.at_name u) ∙ hu) in
    let e : j ≡ i = omega arith in index_of-injective t u names i at_t (at_u ∙ ap some e)

-- A request keeps the keys that names have.
pub key_of-request :
    (names : List Topic) (t u : Topic) (k : ℕ)
    → key_of names t ≡ some k
    → key_of (request names u) t ≡ some k
key_of-request names t u k h = elim (Option-cases (index_of u names)) [
  | inl new ↦
      rw (request_new names u new, index_of-snoc t u names new)
        (elim (Bool-cases (bytes_eq u t)) [
          | inl same ↦
              let e : u ≡ t = ground (arith, bytes_eq_iff u t) in
              let unknown : key_of names t ≡ none =
                ap (key_of names) (sym e) ∙ ap (Option.map suc) new in
              cc
          | inr other ↦ rw other h
        ])
  | inr (i, old) ↦ rw (request_old names u old) h
]

-- From the empty map, after any requests, fewer than 2 ^ 64 - 1: two names that have one key are
-- the same name, and every key in use lies between 1 and the number of distinct names.
pub register_keys :
    (ts : List Topic)
    → length ts + 1 < 2 ^ 64
    → ((t u : Topic) (k : ℕ)
        → get (register empty ts) t ≡ some k
        → get (register empty ts) u ≡ some k
        → t ≡ u)
      × ((t : Topic) (k : ℕ)
          → get (register empty ts) t ≡ some k
          → (1 ≤ k) × (k ≤ length (requested [] ts)))
register_keys ts h =
    let r = register-Represents empty [] ts empty-Represents (omega arith) in
    let names = requested [] ts in
    (
      (λ t u k ht hu. Represents-injective (register empty ts) names t u k r ht hu),
      λ t k ht.
          let (i, at_t, ki) = key_of_position names t k (sym (r.at_name t) ∙ ht) in
          (omega arith, omega (arith, index_of-lt-length t names i at_t)),
    )

-- A key that a name has is kept by every later request, whatever the counter does.
pub get-get_or_create :
    (m : TopicMap) (t u : Topic) (k : ℕ) → get m t ≡ some k → get (get_or_create m u).0 t ≡ some k
unfolding get_or_create get
get-get_or_create m t u k h = elim (Option-cases (Dict.get m.keys u)) [
  | inl new ↦ rw (new, get_or_create) (rw get-put (ground (arith, bytes_eq_iff u t)))
  | inr (j, old) ↦ rw (old, get_or_create) h
]

-- What a request returns is what the map holds from then on, and asking again changes nothing.
pub get_or_create_again :
    (m : TopicMap) (t : Topic)
    → let (m', k) = get_or_create m t in (get m' t ≡ some k) × (get_or_create m' t ≡ (m', k))
get_or_create_again m t = elim (Option-cases (get m t)) [
  | inl new ↦
      let e = created m t new in
      let held : get (get_or_create m t).0 t ≡ some (get_or_create m t).1 =
        rw e (unfold get in rw get-put (ground (arith, bytes_eq_iff t t))) in
      (held, known (get_or_create m t).0 t held)
  | inr (k, old) ↦ rw (known m t old) (old, known m t old)
]
