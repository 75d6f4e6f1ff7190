-- ===== src/TopicMap/Names.antt =====
-- The abstract topic map: the list of the names asked for, each once, in the order of their first
-- request. The key of a name is its position, counted from 1.
use mathlib.Core.Option
use spraybus.Prelude.{
  ℕ, suc, ◌+◌, ◌%◌, ◌^◌, ◌≤◌, ◌<◌, ◌≡◌, ap, ◌∙◌, Option, none, some, List, [], ◌∷◌, ◌++◌, arith,
  length, length-append, Option-cases, inl, inr, bytes_eq, bytes_eq_iff, if◌then◌else◌, text_key,
}
use spraybus.Containers.Dict
use spraybus.Containers.Dict.{dict_laws, get-put, get-empty}
use spraybus.TopicMap.{Topic, TopicMap, empty, get_or_create, get, register}

unfoldable pub index_of : Topic → List Topic → Option ℕ
index_of t [] = none
index_of t (u ∷ us) = if bytes_eq u t then some 0 else Option.map suc (index_of t us)

-- A request appends a name that is new.
unfoldable pub request : List Topic → Topic → List Topic
request names t = elim (index_of t names) [ some _ ↦ names | none ↦ names ++ t ∷ [] ]

unfoldable pub requested : List Topic → List Topic → List Topic
requested names [] = names
requested names (t ∷ ts) = requested (request names t) ts

-- The key that the abstract map gives a name.
abbrev pub key_of : List Topic → Topic → Option ℕ
key_of names t = Option.map suc (index_of t names)

pub record Represents (m : TopicMap) (names : List Topic) : Type 0 where
  pub next : m.next_key ≡ length names + 1
  pub at_name : (t : Topic) → get m t ≡ key_of names t

pub index_of-snoc :
    (t u : Topic) (names : List Topic)
    → index_of u names ≡ none
    → index_of t (names ++ u ∷ [])
      ≡ (if bytes_eq u t then some (length names) else index_of t names)
unfolding index_of
index_of-snoc t u [] h = ground arith
index_of-snoc t u (n ∷ names) h =
    ground (arith, index_of-snoc t u names, bytes_eq_iff n t, bytes_eq_iff n u, bytes_eq_iff u t)

pub length-request : (names : List Topic) (t : Topic) → length (request names t) ≤ length names + 1
unfolding request
length-request names t = ground (arith, length-append names (t ∷ []))

pub empty-Represents : Represents empty []
unfolding empty get index_of
empty-Represents = record { next = omega arith; at_name = λ t. get-empty t }

pub request_new :
    (names : List Topic) (t : Topic) → index_of t names ≡ none → request names t ≡ names ++ t ∷ []
unfolding request
request_new names t h = ground arith

pub request_old :
    (names : List Topic) (t : Topic) {i : ℕ} → index_of t names ≡ some i → request names t ≡ names
unfolding request
request_old names t h = ground arith

-- A name that the map holds: nothing changes.
pub known : (m : TopicMap) (t : Topic) {k : ℕ} → get m t ≡ some k → get_or_create m t ≡ (m, k)
unfolding get_or_create get
known m t h = ground arith

-- A name that it does not hold gets the next key.
pub created :
    (m : TopicMap) (t : Topic)
    → get m t ≡ none
    → get_or_create m t ≡ (
      record { keys = Dict.put m.keys t m.next_key; next_key = (m.next_key + 1) % 2 ^ 64 },
      m.next_key,
    )
unfolding get_or_create get
created m t h = ground arith

create-Represents :
    (m : TopicMap) (names : List Topic) (t : Topic)
    → Represents m names
    → length names + 2 < 2 ^ 64
    → index_of t names ≡ none
    → Represents
        (record { keys = Dict.put m.keys t m.next_key; next_key = (m.next_key + 1) % 2 ^ 64 })
        (names ++ t ∷ [])
unfolding get
create-Represents m names t r h new = record {
  next = omega (arith, r.next, length-append names (t ∷ []));
  at_name = λ u. rw get-put (
      ground
        (arith, r.at_name u, r.next, index_of-snoc u t names, Option-cases (index_of u names)));
}

-- One request: the map goes on representing the names, and returns the name's key.
pub get_or_create-Represents :
    (m : TopicMap) (names : List Topic) (t : Topic)
    → Represents m names
    → length names + 2 < 2 ^ 64
    → Represents (get_or_create m t).0 (request names t)
      × (some (get_or_create m t).1 ≡ key_of (request names t) t)
get_or_create-Represents m names t r h = elim (Option-cases (index_of t names)) [
  | inl new ↦
      let e = created m t (r.at_name t ∙ ap (Option.map suc) new) in
      rw (request_new names t new, e)
        (
          create-Represents m names t r h new,
          ground (arith, r.next, index_of-snoc t t names new, bytes_eq_iff t t),
        )
  | inr (i, old) ↦
      let e = known m t (r.at_name t ∙ ap (Option.map suc) old) in
      rw (request_old names t old, e) (r, rw old)
]

-- A map holds a list of names in the order of their first requests. After more requests, fewer than
-- 2 ^ 64 - 1 with these names, the key of a name is its position in the order of first requests,
-- counted from 1, and a name that was not asked for has none.
pub register-Represents :
    (m : TopicMap) (names ts : List Topic)
    → Represents m names
    → length names + length ts + 1 < 2 ^ 64
    → Represents (register m ts) (requested names ts)
unfolding register requested
register-Represents m names [] r h = r
register-Represents m names (t ∷ ts) r h =
    register-Represents (get_or_create m t).0 (request names t) ts
      (get_or_create-Represents m names t r (omega arith)).0 (omega (arith, length-request names t))
