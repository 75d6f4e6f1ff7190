-- ===== src/TopicMap.antt =====
-- class TopicMap of include/spraybus/server/topic_map.hpp: topic names to numeric keys. A
-- std::string is the list of its bytes.
pub mod Names
pub mod Keys
mod Tests
use spraybus.Prelude.{ℕ, ◌+◌, ◌%◌, ◌^◌, List, [], ◌∷◌, Option, none, some, text_key}
use spraybus.Containers.Dict
use spraybus.Containers.Dict.{Dict}

abbrev pub Topic : Type 0
Topic = List ℕ

pub record TopicMap : Type 0 where
  pub keys : Dict Topic ℕ
  pub next_key : ℕ

unfoldable pub empty : TopicMap
empty = record { keys = Dict.empty; next_key = 1 }

-- return m_next_key++;
generate_key : TopicMap → TopicMap × ℕ
generate_key m = (record m { next_key = (m.next_key + 1) % 2 ^ 64 }, m.next_key)

unfoldable pub get_or_create : TopicMap → Topic → TopicMap × ℕ
unfolding generate_key
get_or_create m topic = elim (Dict.get m.keys topic) [
  | some key ↦ (m, key)
  | none ↦
      let (m', topic_key) = generate_key m in
      (record m' { keys = Dict.put m'.keys topic topic_key }, topic_key)
]

unfoldable pub get : TopicMap → Topic → Option ℕ
get m topic = Dict.get m.keys topic

-- Requests for topics, one after the other.
unfoldable pub register : TopicMap → List Topic → TopicMap
register m [] = m
register m (t ∷ ts) = register (get_or_create m t).0 ts
