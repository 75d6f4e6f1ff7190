-- ===== src/Client/Cache.antt =====
-- get_topic_key (src/spraybus/client/client.cpp): its results, and the two maps of the client.
use spraybus.Prelude.{
  ℕ, ◌≡◌, refl, sym, ap, ◌∙◌, List, Option, none, some, arith, Option-cases, inl, inr, word_key,
  text_key, bytes_eq_iff, ==_iff,
}
use spraybus.Containers.Dict
use spraybus.Containers.Dict.{get-put, get-empty}
use spraybus.Word.{Endian}
use spraybus.Exec.{Error, Result, ok, throw, ◌>>=◌, >>=-eq-ok}
use spraybus.Protocol.Enum.{Origin, MessageType}
use spraybus.Protocol.Header.{topic_key}
use spraybus.Protocol.Message
use spraybus.Protocol.Message.{Message, new_message, payload_as_string}
use spraybus.Protocol.RoundTrip.{Carries}
use spraybus.TopicMap.{Topic}
use spraybus.Client.{Client, Network, new_client, ask, learn, learn_parsed, get_topic_key}

-- The two maps of a client, against the keys that a server has given to names.
pub record Agrees (keys : Topic → Option ℕ) (c : Client) : Type 0 where
  pub known : (t : Topic) (k : ℕ) → Dict.get c.topic_map t ≡ some k → keys t ≡ some k
  pub named : (t : Topic) (k : ℕ) → Dict.get c.inverse_topic_map k ≡ some t → keys t ≡ some k
  pub paired :
      (t : Topic) (k : ℕ)
      → Dict.get c.topic_map t ≡ some k
      → Dict.get c.inverse_topic_map k ≡ some t

pub new_client-Agrees :
    (keys : Topic → Option ℕ) (host : List ℕ) (port : ℕ) → Agrees keys (new_client host port)
new_client-Agrees keys host port = record {
  known = λ t k h. cc (get-empty {V = ℕ} t);
  named = λ t k h. cc (get-empty {V = Topic} k);
  paired = λ t k h. cc (get-empty {V = ℕ} t);
}

-- The request that get_topic_key sends.
abbrev pub request_of : Endian → Client → Topic → List ℕ
request_of e c topic = (Message.topic_request e c.protocol_constructor topic Origin.client).1

module _ (e : Endian) (c : Client) (net : Network) (topic : Topic) where
  pub cached :
      {k : ℕ} → Dict.get c.topic_map topic ≡ some k → get_topic_key e c net topic ≡ (c, ok k)
  unfolding get_topic_key
  cached h = ground arith

  abbrev pub asked : Client
  asked = record c {
    protocol_constructor = (Message.topic_request e c.protocol_constructor topic Origin.client).0;
  }

  pub uncached :
      Dict.get c.topic_map topic ≡ none
      → get_topic_key e c net topic
        ≡ learn_parsed e asked ((ask c net (request_of e c topic)).1 >>= new_message e)
  unfolding get_topic_key
  uncached h = ground arith

  -- A name that is not cached, asked of a server that answers with a topic response: the key of the
  -- response is returned, both maps hold the response's name and key, and nothing else changes.
  pub resolved :
      (bytes : List ℕ) (origin : Origin) (key : ℕ) (name : Topic)
      → Dict.get c.topic_map topic ≡ none
      → (ask c net (request_of e c topic)).1 ≡ ok bytes
      → Carries e bytes MessageType.topic_response origin key name
      → get_topic_key e c net topic ≡ (
        record asked {
          topic_map = Dict.put c.topic_map name key;
          inverse_topic_map = Dict.put c.inverse_topic_map key name;
        },
        ok key,
      )
  unfolding learn_parsed
  resolved bytes origin key name fresh answer (m, parsed, t, _, k, p) =
      uncached fresh
      ∙ ap (λ r. learn_parsed e asked (r >>= new_message e)) answer
      ∙ ap (learn_parsed e asked) parsed
      ∙ ap (learn e asked m) t
      ∙ λ i. (
        record asked {
          topic_map = Dict.put c.topic_map (p i) (k i);
          inverse_topic_map = Dict.put c.inverse_topic_map (k i) (p i);
        },
        ok (k i),
      )

learn_parsed_failed :
    (e : Endian) (c : Client) (r : Result Message) (error : Error)
    → (learn_parsed e c r).1 ≡ throw error
    → (learn_parsed e c r).0 ≡ c
unfolding learn_parsed
learn_parsed_failed e c (throw x) error h = refl
learn_parsed_failed e c (ok m) error h = failed m.header.type h
  where
    failed : (type : MessageType) → (learn e c m type).1 ≡ throw error → (learn e c m type).0 ≡ c
    failed MessageType.topic_response g = cc
    failed _ g = refl

learn_parsed-sent :
    (e : Endian) (c : Client) (r : Result Message) → (learn_parsed e c r).0.sent ≡ c.sent
unfolding learn_parsed
learn_parsed-sent e c (throw error) = refl
learn_parsed-sent e c (ok m) = learned m.header.type
  where
    learned : (type : MessageType) → (learn e c m type).0.sent ≡ c.sent
    learned MessageType.topic_response = refl
    learned _ = refl

pub get_topic_key-sent :
    (e : Endian) (c : Client) (net : Network) (topic : Topic)
    → (get_topic_key e c net topic).0.sent ≡ c.sent
get_topic_key-sent e c net topic = elim (Option-cases (Dict.get c.topic_map topic)) [
  | inl fresh ↦
      ap (λ r. r.0.sent) (uncached e c net topic fresh)
      ∙ learn_parsed-sent e (asked e c net topic) _
  | inr (k, hit) ↦ ap (λ r. r.0.sent) (cached e c net topic hit)
]

-- Whenever get_topic_key throws, neither map has changed, and nothing was sent on the connection of
-- the client.
pub resolution_failed :
    (e : Endian) (c : Client) (net : Network) (topic : Topic) (error : Error)
    → (get_topic_key e c net topic).1 ≡ throw error
    → let c' = (get_topic_key e c net topic).0 in
      (c'.topic_map ≡ c.topic_map)
      × (c'.inverse_topic_map ≡ c.inverse_topic_map)
      × (c'.sent ≡ c.sent)
resolution_failed e c net topic error h = elim (Option-cases (Dict.get c.topic_map topic)) [
  | inl fresh ↦
      let step = uncached e c net topic fresh in
      let response = (ask c net (request_of e c topic)).1 >>= new_message e in
      let same : (get_topic_key e c net topic).0 ≡ asked e c net topic =
        ap (λ r. r.0) step
        ∙ learn_parsed_failed e (asked e c net topic) response error
            (sym (ap (λ r. r.1) step) ∙ h) in
      (
        ap (λ (x : Client). x.topic_map) same,
        ap (λ (x : Client). x.inverse_topic_map) same,
        ap (λ (x : Client). x.sent) same,
      )
  | inr (k, hit) ↦ cc (ap (λ r. r.1) (cached e c net topic hit))
]

-- Storing a key that the server has given to the name keeps the maps in agreement, if the server
-- gives no key to two names.
pub learned-Agrees :
    (keys : Topic → Option ℕ) (c : Client) (name : Topic) (key : ℕ)
    → ((t u : Topic) (k : ℕ) → keys t ≡ some k → keys u ≡ some k → t ≡ u)
    → Agrees keys c
    → keys name ≡ some key
    → Agrees keys (record c {
      topic_map = Dict.put c.topic_map name key;
      inverse_topic_map = Dict.put c.inverse_topic_map key name;
    })
learned-Agrees keys c name key injective a h = record {
  known = λ t k. rw get-put λ g. ground (arith, bytes_eq_iff name t, a.known t k, h);
  named = λ t k. rw get-put λ g. ground (arith, ==_iff key k, a.named t k, h);
  paired = λ t k.
      rw (get-put c.topic_map, get-put c.inverse_topic_map)
        λ g. ground (
          arith,
          bytes_eq_iff name t,
          ==_iff key k,
          a.paired t k,
          a.known t k,
          h,
          injective t name k,
        );
}

asked-Agrees :
    (keys : Topic → Option ℕ) (e : Endian) (c : Client) (net : Network) (topic : Topic)
    → Agrees keys c
    → Agrees keys (asked e c net topic)
asked-Agrees keys e c net topic a = record { known = a.known; named = a.named; paired = a.paired }

learn-Agrees :
    (keys : Topic → Option ℕ) (e : Endian) (c : Client) (m : Message) (type : MessageType)
    → ((t u : Topic) (k : ℕ) → keys t ≡ some k → keys u ≡ some k → t ≡ u)
    → (type ≡ MessageType.topic_response → keys m.payload ≡ some (topic_key e m.header))
    → Agrees keys c
    → Agrees keys (learn e c m type).0
unfolding learn
learn-Agrees keys e c m MessageType.topic_response injective honest a =
    learned-Agrees keys c m.payload (topic_key e m.header) injective a (honest refl)
learn-Agrees keys e c m _ injective honest a = a

learn_parsed-Agrees :
    (keys : Topic → Option ℕ) (e : Endian) (c : Client) (r : Result Message)
    → ((t u : Topic) (k : ℕ) → keys t ≡ some k → keys u ≡ some k → t ≡ u)
    → ((m : Message)
        → r ≡ ok m
        → m.header.type ≡ MessageType.topic_response
        → keys m.payload ≡ some (topic_key e m.header))
    → Agrees keys c
    → Agrees keys (learn_parsed e c r).0
unfolding learn_parsed
learn_parsed-Agrees keys e c (throw error) injective honest a = a
learn_parsed-Agrees keys e c (ok m) injective honest a =
    learn-Agrees keys e c m m.header.type injective (honest m refl) a

-- One call of get_topic_key, whatever the network does: if every topic response that it gives names
-- a key that the server has given to that name, and the server gives no key to two names, then the
-- maps of the client still agree with the server's keys, also after a throw.
pub get_topic_key-Agrees :
    (keys : Topic → Option ℕ) (e : Endian) (c : Client) (net : Network) (topic : Topic)
    → ((t u : Topic) (k : ℕ) → keys t ≡ some k → keys u ≡ some k → t ≡ u)
    → ((bytes : List ℕ) (m : Message)
        → (ask c net (request_of e c topic)).1 ≡ ok bytes
        → new_message e bytes ≡ ok m
        → m.header.type ≡ MessageType.topic_response
        → keys m.payload ≡ some (topic_key e m.header))
    → Agrees keys c
    → Agrees keys (get_topic_key e c net topic).0
get_topic_key-Agrees keys e c net topic injective honest a =
    elim (Option-cases (Dict.get c.topic_map topic)) [
      | inl fresh ↦ rw (uncached e c net topic fresh) (
          learn_parsed-Agrees keys e (asked e c net topic) _ injective
            (λ m parsed response.
              let (bytes, answer, read) = >>=-eq-ok (ask c net (request_of e c topic)).1 _ parsed in
              honest bytes m answer read response)
            (asked-Agrees keys e c net topic a))
      | inr (k, hit) ↦ rw (cached e c net topic hit) a
    ]
