-- ===== src/System/Resolve.antt =====
-- A topic name resolved through the server.
use spraybus.Prelude.{
  ℕ, suc, ◌+◌, ◌^◌, ◌<◌, ◌≤◌, ◌≡◌, refl, sym, ap, ◌∙◌, subst, List, [], ◌∷◌, ◌++◌, none, some,
  arith, length, word_key, text_key, Option-cases, inl, inr, bytes_eq_iff, ==_iff,
}
use spraybus.Containers.Dict
use spraybus.Containers.Dict.{get-put}
use spraybus.Word.{Endian}
use spraybus.Exec.{ok}
use spraybus.Protocol.Enum.{Origin, MessageType}
use spraybus.Protocol.Message
use spraybus.Protocol.Message.{new_constructor}
use spraybus.Protocol.RoundTrip.{Carries, packets_carry}
use spraybus.TopicMap
use spraybus.TopicMap.{Topic}
use spraybus.TopicMap.Names.{
  index_of, request, length-request, key_of, request_new, request_old, index_of-snoc,
}
use spraybus.TopicMap.Keys.{Represents-injective, key_of-request, index_of-lt-length}
use spraybus.Networking.Server.{Client as Record, Effect, send, packet_destroy}
use spraybus.Networking.Server.Table.{find_peer, find_peer-snoc}
use spraybus.Networking.Client as Net
use spraybus.Server.{ClientData, Server, no_topics, process}
use spraybus.Server.Bus.{Bus, key_in, bus_run}
use spraybus.Server.Forward.{effects-Represents}
use spraybus.Server.Refinement.{Shows, Refines}
use spraybus.Server.Runs.{process-Refines}
use spraybus.Server.Delivery.{answer_carried, named_client, named_server}
use spraybus.Client.{Client, ask, get_topic_key}
use spraybus.Client.Cache.{Agrees, asked, request_of, resolved, learned-Agrees}
use spraybus.System.{first_sent, idle, exchange, server_network}

pub idle-Shows : (o : Server) (b : Bus) → Shows o b → Shows (idle o) b
idle-Shows o b v = record {
  table = effects-Represents o.base b.live [] v.table;
  topics = v.topics;
  next = v.next;
}

-- The bus after the request of a temporary connection at this peer, and what it sent.
module _ (e : Endian) (b : Bus) (peer : ℕ) (msg : List ℕ) (topic : Topic) where
  abbrev pub visitor : Record ClientData
  visitor = record { id = b.next_id; peer = peer; client_data = no_topics }

  abbrev pub visited : Bus
  visited = record b { live = b.live ++ visitor ∷ []; next_id = b.next_id + 1 }

  abbrev pub answer_packet : List ℕ
  answer_packet =
      (Message.topic_response e new_constructor (key_in (request b.names topic) topic) topic
        Origin.server).1

  exchange_run :
      find_peer peer b.live ≡ none
      → Carries e msg MessageType.topic_request Origin.client 0 topic
      → bus_run e b (exchange peer msg) ≡ (
        record visited { names = request b.names topic },
        send peer answer_packet ∷ packet_destroy 0 ∷ [],
      )
  unfolding bus_run
  exchange_run free carried =
      rw
        (
          find_peer-snoc peer visitor b.live free refl,
          answer_carried e visited visitor msg MessageType.topic_request Origin.client 0 topic
              carried,
        )
        refl

requested_index :
    (names : List Topic) (t : Topic) → (i : ℕ) × (index_of t (request names t) ≡ some i)
requested_index names t = elim (Option-cases (index_of t names)) [
  | inl new ↦ (
    length names,
    rw (request_new names t new) (index_of-snoc t t names new ∙ ground (arith, bytes_eq_iff t t)),
  )
  | inr (i, old) ↦ (i, rw (request_old names t old) old)
]

key_in_at :
    (names : List Topic) (t : Topic) (i : ℕ) → index_of t names ≡ some i → key_in names t ≡ suc i
key_in_at names t i h = ground arith

-- The name that was asked for has a key, and keys are no greater than the number of names.
pub key_of_requested :
    (names : List Topic) (t : Topic)
    → (key_of (request names t) t ≡ some (key_in (request names t) t))
      × (key_in (request names t) t ≤ length names + 1)
key_of_requested names t =
    let (i, at) = requested_index names t in
    let k = key_in_at (request names t) t i at in
    (
      rw (at, k),
      omega (arith, k, index_of-lt-length t (request names t) i at, length-request names t),
    )

first_sent_head :
    (peer : ℕ) (bytes : List ℕ) (rest : List Effect)
    → first_sent peer (send peer bytes ∷ rest)
      ≡ some (Net.received (record { address = 0; bytes = bytes }))
unfolding first_sent
first_sent_head peer bytes rest = ground arith

module _ (e h : Endian) (o : Server) (b : Bus) (v : Shows o b) (cl : Client) (peer : ℕ)
    (topic : Topic) (free : find_peer peer b.live ≡ none) (ids : b.next_id + 2 < 2 ^ 64)
    (names : length b.names + 3 < 2 ^ 64) where
  abbrev msg : List ℕ
  msg = request_of h cl topic

  abbrev key : ℕ
  key = key_in (request b.names topic) topic

  asks : Carries e msg MessageType.topic_request Origin.client 0 topic
  asks =
      (packets_carry h e cl.protocol_constructor Origin.client 0 topic named_client (omega arith)).0

  served : Refines [] (process e (idle o) (exchange peer msg)) (bus_run e b (exchange peer msg))
  served =
      process-Refines e (idle o) b (exchange peer msg) (idle-Shows o b v)
        (
          free,
          (
            (
              visitor e b peer msg topic,
              find_peer-snoc peer (visitor e b peer msg topic) b.live free refl,
            ),
            tt,
          ),
        )
        (omega arith) (omega arith)

  pub sent :
      (process e (idle o) (exchange peer msg)).0.base.effects
      ≡ send peer (answer_packet e b peer msg topic) ∷ packet_destroy 0 ∷ []
  sent = served.sent ∙ ap (λ r. r.1) (exchange_run e b peer msg topic free asks)

  answered : (ask cl (server_network e o peer) msg).1 ≡ ok (answer_packet e b peer msg topic)
  unfolding ask
  answered = rw (sent, first_sent_head)

  pub learned :
      Dict.get cl.topic_map topic ≡ none
      → get_topic_key h cl (server_network e o peer) topic ≡ (
        record (asked h cl (server_network e o peer) topic) {
          topic_map = Dict.put cl.topic_map topic key;
          inverse_topic_map = Dict.put cl.inverse_topic_map key topic;
        },
        ok key,
      )
  learned fresh =
      let k = key_of_requested b.names topic in
      resolved h cl (server_network e o peer) topic (answer_packet e b peer msg topic) Origin.server
        key topic fresh answered
        (packets_carry e h new_constructor Origin.server key topic named_server
          (omega (arith, k.1))).1

  pub shown :
      Shows
        (process e (idle o) (exchange peer msg)).0
        (record (visited e b peer msg topic) { names = request b.names topic })
  shown =
      subst (Shows (process e (idle o) (exchange peer msg)).0)
        (ap (λ r. r.0) (exchange_run e b peer msg topic free asks)) served.shows

  -- get_topic_key of a name that the client has not cached, asked from a free peer of a server that
  -- shows a bus with at least three ids and keys left: it returns the name's key, the client then
  -- has name and key in both maps, and the server has the same key for it.
  pub resolves :
      Dict.get cl.topic_map topic ≡ none
      → let result = get_topic_key h cl (server_network e o peer) topic in
        let server = (process e (idle o) (exchange peer msg)).0 in
        (result.1 ≡ ok key)
        × (Dict.get result.0.topic_map topic ≡ some key)
        × (Dict.get result.0.inverse_topic_map key ≡ some topic)
        × (TopicMap.get server.fields.topic_map topic ≡ some key)
  resolves fresh = (
    ap (λ r. r.1) (learned fresh),
    ap (λ r. Dict.get r.0.topic_map topic) (learned fresh)
        ∙ get-put cl.topic_map topic topic key
        ∙ ground (arith, bytes_eq_iff topic topic),
    ap (λ r. Dict.get r.0.inverse_topic_map key) (learned fresh)
        ∙ get-put cl.inverse_topic_map key key topic
        ∙ ground (arith, ==_iff key key),
    shown.topics.at_name topic ∙ (key_of_requested b.names topic).0,
  )

  -- The client's maps agreed with the keys of a server that shows a bus with at least three ids and
  -- keys left, and a name that is not cached is asked of it from a free peer: afterwards the
  -- client's maps agree with the keys that the server has then.
  pub caches_agree :
      Dict.get cl.topic_map topic ≡ none
      → Agrees (TopicMap.get o.fields.topic_map) cl
      → Agrees
          (TopicMap.get (process e (idle o) (exchange peer msg)).0.fields.topic_map)
          (get_topic_key h cl (server_network e o peer) topic).0
  caches_agree fresh a =
      let map' = (process e (idle o) (exchange peer msg)).0.fields.topic_map in
      let later : (t : Topic) (k : ℕ)
          → TopicMap.get o.fields.topic_map t ≡ some k
          → TopicMap.get map' t ≡ some k =
        λ t k known.
          shown.topics.at_name t
          ∙ key_of-request b.names t topic k (sym (v.topics.at_name t) ∙ known) in
      subst (λ (r : Client). Agrees (TopicMap.get map') r) (sym (ap (λ r. r.0) (learned fresh)))
        (learned-Agrees (TopicMap.get map') (asked h cl (server_network e o peer) topic) topic key
          (λ t u k ht hu.
            Represents-injective map' (request b.names topic) t u k shown.topics ht hu)
          (record {
            known = λ t k g. later t k (a.known t k g);
            named = λ t k g. later t k (a.named t k g);
            paired = a.paired;
          })
          (shown.topics.at_name topic ∙ (key_of_requested b.names topic).0))
