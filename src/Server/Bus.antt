-- ===== src/Server/Bus.antt =====
-- What the server promises, without maps, pointers and buffers: the connected clients in one list,
-- the topic names in the order of their first request, and what each event makes the server send.
use spraybus.Prelude.{
  ℕ, suc, ◌+◌, ◌≡◌, List, [], ◌∷◌, ◌++◌, map, select, Option, none, some, word_key,
}
use spraybus.Containers.KeySet
use spraybus.Word.{Endian}
use spraybus.Exec.{Result, ok, throw}
use spraybus.Protocol.Enum.{MessageType, Origin}
use spraybus.Protocol.Header.{topic_key}
use spraybus.Protocol.Message
use spraybus.Protocol.Message.{Message, new_message, new_constructor}
use spraybus.TopicMap.{Topic}
use spraybus.TopicMap.Names.{index_of, request}
use spraybus.Networking.Server.{
  Client, Event, connect, disconnect, receive, no_event, Effect, send, packet_destroy,
}
use spraybus.Networking.Server.Table.{find_peer, remove_client, set_data}
use spraybus.Server.{ClientData, no_topics, wants}

pub record Bus : Type 0 where
  pub live : List (Client ClientData)
  pub names : List Topic
  pub next_id : ℕ

abbrev pub empty_bus : Bus
empty_bus = record { live = []; names = []; next_id = 1 }

-- The position of a name, counted from 1; names that were asked for have one.
abbrev pub key_in : List Topic → Topic → ℕ
key_in names t = elim (index_of t names) [ some i ↦ suc i | none ↦ 0 ]

-- After the handler the packet is destroyed.
abbrev pub finish : ℕ → Bus × List Effect → Bus × List Effect
finish packet (b, effects) = (b, effects ++ packet_destroy packet ∷ [])

module _ (e : Endian) where
  -- What a packet of type, key and payload from client `c` does.
  abbrev pub answer : Bus → Client ClientData → MessageType → ℕ → List ℕ → Bus × List Effect
  answer b c MessageType.topic_request key payload =
      let names' = request b.names payload in
      let (_, packet) =
        Message.topic_response e new_constructor (key_in names' payload) payload Origin.server in
      (record b { names = names' }, send c.peer packet ∷ [])
  answer b c MessageType.subscribe key payload =
      let topics = KeySet.insert c.client_data.subscribed_topics key in
      (record b { live = set_data c.id (record { subscribed_topics = topics }) b.live }, [])
  answer b c MessageType.unsubscribe key payload =
      let topics = KeySet.erase c.client_data.subscribed_topics key in
      (record b { live = set_data c.id (record { subscribed_topics = topics }) b.live }, [])
  answer b c MessageType.publish key payload =
      let (_, packet) = Message.fanout e new_constructor key payload Origin.server in
      (
        b,
        map (λ (other : Client ClientData). send other.peer packet)
            (select (wants c.id key) b.live),
      )
  answer b c MessageType.unknown key payload = (b, [])
  answer b c MessageType.topic_response key payload = (b, [])
  answer b c MessageType.fanout key payload = (b, [])
  answer b c (MessageType.unnamed n) key payload = (b, [])

  -- A packet that is too short for a header is ignored.
  abbrev pub answer_parsed : Bus → Client ClientData → Result Message → Bus × List Effect
  answer_parsed b c (throw _) = (b, [])
  answer_parsed b c (ok m) = answer b c m.header.type (topic_key e m.header) m.payload

  abbrev pub answer_bytes : Bus → Client ClientData → List ℕ → Bus × List Effect
  answer_bytes b c bytes = answer_parsed b c (new_message e bytes)

  -- A packet from a peer with a record, and the end of a peer's connection.
  abbrev pub receive_step : Bus → ℕ → List ℕ → Option (Client ClientData) → Bus × List Effect
  receive_step b packet bytes (some c) = finish packet (answer_bytes b c bytes)
  receive_step b packet bytes none = (b, [])

  abbrev pub disconnect_step : Bus → Option (Client ClientData) → Bus × List Effect
  disconnect_step b (some c) = (record b { live = remove_client c.id b.live }, [])
  disconnect_step b none = (b, [])

  -- One event. An event of a peer without a record does nothing here; ENet sends none.
  abbrev pub bus_step : Bus → Event → Bus × List Effect
  bus_step b (connect peer) = (
    record b {
      live = b.live ++ record { id = b.next_id; peer = peer; client_data = no_topics } ∷ [];
      next_id = b.next_id + 1;
    },
    [],
  )
  bus_step b (receive peer packet bytes) = receive_step b packet bytes (find_peer peer b.live)
  bus_step b (disconnect peer) = disconnect_step b (find_peer peer b.live)
  bus_step b no_event = (b, [])

  unfoldable pub bus_run : Bus → List Event → Bus × List Effect
  bus_run b [] = (b, [])
  bus_run b (event ∷ events) =
      let (b', effects) = bus_step b event in
      let (b'', more) = bus_run b' events in (b'', effects ++ more)

-- What ENet documents of the events of a host: a peer connects only while it is not connected, and
-- packets and the disconnect of a peer come only while it is.
abbrev pub Allows : Bus → Event → Type 0
Allows b (connect peer) = find_peer peer b.live ≡ none
Allows b (receive peer packet bytes) = (c : Client ClientData) × (find_peer peer b.live ≡ some c)
Allows b (disconnect peer) = (c : Client ClientData) × (find_peer peer b.live ≡ some c)
Allows b no_event = Unit {0}

abbrev pub AllowsAll : Endian → Bus → List Event → Type 0
AllowsAll e b [] = Unit {0}
AllowsAll e b (event ∷ events) = Allows b event × AllowsAll e (bus_step e b event).0 events
