-- ===== src/Server/Refinement.antt =====
-- The refinement of the bus by Server::on_message (src/spraybus/server/server.cpp).
use mathlib.Core.List.{append-nil}
use spraybus.Prelude.{
  ℕ, ◌+◌, ◌^◌, ◌<◌, ◌≡◌, refl, sym, ap, ◌∙◌, true, false, ltb, List, [], ◌∷◌, ◌++◌, some, arith,
  length, Bool-cases, inl, inr,
}
use spraybus.Containers.KeySet.{KeySet}
use spraybus.Word.{Endian}
use spraybus.Exec.{runtime_error, ok, throw, Outcome}
use spraybus.Text.{text}
use spraybus.Protocol.Enum.{MessageType, Origin}
use spraybus.Protocol.Header.{header_size, topic_key}
use spraybus.Protocol.Message
use spraybus.Protocol.Message.{Constructor, Message, new_message, new_constructor}
use spraybus.Protocol.RoundTrip.{new_message_iff}
use spraybus.TopicMap
use spraybus.TopicMap.Names
use spraybus.Networking.Server.{Client, Effect, send}
use spraybus.Networking.Server.Table as Table
use spraybus.Networking.Server.Table.{
  find_peer, find_client, ids, deref_lem, set_data, set_data-Represents,
}
use spraybus.Server.{ClientData, Server, with_client, forward, handle, store_topics, on_message}
use spraybus.Server.Forward.{effects-Represents, send_to_lem, sends, forward_lem, all_found}
use spraybus.Server.Bus.{Bus, key_in, answer, answer_bytes}

-- The server `o` is in the state `b` of the bus.
pub record Shows (o : Server) (b : Bus) : Type 0 where
  pub table : Table.Represents o.base b.live
  pub topics : Names.Represents o.fields.topic_map b.names
  pub next : o.base.next_client_id ≡ b.next_id

-- A call that began with these effects returned, and did what the bus does.
pub record Refines (before : List Effect) (result : Outcome Server Unit)
    (promised : Bus × List Effect) : Type 0 where
  pub returned : result.1 ≡ ok tt
  pub shows : Shows result.0 promised.0
  pub sent : result.0.base.effects ≡ before ++ promised.1

-- What a constructor built before does not show in a packet.
same_response :
    (e : Endian) (c : Constructor) (key : ℕ) (name : List ℕ)
    → (Message.topic_response e c key name Origin.server).1
      ≡ (Message.topic_response e new_constructor key name Origin.server).1
unfolding Message.topic_response
same_response e c key name = refl

same_fanout :
    (e : Endian) (c : Constructor) (key : ℕ) (payload : List ℕ)
    → (Message.fanout e c key payload Origin.server).1
      ≡ (Message.fanout e new_constructor key payload Origin.server).1
unfolding Message.fanout
same_fanout e c key payload = refl

pub with_client_lem :
    (o : Server) (live : List (Client ClientData)) (i : ℕ) (c : Client ClientData)
    (rest : Client ClientData → Outcome Server Unit)
    → Table.Represents o.base live
    → find_client i live ≡ some c
    → with_client o i rest ≡ rest c
unfolding with_client
with_client_lem o live i c rest r found = ground (arith, deref_lem o.base live i c r found)

-- Nothing is done: a message of another type, or a short packet.
pub ignored-Refines : (o : Server) (b : Bus) → Shows o b → Refines o.base.effects (o, ok tt) (b, [])
ignored-Refines o b v = record {
  returned = refl;
  shows = v;
  sent = sym (append-nil o.base.effects);
}

key_in_lem :
    (names : List TopicMap.Topic) (t : TopicMap.Topic) (k : ℕ)
    → some k ≡ Names.key_of names t
    → k ≡ key_in names t
key_in_lem names t k h = ground arith

module _ (e : Endian) (o : Server) (b : Bus) (c : Client ClientData) (msg : Message.Message)
    (v : Shows o b) (found : find_client c.id b.live ≡ some c) where
  request-Refines :
      length b.names + 2 < 2 ^ 64
      → Refines o.base.effects
          (handle e o c.id msg MessageType.topic_request)
          (answer e b c MessageType.topic_request (topic_key e msg.header) msg.payload)
  unfolding handle Message.payload_as_string
  request-Refines room =
      let name = msg.payload in
      let step = Names.get_or_create-Represents o.fields.topic_map b.names name v.topics room in
      let key = (TopicMap.get_or_create o.fields.topic_map name).1 in
      let names' = Names.request b.names name in
      let packet =
        (Message.topic_response e o.fields.protocol_constructor key name Origin.server).1 in
      rw (send_to_lem o.base b.live c.id c packet v.table found) (record {
        returned = refl;
        shows = record {
          table = effects-Represents o.base b.live _ v.table;
          topics = step.0;
          next = v.next;
        };
        sent =
            ap (λ p. o.base.effects ++ send c.peer p ∷ [])
              (same_response e o.fields.protocol_constructor key name
                ∙ ap (λ k. (Message.topic_response e new_constructor k name Origin.server).1)
                    (key_in_lem names' name key step.1));
      })

  publish-Refines :
      Refines o.base.effects
        (handle e o c.id msg MessageType.publish)
        (answer e b c MessageType.publish (topic_key e msg.header) msg.payload)
  unfolding handle
  publish-Refines =
      let key = topic_key e msg.header in
      let packet =
        (Message.fanout e o.fields.protocol_constructor key msg.payload Origin.server).1 in
      let forwarded : forward c.id key packet o.base o.base.clients
          ≡ (record o.base { effects = o.base.effects ++ sends c.id key packet b.live }, ok tt) =
        ap (forward c.id key packet o.base) v.table.order
        ∙ forward_lem o.base b.live b.live c key packet v.table found
            (all_found b.live v.table.distinct) in
      rw forwarded (record {
        returned = refl;
        shows = record {
          table = effects-Represents o.base b.live _ v.table;
          topics = v.topics;
          next = v.next;
        };
        sent =
            ap (λ p. o.base.effects ++ sends c.id key p b.live)
              (same_fanout e o.fields.protocol_constructor key msg.payload);
      })

  -- The subscriptions of the client are replaced.
  store-Refines :
      (topics : KeySet ℕ)
      → Refines o.base.effects
          (store_topics o c.id c topics, ok tt)
          (record b { live = set_data c.id (record { subscribed_topics = topics }) b.live }, [])
  unfolding store_topics
  store-Refines topics = record {
    returned = refl;
    shows = record {
      table = set_data-Represents o.base b.live c.id c _ v.table found;
      topics = v.topics;
      next = v.next;
    };
    sent = sym (append-nil o.base.effects);
  }

  subscribe-Refines :
      Refines o.base.effects
        (handle e o c.id msg MessageType.subscribe)
        (answer e b c MessageType.subscribe (topic_key e msg.header) msg.payload)
  unfolding handle
  subscribe-Refines = rw (with_client_lem o b.live c.id c _ v.table found) (store-Refines _)

  unsubscribe-Refines :
      Refines o.base.effects
        (handle e o c.id msg MessageType.unsubscribe)
        (answer e b c MessageType.unsubscribe (topic_key e msg.header) msg.payload)
  unfolding handle
  unsubscribe-Refines = rw (with_client_lem o b.live c.id c _ v.table found) (store-Refines _)

  handle-Refines :
      (type : MessageType)
      → length b.names + 2 < 2 ^ 64
      → Refines o.base.effects
          (handle e o c.id msg type)
          (answer e b c type (topic_key e msg.header) msg.payload)
  handle-Refines MessageType.topic_request room = request-Refines room
  handle-Refines MessageType.publish room = publish-Refines
  handle-Refines MessageType.subscribe room = subscribe-Refines
  handle-Refines MessageType.unsubscribe room = unsubscribe-Refines
  handle-Refines MessageType.unknown room = unfold handle in ignored-Refines o b v
  handle-Refines MessageType.topic_response room = unfold handle in ignored-Refines o b v
  handle-Refines MessageType.fanout room = unfold handle in ignored-Refines o b v
  handle-Refines (MessageType.unnamed n) room = unfold handle in ignored-Refines o b v

pub new_message_short :
    (e : Endian) (bytes : List ℕ)
    → ltb (length bytes) header_size ≡ true
    → new_message e bytes ≡ throw (runtime_error (text "Data too short to contain header"))
unfolding new_message
new_message_short e bytes h = ground arith

new_message_long :
    (e : Endian) (bytes : List ℕ)
    → ltb (length bytes) header_size ≡ false
    → (m : Message) × (new_message e bytes ≡ ok m)
new_message_long e bytes h = (new_message_iff e bytes).1 (ground arith)

-- One call of on_message, for any bytes.
pub on_message-Refines :
    (e : Endian) (o : Server) (b : Bus) (c : Client ClientData) (bytes : List ℕ)
    → Shows o b
    → find_client c.id b.live ≡ some c
    → length b.names + 2 < 2 ^ 64
    → Refines o.base.effects (on_message e o c.id bytes) (answer_bytes e b c bytes)
on_message-Refines e o b c bytes v found room = elim (Bool-cases (ltb (length bytes) header_size)) [
  | inl short ↦ rw (new_message_short e bytes short) (
      unfold on_message in
      rw (short, with_client_lem o b.live c.id c _ v.table found) (ignored-Refines o b v))
  | inr long ↦
      let (m, parsed) = new_message_long e bytes long in
      rw parsed (
        unfold on_message in
        rw (long, parsed) (handle-Refines e o b c m v found m.header.type room))
]
