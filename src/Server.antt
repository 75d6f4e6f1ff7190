-- ===== src/Server.antt =====
-- class Server of include/spraybus/server/server.hpp and src/spraybus/server/server.cpp: the
-- pub/sub server on top of the networking base. Log lines are left out, but not the accesses to the
-- client that their arguments make at the default log level (LOG_DEBUG is below it).
pub mod Bus
pub mod Forward
pub mod Refinement
pub mod Runs
pub mod Delivery
pub mod Ignored
pub mod Connections
pub mod Session
mod Tests
use spraybus.Prelude.{
  ℕ, Bool, true, false, not, ◌&&◌, List, [], ◌∷◌, ◌==◌, if◌then◌else◌, ltb, length, word_key,
}
use spraybus.Containers.Dict
use spraybus.Containers.KeySet
use spraybus.Containers.KeySet.{KeySet}
use spraybus.Word.{Endian}
use spraybus.Exec.{Result, ok, throw, Outcome}
use spraybus.Protocol.Enum.{MessageType, Origin}
use spraybus.Protocol.Header.{header_size, topic_key}
use spraybus.Protocol.Message
use spraybus.Protocol.Message.{
  Constructor, Message, new_constructor, new_message, payload_as_string,
}
use spraybus.TopicMap
use spraybus.TopicMap.{TopicMap}
use spraybus.Networking.Server as Base
use spraybus.Networking.Server.{Client, Object, Derived, deref, send_to, empty_server, ◌then_do◌}

pub record ClientData : Type 0 where
  pub subscribed_topics : KeySet ℕ

pub record Fields : Type 0 where
  pub topic_map : TopicMap
  pub protocol_constructor : Constructor

abbrev pub BaseServer : Type 0
BaseServer = Base.Server ClientData

abbrev pub Server : Type 0
Server = Object ClientData Fields

-- ClientData{}
unfoldable pub no_topics : ClientData
no_topics = record { subscribed_topics = KeySet.empty }

-- The server after its constructor, when enet_host_create gave a host.
unfoldable pub new_server : Server
unfolding empty_server
new_server = record {
  base = empty_server;
  fields = record { topic_map = TopicMap.empty; protocol_constructor = new_constructor };
}

-- An access client->… through a pointer, with what follows.
unfoldable pub with_client :
    Server → ℕ → (Client ClientData → Outcome Server Unit) → Outcome Server Unit
with_client o client rest = elim (deref o.base client) [ ok c ↦ rest c | throw e ↦ (o, throw e) ]

-- client->data().subscribed_topics = topics
pub store_topics : Server → ℕ → Client ClientData → KeySet ℕ → Server
store_topics o client c topics = record o {
  base = record o.base {
    client_map =
        Dict.put o.base.client_map client
          (record c { client_data = record { subscribed_topics = topics } });
  };
}

-- other_client->id() != client->id() && other_client->…contains(topic_key)
unfoldable pub wants : ℕ → ℕ → Client ClientData → Bool
wants sender key other =
    not (other.id == sender) && KeySet.contains other.client_data.subscribed_topics key

-- The loop over this->clients().
pub forward : ℕ → ℕ → List ℕ → BaseServer → List ℕ → Outcome BaseServer Unit
unfolding wants
forward client key packet s [] = (s, ok tt)
forward client key packet s (other ∷ others) =
    let visit : Outcome BaseServer Unit = elim (deref s other) [
      | throw e ↦ (s, throw e)
      | ok o ↦ elim (deref s client) [
        | throw e ↦ (s, throw e)
        | ok c ↦ if wants c.id key o then send_to s other packet else (s, ok tt)
      ]
    ] in
    let (s', r) = visit in
    elim r [ ok _ ↦ forward client key packet s' others | throw e ↦ (s', throw e) ]

module _ (e : Endian) where
  abbrev lift : Server → Constructor → Outcome BaseServer Unit → Outcome Server Unit
  lift o constructor (s, r) =
      (record o { base = s; fields = record o.fields { protocol_constructor = constructor } }, r)

  -- The switch over the type of a message.
  pub handle : Server → ℕ → Message → MessageType → Outcome Server Unit
  unfolding store_topics forward
  handle o client msg MessageType.topic_request =
      let topic_name = payload_as_string msg in
      let (topic_map', key) = TopicMap.get_or_create o.fields.topic_map topic_name in
      let (constructor', response) =
        Message.topic_response e o.fields.protocol_constructor key topic_name Origin.server in
      let (s', r) = send_to o.base client response in
      (
        record {
          base = s';
          fields = record { topic_map = topic_map'; protocol_constructor = constructor' };
        },
        r,
      )
  handle o client msg MessageType.subscribe = with_client o client λ c. (
    store_topics o client c
        (KeySet.insert c.client_data.subscribed_topics (topic_key e msg.header)),
    ok tt,
  )
  handle o client msg MessageType.unsubscribe = with_client o client λ c. (
    store_topics o client c (KeySet.erase c.client_data.subscribed_topics (topic_key e msg.header)),
    ok tt,
  )
  handle o client msg MessageType.publish =
      let key = topic_key e msg.header in
      let (constructor', packet) =
        Message.fanout e o.fields.protocol_constructor key msg.payload Origin.server in
      lift o constructor' (forward client key packet o.base o.base.clients)
  handle o client msg MessageType.unknown = (o, ok tt)
  handle o client msg MessageType.topic_response = (o, ok tt)
  handle o client msg MessageType.fanout = (o, ok tt)
  handle o client msg (MessageType.unnamed n) = (o, ok tt)

  -- The message that the constructor Message(message) gave, unless it threw.
  pub handle_parsed : Server → ℕ → Result Message → Outcome Server Unit
  unfolding handle
  handle_parsed o client (throw error) = (o, throw error)
  handle_parsed o client (ok msg) = handle o client msg msg.header.type

  unfoldable pub on_message : Server → ℕ → List ℕ → Outcome Server Unit
  unfolding handle_parsed
  on_message o client message =
      if ltb (length message) header_size
      then (with_client o client λ c. (o, ok tt))
      else handle_parsed o client (new_message e message)

  unfoldable pub on_process : Server → Outcome Server Unit
  on_process o = (o, ok tt)

  -- Both only log, with client->id().
  unfoldable pub on_connect : Server → ℕ → Outcome Server Unit
  on_connect o client = with_client o client λ c. (o, ok tt)

  unfoldable pub on_disconnect : Server → ℕ → Outcome Server Unit
  on_disconnect o client = with_client o client λ c. (o, ok tt)

  unfoldable pub server_callbacks : Derived ClientData Fields
  unfolding on_process on_connect on_disconnect on_message
  server_callbacks = record {
    on_process = on_process;
    on_connect = on_connect;
    on_disconnect = on_disconnect;
    on_message = on_message;
  }

  -- Server::process() of this class, and one round of its loop.
  unfoldable pub dispatch : Server → Base.Event → Outcome Server Unit
  unfolding no_topics server_callbacks
  dispatch o event = Base.dispatch no_topics server_callbacks o event

  unfoldable pub process : Server → List Base.Event → Outcome Server Unit
  unfolding no_topics server_callbacks
  process o events = Base.process no_topics server_callbacks o events
