-- ===== src/Client.antt =====
-- class Client of include/spraybus/client/client.hpp and src/spraybus/client/client.cpp: topic
-- resolution with a cache, publishing, subscribing and polling. The network is given by what ENet
-- returns to the connections that the client makes.
pub mod Cache
pub mod Temporary
pub mod Polling
mod Tests
use spraybus.Prelude.{
  ℕ, Bool, true, false, List, [], ◌∷◌, ◌++◌, Option, none, some, if◌then◌else◌, word_key, text_key,
}
use spraybus.Containers.Dict
use spraybus.Containers.Dict.{Dict}
use spraybus.Word.{Endian}
use spraybus.Exec.{Result, ok, throw, runtime_error, undefined_behaviour, Outcome, ◌>>=◌}
use spraybus.Text.{text}
use spraybus.Protocol.Enum.{Origin, MessageType, type_to_string}
use spraybus.Protocol.Header.{topic_key}
use spraybus.Protocol.Message
use spraybus.Protocol.Message.{
  Constructor, Message, new_constructor, new_message, set_topic, payload_as_string,
}
use spraybus.TopicMap.{Topic}
use spraybus.Networking.Client as Net
use spraybus.Networking.Client.{Packet, Event, Service, no_packet, own, packet_data}

pub record Client : Type 0 where
  pub protocol_constructor : Constructor
  pub topic_map : Dict Topic ℕ
  pub inverse_topic_map : Dict ℕ Topic
  -- m_host and m_port
  pub host : List ℕ
  pub port : ℕ
  -- the packets that m_client.send handed to ENet, oldest first
  pub sent : List (List ℕ)

pub record FanoutMessage : Type 0 where
  pub topic_key : ℕ
  pub topic : Topic
  pub payload : List ℕ

-- What ENet gives a temporary connection: what its constructor gets, what recv() finds after a packet
-- was sent, and what comes while its destructor waits.
pub record Network : Type 0 where
  pub resolve : List ℕ → Option ℕ
  pub host_created : Bool
  pub peer_found : Bool
  pub handshake : Service
  pub reply : List ℕ → Service
  pub closing : List Event

-- Client(host, port), once its connection is made.
abbrev pub new_client : List ℕ → ℕ → Client
new_client host port = record {
  protocol_constructor = new_constructor;
  topic_map = Dict.empty;
  inverse_topic_map = Dict.empty;
  host = host;
  port = port;
  sent = [];
}

-- The bytes that packet.data() shows; it reads through the pointer, which must not be null.
abbrev bytes_of : Packet → Result (List ℕ)
bytes_of p = elim (packet_data p) [ some bytes ↦ ok bytes | none ↦ throw undefined_behaviour ]

-- What recv() gives, and the rest of the scope: the packet and then the connection are destroyed,
-- when an exception leaves it too.
unfoldable pub received_answer :
    List Net.Effect → List Event → Result Packet → Outcome (List Net.Effect) (List ℕ)
unfolding Net.close Net.destroy_packet
received_answer made closing (throw error) = (made ++ Net.close closing, throw error)
received_answer made closing (ok packet) =
    (made ++ (Net.destroy_packet packet ++ Net.close closing), bytes_of packet)

-- From the constructor of the temporary connection on.
unfoldable pub ask_connected :
    List Net.Effect → Network → List ℕ → Result (Unit {0}) → Outcome (List Net.Effect) (List ℕ)
unfolding Net.recv received_answer
ask_connected made net msg (throw error) = (made, throw error)
ask_connected made net msg (ok _) = received_answer made net.closing (Net.recv (net.reply msg))

-- temporary_client(m_host, m_port); temporary_client.send(msg); temporary_client.recv(); with what
-- ENet is asked besides to send, oldest first.
unfoldable pub ask : Client → Network → List ℕ → Outcome (List Net.Effect) (List ℕ)
unfolding Net.new_client ask_connected
ask c net msg =
    let (made, connection) =
      Net.new_client net.resolve net.host_created net.peer_found net.handshake c.host c.port in
    ask_connected made net msg connection

-- m_client.send(msg)
abbrev pub send : Client → List ℕ → Client
send c msg = record c { sent = c.sent ++ Net.send_data msg }

module _ (e : Endian) where
  -- What get_topic_key does with the response.
  unfoldable pub learn : Client → Message → MessageType → Outcome Client ℕ
  unfolding payload_as_string
  learn c response MessageType.topic_response =
      let topic_name = payload_as_string response in
      let key = topic_key e response.header in
      (
        record c {
          topic_map = Dict.put c.topic_map topic_name key;
          inverse_topic_map = Dict.put c.inverse_topic_map key topic_name;
        },
        ok key,
      )
  learn c response other =
      (c, throw (runtime_error (text "Unexpected response type: " ++ type_to_string other)))

  unfoldable pub learn_parsed : Client → Result Message → Outcome Client ℕ
  unfolding learn
  learn_parsed c (throw error) = (c, throw error)
  learn_parsed c (ok response) = learn c response response.header.type

  unfoldable pub get_topic_key : Client → Network → Topic → Outcome Client ℕ
  unfolding learn_parsed
  get_topic_key c net topic = elim (Dict.get c.topic_map topic) [
    | some key ↦ (c, ok key)
    | none ↦
        let (constructor', msg) =
          Message.topic_request e c.protocol_constructor topic Origin.client in
        let c' = record c { protocol_constructor = constructor' } in
        learn_parsed c' ((ask c net msg).1 >>= new_message e)
  ]

  -- publish(topic_key, payload)
  unfoldable pub publish_key : Client → ℕ → List ℕ → Client
  publish_key c key payload =
      let (constructor', msg) =
        Message.publish e c.protocol_constructor key payload Origin.client in
      send (record c { protocol_constructor = constructor' }) msg

  -- publish(topic, payload)
  unfoldable pub publish : Client → Network → Topic → List ℕ → Outcome Client Unit
  unfolding publish_key
  publish c net topic payload =
      let (c', r) = get_topic_key c net topic in
      elim r [ ok key ↦ (publish_key c' key payload, ok tt) | throw error ↦ (c', throw error) ]

  -- publish(topic_key, payload) and publish(topic, payload) with a string_view: std::as_bytes of it.
  unfoldable pub publish_key_text : Client → ℕ → List ℕ → Client
  publish_key_text c key payload = publish_key c key payload

  unfoldable pub publish_text : Client → Network → Topic → List ℕ → Outcome Client Unit
  publish_text c net topic payload = publish c net topic payload

  unfoldable pub subscribe_key : Client → ℕ → Client
  subscribe_key c key =
      let (constructor', msg) = Message.subscribe e c.protocol_constructor key Origin.client in
      send (record c { protocol_constructor = constructor' }) msg

  unfoldable pub subscribe : Client → Network → Topic → Outcome Client Unit
  unfolding subscribe_key
  subscribe c net topic =
      let (c', r) = get_topic_key c net topic in
      elim r [ ok key ↦ (subscribe_key c' key, ok tt) | throw error ↦ (c', throw error) ]

  -- The name that process() attaches to a fanout message.
  unfoldable pub topic_name : Client → ℕ → Topic
  topic_name c key = elim (Dict.get c.inverse_topic_map key) [
    | some name ↦ name
    | none ↦ text "unknown"
  ]

  -- The message that process(lambda) hands to its callback, if any.
  unfoldable pub on_packet : Client → Message → MessageType → Option Message
  unfolding topic_name set_topic
  on_packet c msg MessageType.fanout = some (set_topic msg (topic_name c (topic_key e msg.header)))
  on_packet c msg other = none

  unfoldable pub deliver : Client → Result Message → Result (Option Message)
  unfolding on_packet
  deliver c (throw error) = throw error
  deliver c (ok msg) = ok (on_packet c msg msg.header.type)

  unfoldable pub process : Client → Service → Result (Option Message)
  unfolding Net.process deliver
  process c service =
      let (packet, _, r) = Net.process no_packet service in
      elim r [
        | throw error ↦ throw error
        | ok true ↦ deliver c (bytes_of packet >>= new_message e)
        | ok false ↦ ok none
      ]

  -- The lambda of poll() copies the message.
  abbrev pub copy : Option Message → Option FanoutMessage
  copy none = none
  copy (some m) =
      some (record { topic_key = topic_key e m.header; topic = m.topic; payload = m.payload })

  unfoldable pub poll : Client → Service → Result (Option FanoutMessage)
  unfolding process
  poll c service = do message ← process c service; ok (copy message)
