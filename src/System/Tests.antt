-- ===== src/System/Tests.antt =====
-- The client and the server together, at the session of Server/Session.antt.
use mathlib.Core.List.{Mem}
use spraybus.Prelude.{
  ℕ, ◌≡◌, ◌<◌, ◌^◌, ◌+◌, refl, List, none, some, arith, length, bytes_eq, word_key, text_key,
}
use spraybus.Containers.Dict
use spraybus.Containers.KeySet
use spraybus.Word.{little, big, store, load, network_to_host64, host_to_network64, byteswap}
use spraybus.Exec.{ok}
use spraybus.Text.{text}
use spraybus.Protocol.Enum.{Origin, type_of, type_value}
use spraybus.Protocol.Header.{header_bytes, read_header, topic_key}
use spraybus.Protocol.Message
use spraybus.Protocol.Message.{new_constructor, new_message}
use spraybus.Networking.Server.{send}
use spraybus.Networking.Server.Table.{find_peer}
use spraybus.Networking.Client as Net
use spraybus.TopicMap.Names.{index_of, request}
use spraybus.Server.{on_message, no_topics, process}
use spraybus.Server.Bus.{bus_run, key_in}
use spraybus.Server.Session.{
  midway, midway_bus, midway-Shows, publisher, subscriber, publisher_found, subscriber_found,
  subscriber_joined, few_names,
}
use spraybus.Client.{Client, new_client, get_topic_key, poll}
use spraybus.System.{server_network, idle, exchange}
use spraybus.System.Resolve.{resolves, caches_agree}
use spraybus.TopicMap
use spraybus.TopicMap.{Topic}
use spraybus.Client.Cache.{Agrees, request_of, new_client-Agrees}
use spraybus.System.EndToEnd.{published_payload_arrives}

abbrev fresh_client : Client
fresh_client = new_client (text "localhost") 6767

-- A client that has resolved "alerts".
abbrev knowing : Client
knowing = record fresh_client {
  inverse_topic_map = Dict.put fresh_client.inverse_topic_map 1 (text "alerts");
}

known : Dict.get knowing.inverse_topic_map 1 ≡ some (text "alerts")
unfolding Dict.get Dict.put
known = refl

published_payload_arrives_example :
    (packet : List ℕ) × Mem
      (send 11 packet)
      (on_message big midway 1
        (Message.publish little new_constructor 1 (text "disk low") Origin.client).1).0.base.effects
    × ((address : ℕ)
        → poll little knowing (some (Net.received (record { address = address; bytes = packet })))
          ≡ ok (some (record { topic_key = 1; topic = text "alerts"; payload = text "disk low" })))
published_payload_arrives_example =
    published_payload_arrives big little little midway midway_bus publisher subscriber
      new_constructor knowing 1 (text "alerts") (text "disk low") midway-Shows publisher_found
      subscriber_found (λ h. ground (arith, h)) few_names (omega arith) subscriber_joined known

room :
    (find_peer 12 midway_bus.live ≡ none)
    × (midway_bus.next_id + 2 < 2 ^ 64)
    × (length midway_bus.names + 3 < 2 ^ 64)
    × (key_in (request midway_bus.names (text "alerts")) (text "alerts") ≡ 1)
unfolding index_of request bus_run Message.subscribe new_message read_header header_bytes topic_key
    no_topics KeySet.insert KeySet.empty type_of type_value store load byteswap network_to_host64
    host_to_network64 bytes_eq
room = (refl, omega arith, omega arith, refl)

resolves_example :
    (get_topic_key little fresh_client (server_network big midway 12) (text "alerts")).1
    ≡ ok (key_in (request midway_bus.names (text "alerts")) (text "alerts"))
resolves_example =
    (resolves big little midway midway_bus midway-Shows fresh_client 12 (text "alerts") room.0
      room.1 room.2 (Dict.get-empty (text "alerts"))).0

caches_agree_example :
    Agrees
      (TopicMap.get
        (process big
          (idle midway)
          (exchange 12 (request_of little fresh_client (text "alerts")))).0.fields.topic_map)
      (get_topic_key little fresh_client (server_network big midway 12) (text "alerts")).0
caches_agree_example =
    caches_agree big little midway midway_bus midway-Shows fresh_client 12 (text "alerts") room.0
      room.1 room.2 (Dict.get-empty (text "alerts"))
      (new_client-Agrees (TopicMap.get midway.fields.topic_map) (text "localhost") 6767)
