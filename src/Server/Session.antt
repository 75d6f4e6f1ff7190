-- ===== src/Server/Session.antt =====
-- A short session on a big-endian server: two little-endian clients, one of them subscribed.
use spraybus.Prelude.{
  none, word_key, ℕ, ◌≡◌, refl, List, [], ◌∷◌, some, arith, true, length, bytes_eq, ◌+◌, ◌^◌, ◌<◌,
}
use spraybus.Containers.Dict
use spraybus.Containers.KeySet
use spraybus.Word.{little, big, store, load, network_to_host64, host_to_network64, byteswap}
use spraybus.Text.{text}
use spraybus.Protocol.Enum.{
  Origin, origin_value, origin_of, version_value, version_of, type_value, type_of,
}
use spraybus.Protocol.Header.{header_bytes, read_header, topic_key}
use spraybus.Protocol.Message
use spraybus.Protocol.Message.{new_constructor, new_message, payload_as_string}
use spraybus.TopicMap.Names.{index_of, request}
use spraybus.TopicMap
use spraybus.Networking.Server as Base
use spraybus.Networking.Server.{
  deref, send_to, Client, Event, connect, disconnect, receive, Effect, send, packet_destroy,
}
use spraybus.Networking.Server.Table.{find_client, find_peer}
use spraybus.Server.{
  ClientData, Server, new_server, no_topics, process, dispatch, with_client, on_message, wants,
}
use spraybus.Server.Bus.{Bus, empty_bus, bus_run, AllowsAll}
use spraybus.Server.Refinement.{Shows}
use spraybus.Server.Runs.{process-Refines, new_server-Shows}
use spraybus.Server.Delivery.{subscribed}

-- Little-endian clients at peers 10 and 11 of a big-endian server.
abbrev pub subscribe_packet : List ℕ
subscribe_packet = (Message.subscribe little new_constructor 1 Origin.client).1

abbrev pub publish_packet : List ℕ
publish_packet = (Message.publish little new_constructor 1 (text "disk low") Origin.client).1

abbrev pub request_packet : List ℕ
request_packet = (Message.topic_request little new_constructor (text "alerts") Origin.client).1

-- The server and the bus in the middle of such a session: two clients, the second subscribed.
abbrev pub opening : List Event
opening = connect 10 ∷ connect 11 ∷ receive 11 71 subscribe_packet ∷ []

abbrev pub midway : Server
midway = (process big new_server opening).0

abbrev pub midway_bus : Bus
midway_bus = (bus_run big empty_bus opening).0

opening-AllowsAll : AllowsAll big empty_bus opening
unfolding Message.subscribe new_message read_header header_bytes topic_key no_topics KeySet.insert
    KeySet.empty type_of type_value store load byteswap network_to_host64 host_to_network64
opening-AllowsAll =
    (refl, (refl, ((record { id = 2; peer = 11; client_data = no_topics }, refl), tt)))

pub midway-Shows : Shows midway midway_bus
midway-Shows =
    (process-Refines big new_server empty_bus opening new_server-Shows opening-AllowsAll
      (omega arith) (omega arith)).shows

abbrev pub publisher : Client ClientData
publisher = record { id = 1; peer = 10; client_data = no_topics }

pub publisher_found : find_client publisher.id midway_bus.live ≡ some publisher
unfolding bus_run Message.subscribe new_message read_header header_bytes topic_key no_topics
    KeySet.insert KeySet.empty type_of type_value store load byteswap network_to_host64
    host_to_network64
publisher_found = refl

pub few_names : length midway_bus.names + 2 < 2 ^ 64
unfolding bus_run Message.subscribe new_message read_header header_bytes topic_key no_topics
    KeySet.insert KeySet.empty type_of type_value store load byteswap network_to_host64
    host_to_network64
few_names = omega arith

abbrev pub subscriber : Client ClientData
subscriber = record {
  id = 2;
  peer = 11;
  client_data = record { subscribed_topics = KeySet.insert KeySet.empty 1 };
}

pub subscriber_found : find_client subscriber.id midway_bus.live ≡ some subscriber
unfolding bus_run Message.subscribe new_message read_header header_bytes topic_key no_topics
    KeySet.insert KeySet.empty type_of type_value store load byteswap network_to_host64
    host_to_network64
subscriber_found = refl

pub subscriber_joined : subscribed midway subscriber.id 1 ≡ true
unfolding subscribed process dispatch Base.process Base.dispatch_all Base.dispatch Base.peer_client
    Base.release_packet Base.create_client Base.destroy_client with_client on_message send_to deref
    Dict.get Dict.put Dict.emplace Dict.erase Dict.empty KeySet.insert KeySet.empty KeySet.contains
    new_server TopicMap.empty Message.subscribe new_message read_header header_bytes
    payload_as_string topic_key no_topics wants type_of type_value store load byteswap origin_of
    origin_value version_of version_value network_to_host64 host_to_network64 bytes_eq
subscriber_joined = refl

abbrev pub session : List Event
session =
    connect 10
    ∷ connect 11
    ∷ receive 10 70 request_packet
    ∷ receive 11 71 subscribe_packet
    ∷ receive 10 72 (1 ∷ 2 ∷ [])
    ∷ receive 10 73 publish_packet
    ∷ disconnect 10
    ∷ []

pub session-AllowsAll : AllowsAll big empty_bus session
unfolding Message.subscribe Message.publish Message.topic_request new_message read_header
    header_bytes topic_key request index_of no_topics KeySet.insert KeySet.empty wants type_of
    type_value store load byteswap network_to_host64 host_to_network64
session-AllowsAll = (
  refl,
  (refl, ((first, refl), ((second, refl), ((first, refl), ((first, refl), ((first, refl), tt)))))),
)
  where
    first : Client ClientData
    first = record { id = 1; peer = 10; client_data = no_topics }

    second : Client ClientData
    second = record { id = 2; peer = 11; client_data = no_topics }

pub free_peer : find_peer 12 midway_bus.live ≡ none
unfolding bus_run Message.subscribe new_message read_header header_bytes topic_key no_topics
    KeySet.insert KeySet.empty type_of type_value store load byteswap network_to_host64
    host_to_network64
free_peer = refl

pub publisher_peer : find_peer publisher.peer midway_bus.live ≡ some publisher
unfolding bus_run Message.subscribe new_message read_header header_bytes topic_key no_topics
    KeySet.insert KeySet.empty type_of type_value store load byteswap network_to_host64
    host_to_network64
publisher_peer = refl

pub few_ids : midway_bus.next_id + 1 < 2 ^ 64
unfolding bus_run Message.subscribe new_message read_header header_bytes topic_key no_topics
    KeySet.insert KeySet.empty type_of type_value store load byteswap network_to_host64
    host_to_network64
few_ids = omega arith
