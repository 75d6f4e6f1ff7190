-- ===== src/Server/Tests.antt =====
-- A short session on a server of either byte order: two clients, a topic, a subscription, a
-- publish and a disconnect; and the theorems about the server at this session.
use spraybus.Prelude.{inl, ◌≡◌, refl, [], ◌∷◌, arith, bytes_eq}
use spraybus.Containers.Dict
use spraybus.Containers.KeySet
use spraybus.Word.{little, big, store, load, network_to_host64, host_to_network64, byteswap}
use spraybus.Text.{text}
use spraybus.Protocol.Enum.{
  Origin, origin_value, origin_of, version_value, version_of, type_value, type_of,
}
use spraybus.Protocol.Header.{header_bytes, read_header, topic_key}
use spraybus.Protocol.Message
use spraybus.Protocol.Message.{new_constructor, new_message, payload_as_string}
use spraybus.TopicMap
use spraybus.Networking.Server as Base
use spraybus.Networking.Server.{
  deref, send_to, Client, Event, connect, disconnect, receive, Effect, send, packet_destroy,
}
use spraybus.Server.{new_server, no_topics, process, dispatch, with_client, on_message, wants}
use spraybus.Server.Bus.{empty_bus, bus_run}
use spraybus.Server.Refinement.{Shows, Refines}
use spraybus.Server.Runs.{process-Refines, new_server-Shows}
use spraybus.Server.Delivery.{subscriptions, publish_fans_out}
use spraybus.Server.Ignored.{ignored_packets}
use spraybus.Server.Connections.{connect_keeps, disconnect_clears}
use spraybus.Networking.Server.{connect, disconnect}
use spraybus.Server.Session.{
  few_ids, free_peer, publisher_peer, session, session-AllowsAll, midway, midway_bus, midway-Shows,
  publisher, publisher_found, few_names,
}

process-Refines_example :
    Refines [] (process big new_server session) (bus_run big empty_bus session)
unfolding new_server
process-Refines_example =
    process-Refines big new_server empty_bus session new_server-Shows session-AllowsAll
      (omega arith) (omega arith)

-- The server answers the request, and forwards the published bytes to the subscriber alone.
session_output :
    (process big new_server session).0.base.effects
    ≡ send 10 (Message.topic_response big new_constructor 1 (text "alerts") Origin.server).1
      ∷ packet_destroy 70
      ∷ packet_destroy 71
      ∷ packet_destroy 72
      ∷ send 11 (Message.fanout big new_constructor 1 (text "disk low") Origin.server).1
      ∷ packet_destroy 73
      ∷ []
unfolding process dispatch Base.process Base.dispatch_all Base.dispatch Base.peer_client
    Base.release_packet Base.create_client Base.destroy_client with_client on_message send_to deref
    Dict.get Dict.put Dict.emplace Dict.erase Dict.empty KeySet.insert KeySet.empty KeySet.contains
    new_server TopicMap.empty TopicMap.get_or_create Message.subscribe Message.publish
    Message.topic_request Message.topic_response Message.fanout new_message read_header header_bytes
    payload_as_string topic_key no_topics wants type_of type_value store load byteswap origin_of
    origin_value version_of version_value network_to_host64 host_to_network64 bytes_eq
session_output = refl

subscriptions_example :
    let joined =
      on_message big midway publisher.id
        (Message.subscribe little new_constructor 7 Origin.client).1 in
    joined.0.base.effects ≡ midway.base.effects
subscriptions_example =
    (subscriptions big little midway midway_bus publisher midway-Shows publisher_found few_names
      new_constructor 7 (omega arith)).1

publish_fans_out_example :
    Shows
      (on_message big midway publisher.id
        (Message.publish little new_constructor 1 (text "disk low") Origin.client).1).0
      midway_bus
publish_fans_out_example =
    (publish_fans_out big little midway midway_bus publisher midway-Shows publisher_found few_names
      new_constructor 1 (omega arith) (text "disk low")).3

ignored_packets_example :
    (on_message big midway publisher.id (1 ∷ 2 ∷ [])).0.base.effects ≡ midway.base.effects
ignored_packets_example =
    (ignored_packets big midway midway_bus publisher (1 ∷ 2 ∷ []) midway-Shows publisher_found
      few_names (inl (omega arith))).1

connect_keeps_example : (dispatch big midway (connect 12)).0.base.effects ≡ midway.base.effects
connect_keeps_example =
    (connect_keeps big midway midway_bus midway-Shows 12 few_ids few_names free_peer).1

disconnect_clears_example :
    (dispatch big midway (disconnect publisher.peer)).0.base.effects ≡ midway.base.effects
disconnect_clears_example =
    (disconnect_clears big midway midway_bus midway-Shows publisher.peer few_ids few_names publisher
      publisher_peer).1
