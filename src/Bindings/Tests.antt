-- ===== src/Bindings/Tests.antt =====
-- A program that makes three clients, and resolves, publishes and polls with one.
use spraybus.Prelude.{◌≡◌, true, false, List, [], ◌∷◌, some, none}
use spraybus.Word.{little}
use spraybus.Text.{text}
use spraybus.Networking.Client as Net
use spraybus.Client.{Client, Network, new_client}
use spraybus.Bindings.{
  Arrival, loaded, Call, call_get_topic_key, call_publish, call_subscribe, call_poll,
}
use spraybus.Bindings.Lock.{lock, inits}
use spraybus.Bindings.Program.{construct_all, script, native_script, lock_kept}

abbrev fresh_client : Client
fresh_client = new_client (text "localhost") 6767

abbrev arrival : Arrival
arrival = record {
  enet_ready = true;
  resolve = λ host. some 1;
  host_created = true;
  peer_found = true;
  handshake = some Net.connected;
  host = text "localhost";
  port = 6767;
}

-- ENet fails to start at first, and later a server does not answer.
abbrev attempts : List Arrival
attempts =
    record arrival { enet_ready = false } ∷ record arrival { handshake = none } ∷ arrival ∷ []

abbrev silent : Network
silent = record {
  resolve = λ host. some 1;
  host_created = true;
  peer_found = true;
  handshake = some Net.connected;
  reply = λ msg. none;
  closing = [];
}

abbrev calls : List Call
calls =
    call_get_topic_key silent (text "alerts")
    ∷ call_publish silent (text "alerts") (text "disk low")
    ∷ call_subscribe silent (text "alerts")
    ∷ call_poll none
    ∷ call_poll (some Net.disconnected)
    ∷ []

lock_kept_example :
    let (m, c', results) = script little (construct_all loaded attempts) fresh_client calls in
    (lock (some true) m.steps ≡ some true)
    × (inits m.steps ≡ 2)
    × ((c', results) ≡ native_script little fresh_client calls)
lock_kept_example = lock_kept little attempts fresh_client calls
