-- ===== src/Networking/Client/Tests.antt =====
-- The theorems about packets and connections at concrete programs.
use spraybus.Prelude.{ℕ, ◌+◌, ◌≡◌, refl, true, List, [], ◌∷◌, ◌++◌, Option, none, some}
use spraybus.Exec.{throw, runtime_error}
use spraybus.Text.{text}
use spraybus.Networking.Client.{
  Received, received, connected, disconnected, no_event, Event, new_client, close, packet_destroy,
  move_construct, move_assign, self_assign, destroy_packet, process, recv,
}
use spraybus.Networking.Client.Ownership.{
  Use, declare, process_into, receive, assign, move_out, destroy, nothing, run, held, released,
  handed_all,
}
use spraybus.Networking.Client.Ownership.Account.{packets_owned_once}
use spraybus.Networking.Client.Connection.{
  hosts_created, hosts_destroyed, failed_connection_keeps_host, connection_released,
}

abbrev packet : ℕ → Received
packet a = record { address = a; bytes = [] }

-- Two packets through one wrapper, moved and assigned, and all wrappers destroyed but one.
abbrev program : List Use
program =
    declare
    ∷ process_into 0 (some (received (packet 5)))
    ∷ process_into 0 none
    ∷ process_into 0 (some (received (packet 6)))
    ∷ receive (some (received (packet 7)))
    ∷ assign 1 0
    ∷ assign 1 1
    ∷ move_out 1
    ∷ destroy 2
    ∷ destroy 1
    ∷ []

packets_owned_once_example :
    held 6 (run nothing program).wrappers + released 6 (run nothing program).calls
    ≡ handed_all 6 nothing program
packets_owned_once_example = packets_owned_once 6 program

program_releases : (run nothing program).calls ≡ packet_destroy 5 ∷ packet_destroy 6 ∷ []
unfolding move_construct move_assign self_assign destroy_packet process recv
program_releases = refl

abbrev somewhere : List ℕ → Option ℕ
somewhere host = some 1

abbrev last_events : List Event
last_events = received (packet 8) ∷ no_event ∷ received (packet 9) ∷ disconnected ∷ []

connection_released_example :
    let calls =
      (new_client somewhere true true (some connected) (text "localhost") 6767).0
      ++ close last_events in
    hosts_destroyed calls ≡ 1
connection_released_example =
    (connection_released somewhere (text "localhost") 6767 1 9 last_events refl).1

timed_out :
    (new_client somewhere true true none (text "localhost") 6767).1
    ≡ throw (runtime_error (text "Connection to localhost:6767 failed."))
unfolding new_client
timed_out = refl

failed_connection_keeps_host_example :
    (hosts_created (new_client somewhere true true none (text "localhost") 6767).0 ≡ 1)
    × (hosts_destroyed (new_client somewhere true true none (text "localhost") 6767).0 ≡ 0)
failed_connection_keeps_host_example =
    failed_connection_keeps_host somewhere true none (text "localhost") 6767 _ timed_out
