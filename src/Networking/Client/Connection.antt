-- ===== src/Networking/Client/Connection.antt =====
-- The life of a client's connection: its constructor and its destructor.
use spraybus.Prelude.{
  Option, ℕ, ◌+◌, ◌≡◌, refl, Bool, true, false, List, [], ◌∷◌, ◌++◌, none, some, arith,
}
use spraybus.Exec.{Error, throw}
use spraybus.Networking.Client.{
  Effect, host_create, host_destroy, Event, received, connected, disconnected, no_event, Service,
  new_client, connect_peer, close, drain,
}
use spraybus.Networking.Client.Ownership.{arrives, released}

-- The hosts that were created and not destroyed.
abbrev pub hosts_created : List Effect → ℕ
hosts_created [] = 0
hosts_created (host_create ∷ rest) = 1 + hosts_created rest
hosts_created (_ ∷ rest) = hosts_created rest

abbrev pub hosts_destroyed : List Effect → ℕ
hosts_destroyed [] = 0
hosts_destroyed (host_destroy ∷ rest) = 1 + hosts_destroyed rest
hosts_destroyed (_ ∷ rest) = hosts_destroyed rest

connect_peer_keeps :
    (address : Option ℕ) (port : ℕ) (found : Bool) (first : Service) (error : Error)
    → (connect_peer address port found first).1 ≡ throw error
    → let calls = (connect_peer address port found first).0 in
      (hosts_created calls ≡ 1) × (hosts_destroyed calls ≡ 0)
unfolding connect_peer
connect_peer_keeps none port found first error h = (refl, refl)
connect_peer_keeps (some a) port false first error h = (refl, refl)
connect_peer_keeps (some a) port true (some connected) error h = cc
connect_peer_keeps (some a) port true (some disconnected) error h = (refl, refl)
connect_peer_keeps (some a) port true (some no_event) error h = (refl, refl)
connect_peer_keeps (some a) port true (some (received r)) error h = (refl, refl)
connect_peer_keeps (some a) port true none error h = (refl, refl)

-- A constructor that does not return after the host was created has not destroyed it, and no
-- destructor runs.
pub failed_connection_keeps_host :
    (resolve : List ℕ → Option ℕ) (found : Bool) (first : Service) (host : List ℕ) (port : ℕ)
    (error : Error)
    → (new_client resolve true found first host port).1 ≡ throw error
    → let calls = (new_client resolve true found first host port).0 in
      (hosts_created calls ≡ 1) × (hosts_destroyed calls ≡ 0)
unfolding new_client
failed_connection_keeps_host resolve found first host port error h =
    connect_peer_keeps (resolve host) port found first error h

-- How often a packet arrives before the first disconnect.
abbrev pub arrives_before_disconnect : ℕ → List Event → ℕ
arrives_before_disconnect a [] = 0
arrives_before_disconnect a (disconnected ∷ events) = 0
arrives_before_disconnect a (event ∷ events) =
    arrives a (some event) + arrives_before_disconnect a events

pub drain_releases :
    (a : ℕ) (events : List Event)
    → (released a (drain events ++ host_destroy ∷ []) ≡ arrives_before_disconnect a events)
      × (hosts_destroyed (drain events ++ host_destroy ∷ []) ≡ 1)
      × (hosts_created (drain events ++ host_destroy ∷ []) ≡ 0)
unfolding drain
drain_releases a [] = (refl, refl, refl)
drain_releases a (disconnected ∷ events) = (refl, refl, refl)
drain_releases a (received r ∷ events) = ground (arith, drain_releases a events)
drain_releases a (connected ∷ events) = ground (arith, drain_releases a events)
drain_releases a (no_event ∷ events) = ground (arith, drain_releases a events)

-- The whole life of a connection that was made, to a host whose name resolves: the one host is
-- destroyed once, and each packet that arrives while the destructor waits for the disconnect is
-- released once per arrival.
pub connection_released :
    (resolve : List ℕ → Option ℕ) (host : List ℕ) (port address a : ℕ) (events : List Event)
    → resolve host ≡ some address
    → let calls = (new_client resolve true true (some connected) host port).0 ++ close events in
      (hosts_created calls ≡ hosts_destroyed calls)
      × (hosts_destroyed calls ≡ 1)
      × (released a calls ≡ arrives_before_disconnect a events)
unfolding new_client connect_peer close
connection_released resolve host port address a events resolves =
    rw resolves (ground (arith, drain_releases a events))
