-- ===== src/Networking/Client.antt =====
-- include/spraybus/networking/client/client.hpp: the owner of a received packet, and the connection
-- of a client. ENet is outside the sources: what enet_host_create, enet_host_connect and
-- enet_host_service return is given as arguments, and the calls that make or release something are
-- a list of effects, oldest first.
pub mod Ownership
pub mod Connection
mod Tests
use spraybus.Prelude.{ℕ, Bool, true, false, List, [], ◌∷◌, ◌++◌, Option, none, some}
use spraybus.Exec.{Result, ok, throw, runtime_error, undefined_behaviour, Outcome}
use spraybus.Text.{text}

-- An ENetPacket: its address, and the bytes that it holds.
pub record Received : Type 0 where
  pub address : ℕ
  pub bytes : List ℕ

-- What the wrappers ask of ENet.
pub data Effect : Type 0 where
  packet_destroy : ℕ → Effect
  host_connect : ℕ → ℕ → Effect
  host_create peer_reset peer_disconnect host_destroy : Effect

-- class Packet: m_packet, none for a null pointer.
pub record Packet : Type 0 where
  pub packet : Option Received

-- Packet(packet), Packet()
abbrev pub own : Received → Packet
own p = record { packet = some p }

abbrev pub no_packet : Packet
no_packet = record { packet = none }

-- if (m_packet) enet_packet_destroy(m_packet);
abbrev pub drop_packet : Packet → List Effect
drop_packet p = elim p.packet [ some r ↦ packet_destroy r.address ∷ [] | none ↦ [] ]

-- Packet(Packet&& other): the new wrapper, and what is left of the other.
unfoldable pub move_construct : Packet → Packet × Packet
move_construct other = (other, no_packet)

-- operator=(Packet&& other) on two different wrappers: this, other, and the calls made.
unfoldable pub move_assign : Packet → Packet → Packet × Packet × List Effect
move_assign this other = (other, no_packet, drop_packet this)

-- operator=(Packet&& other) with other the same wrapper.
unfoldable pub self_assign : Packet → Packet × List Effect
self_assign this = (this, [])

-- ~Packet()
unfoldable pub destroy_packet : Packet → List Effect
destroy_packet p = drop_packet p

-- data()
abbrev pub packet_data : Packet → Option (List ℕ)
packet_data p = elim p.packet [ some r ↦ some r.bytes | none ↦ none ]

-- The ENetEvent of a service call that returned more than 0.
pub data Event : Type 0 where
  connected disconnected no_event : Event
  received : Received → Event

-- What a service call gives: none for a return value of 0 or less.
abbrev pub Service : Type 0
Service = Option Event

-- From enet_address_set_host on. If the name does not resolve, its result is not looked at and
-- m_address.host, which is read next, has no value. A throw in the constructor runs no destructor.
unfoldable pub connect_peer : Option ℕ → ℕ → Bool → Service → Outcome (List Effect) Unit
connect_peer none port found first = (host_create ∷ [], throw undefined_behaviour)
connect_peer (some address) port false first = (
  host_create ∷ host_connect address port ∷ [],
  throw (runtime_error (text "No available peers for initiating an ENet connection.")),
)
connect_peer (some address) port true (some connected) =
    (host_create ∷ host_connect address port ∷ [], ok tt)
connect_peer (some address) port true _ = (
  host_create ∷ host_connect address port ∷ peer_reset ∷ [],
  throw (runtime_error (text "Connection to localhost:6767 failed.")),
)

-- Client(host, port). ENet gives: the addresses of host names, whether a host was created and a peer
-- was found, and what the service call finds within five seconds.
unfoldable pub new_client :
    (List ℕ → Option ℕ) → Bool → Bool → Service → List ℕ → ℕ → Outcome (List Effect) Unit
unfolding connect_peer
new_client resolve false found first host port = (
  host_create ∷ [],
  throw (runtime_error (text "An error occurred while trying to create an ENet client host.")),
)
new_client resolve true found first host port = connect_peer (resolve host) port found first

-- The loop of ~Client() over what the service calls give; the calls end with the list.
unfoldable pub drain : List Event → List Effect
drain [] = []
drain (disconnected ∷ events) = []
drain (received p ∷ events) = packet_destroy p.address ∷ drain events
drain (connected ∷ events) = drain events
drain (no_event ∷ events) = drain events

-- ~Client()
unfoldable pub close : List Event → List Effect
unfolding drain
close events = peer_disconnect ∷ (drain events ++ host_destroy ∷ [])

-- process(packet): the output wrapper, the calls made, and the result. `packet = Packet(p)` moves a
-- temporary into the wrapper and destroys the temporary, which is then empty.
unfoldable pub process : Packet → Service → Packet × List Effect × Result Bool
unfolding move_assign destroy_packet
process packet (some (received p)) =
    let (packet', temporary, calls) = move_assign packet (own p) in
    (packet', calls ++ destroy_packet temporary, ok true)
process packet (some disconnected) =
    (packet, [], throw (runtime_error (text "Disconnected from server.")))
process packet (some connected) = (packet, [], ok false)
process packet (some no_event) = (packet, [], ok false)
process packet none = (packet, [], ok false)

-- recv(timeout_ms)
unfoldable pub recv : Service → Result Packet
recv (some (received p)) = ok (own p)
recv (some disconnected) = throw (runtime_error (text "Disconnected from server."))
recv (some connected) = throw (runtime_error (text "Timeout while waiting for packet."))
recv (some no_event) = throw (runtime_error (text "Timeout while waiting for packet."))
recv none = throw (runtime_error (text "Timeout while waiting for packet."))

-- send(data): enet_packet_create, enet_peer_send and enet_host_flush hand ENet one packet.
abbrev pub send_data : List ℕ → List (List ℕ)
send_data data_bytes = data_bytes ∷ []
