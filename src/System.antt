-- ===== src/System.antt =====
-- A client and a server together: the client's temporary connection of get_topic_key
-- (src/spraybus/client/client.cpp) to the server's event loop (src/spraybus/server/server.cpp), and
-- a published payload on its way to a subscriber. ENet between them delivers in order and changes
-- no byte.
pub mod Resolve
pub mod EndToEnd
pub mod World
mod Tests
use spraybus.Prelude.{ℕ, true, List, [], ◌∷◌, ◌==◌, if◌then◌else◌, some, none}
use spraybus.Word.{Endian}
use spraybus.Networking.Server as Base
use spraybus.Networking.Server.{
  connect, receive, Effect, send, broadcast, packet_destroy, host_destroy,
}
use spraybus.Networking.Client as Net
use spraybus.Networking.Client.{Service}
use spraybus.Server.{Server, process}
use spraybus.Client.{Network}

-- The first packet that was sent to a peer.
pub first_sent : ℕ → List Effect → Service
first_sent peer [] = none
first_sent peer (send q bytes ∷ rest) =
    if q == peer
    then some (Net.received (record { address = 0; bytes = bytes }))
    else first_sent peer rest
first_sent peer (broadcast bytes ∷ rest) =
    some (Net.received (record { address = 0; bytes = bytes }))
first_sent peer (packet_destroy packet ∷ rest) = first_sent peer rest
first_sent peer (host_destroy ∷ rest) = first_sent peer rest

-- The server as it waits, with nothing in flight.
abbrev pub idle : Server → Server
idle o = record o { base = record o.base { effects = [] } }

-- The events of a temporary connection that has sent one packet.
abbrev pub exchange : ℕ → List ℕ → List Base.Event
exchange peer msg = connect peer ∷ receive peer 0 msg ∷ []

-- What a temporary connection finds when the other end is this server.
abbrev pub server_network : Endian → Server → ℕ → Network
server_network e o peer = record {
  resolve = λ host. some 0;
  host_created = true;
  peer_found = true;
  handshake = some Net.connected;
  reply = λ msg. first_sent peer (process e (idle o) (exchange peer msg)).0.base.effects;
  closing = [];
}
