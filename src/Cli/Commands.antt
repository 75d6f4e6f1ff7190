-- ===== src/Cli/Commands.antt =====
-- What the commands `pub` and `sub` do once the client is connected.
use spraybus.Prelude.{ℕ, true, ◌≡◌, List, some}
use spraybus.Protocol.Message
use spraybus.Protocol.Message.{
  Constructor, Message, new_constructor, payload_as_string, set_topic, new_message,
}
use spraybus.Networking.Client.{connected}
use spraybus.Client as Bus
use spraybus.Client.{Client, Network}
use spraybus.Cli.Run.{World}

-- The world lets the client connect to this host.
pub record Connects (w : World) (host : List ℕ) : Type 0 where
  pub enet : w.enet_ready ≡ true
  pub created : w.host_created ≡ true
  pub peer : w.peer_found ≡ true
  pub shake : w.handshake ≡ some connected
  pub address : ℕ
  pub known : w.resolve host ≡ some address
