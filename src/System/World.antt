-- ===== src/System/World.antt =====
-- One server and any number of clients: what the clients of src/spraybus/client/client.cpp put on
-- their connections, the rounds of the loop of Server::process, and the packets on their way in
-- between. A client is named by the peer that it has at the server. ENet keeps the order of each
-- connection, loses nothing while it is open, and may delay anything; when a client closes its
-- connection, the packets at the end of its queue may be lost. A schedule says what happens next. The temporary connection of a topic request is served in one go, while its client waits.
pub mod Events
pub mod Packets
pub mod Invariant
pub mod Serving
pub mod Resolving
pub mod Runs
pub mod Safety
pub mod Draining
pub mod LastItem
pub mod Arrival
pub mod Histories
pub mod Interests
pub mod Copies
pub mod Departures
pub mod Queues
pub mod Addressed
pub mod Ordering
pub mod Exact
mod Tests
use spraybus.Prelude.{
  zero, suc, ℕ, ◌^◌, Bool, true, false, not, ◌&&◌, List, [], ◌∷◌, ◌++◌, map, ◌==◌, if◌then◌else◌,
  ltb, none, some, Option, text_key,
}
use spraybus.Containers.Dict
use spraybus.Word.{Endian}
use spraybus.Exec.{Result, ok}
use spraybus.Text.{text}
use spraybus.Networking.Server as Base
use spraybus.Networking.Server.{
  Event, connect, disconnect, receive, Effect, send, broadcast, packet_destroy, host_destroy,
}
use spraybus.Networking.Client as Net
use spraybus.Networking.Client.{Service}
use spraybus.Server.{Server, new_server, dispatch, process}
use spraybus.TopicMap.{Topic}
use spraybus.Client.{
  Client, FanoutMessage, new_client, publish_key, subscribe_key, get_topic_key, poll,
}
use spraybus.Client.Cache.{request_of}
use spraybus.System.{idle, exchange, server_network}

-- What a connection brings to the server.
pub data Item : Type 0 where
  joins leaves : Item
  packet : List ℕ → Item

-- The connection of a client: what the server has not looked at yet, and what poll() has not.
pub record Link : Type 0 where
  pub client : Client
  pub is_open : Bool
  pub up : List Item
  pub down : List (List ℕ)

pub record Publication : Type 0 where
  pub peer : ℕ
  pub key : ℕ
  pub payload : List ℕ

-- `published` lists the calls of publish so far.
pub record World : Type 0 where
  pub server : Server
  pub links : ℕ → Link
  pub published : List Publication

abbrev pub unused : Link
unused = record { client = new_client (text "localhost") 6767; is_open = false; up = []; down = [] }

unfoldable pub new_world : World
new_world = record { server = new_server; links = λ i. unused; published = [] }

-- What a client or the server does next.
pub data Action : Type 0 where
  open_client poll_client serve : ℕ → Action
  close_client : ℕ → ℕ → Action
  publish : ℕ → ℕ → List ℕ → Action
  subscribe : ℕ → ℕ → Action
  resolve : ℕ → ℕ → Topic → Action

abbrev pub update : (ℕ → Link) → ℕ → Link → ℕ → Link
update links i link j = if i == j then link else links j

-- A call of a client, with the packets that it sends.
abbrev pub call : Link → (Client → Client) → Link
call l f =
    let client' = f (record l.client { sent = [] }) in
    record l { client = client'; up = l.up ++ map packet client'.sent }

abbrev pub event_of : ℕ → Item → Event
event_of i joins = connect i
event_of i leaves = disconnect i
event_of i (packet bytes) = receive i 0 bytes

-- The packets for one peer.
unfoldable pub sent_to : ℕ → List Effect → List (List ℕ)
sent_to i [] = []
sent_to i (send peer bytes ∷ effects) =
    let rest = sent_to i effects in if peer == i then bytes ∷ rest else rest
sent_to i (broadcast bytes ∷ effects) = bytes ∷ sent_to i effects
sent_to i (packet_destroy p ∷ effects) = sent_to i effects
sent_to i (host_destroy ∷ effects) = sent_to i effects

-- The connections after the server has sent something.
abbrev pub delivered : (ℕ → Link) → List Effect → ℕ → Link
delivered links effects i = let l = links i in record l { down = l.down ++ sent_to i effects }

abbrev pub is_unused : Link → Bool
is_unused l = elim l.up [ [] ↦ not l.is_open | item ∷ items ↦ false ]

-- What still comes of a queue when its client closes the connection. enet_peer_disconnect does not
-- wait for the packets: only the first `kept` items are sure to come, and no packet after them.
abbrev pub survives : ℕ → List Item → List Item
survives kept [] = []
survives zero (packet bytes ∷ items) = survives zero items
survives zero (item ∷ items) = item ∷ survives zero items
survives (suc kept) (item ∷ items) = item ∷ survives kept items

-- What the service call of poll() finds.
abbrev pub ready : List (List ℕ) → Service
ready [] = none
ready (bytes ∷ rest) = some (Net.received (record { address = 0; bytes = bytes }))

abbrev pub tail : List (List ℕ) → List (List ℕ)
tail [] = []
tail (bytes ∷ rest) = rest

-- `e` is the server's byte order, and `order` are those of the clients.
module _ (e : Endian) where
  -- The server takes the next item of a connection.
  pub take_item : World → ℕ → List Item → World
  take_item w i [] = w
  take_item w i (item ∷ items) =
      let server' = (dispatch e (idle w.server) (event_of i item)).0 in
      record w {
        server = server';
        links =
            delivered (update w.links i (record (w.links i) { up = items })) server'.base.effects;
      }

  -- What the round of the loop gives that takes the next item.
  unfoldable pub serve_result : World → ℕ → List Item → Result {0} Unit
  serve_result w i [] = ok tt
  serve_result w i (item ∷ items) = (dispatch e (idle w.server) (event_of i item)).1

module _ (e : Endian) (order : ℕ → Endian) where
  -- get_topic_key of a name that is not cached, over a temporary connection at an unused peer.
  pub look_up : World → ℕ → ℕ → Topic → World
  look_up w i visitor topic =
      let client = (w.links i).client in
      let (client', _) = get_topic_key (order i) client (server_network e w.server visitor) topic in
      let asked =
        (process e (idle w.server) (exchange visitor (request_of (order i) client topic))).0 in
      let server' = (dispatch e (idle asked) (disconnect visitor)).0 in
      record w {
        server = server';
        links =
            delivered (update w.links i (record (w.links i) { client = client' }))
              asked.base.effects;
      }

  -- One action; one that cannot happen changes nothing.
  unfoldable pub act : World → Action → World
  unfolding take_item look_up
  act w (open_client i) =
      if is_unused (w.links i)
      then record w { links = update w.links i (record unused { is_open = true; up = joins ∷ [] }) }
      else w
  act w (close_client i kept) =
      let l = w.links i in
      if l.is_open
      then record w {
        links =
            update w.links i (record l { is_open = false; up = survives kept l.up ++ leaves ∷ [] });
      }
      else w
  act w (poll_client i) =
      let l = w.links i in record w { links = update w.links i (record l { down = tail l.down }) }
  act w (serve i) = take_item e w i (w.links i).up
  act w (publish i key payload) =
      if (w.links i).is_open && ltb key (2 ^ 64)
      then record w {
        links = update w.links i (call (w.links i) (λ c. publish_key (order i) c key payload));
        published = w.published ++ record { peer = i; key = key; payload = payload } ∷ [];
      }
      else w
  act w (subscribe i key) =
      if (w.links i).is_open && ltb key (2 ^ 64)
      then record w {
        links = update w.links i (call (w.links i) (λ c. subscribe_key (order i) c key));
      }
      else w
  act w (resolve i visitor topic) = elim (Dict.get (w.links i).client.topic_map topic) [
    | some key ↦ w
    | none ↦
        if (w.links i).is_open && is_unused (w.links visitor) then look_up w i visitor topic else w
  ]

  unfoldable pub run : World → List Action → World
  unfolding act
  run w [] = w
  run w (action ∷ actions) = run (act w action) actions

  -- What poll() of a client returns.
  unfoldable pub polled : World → ℕ → Result (Option FanoutMessage)
  polled w i = poll (order i) (w.links i).client (ready (w.links i).down)
