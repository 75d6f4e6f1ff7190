-- ===== src/Server/Runs.antt =====
-- The event loop of the server against the runs of the bus.
use mathlib.Core.List.{append-nil, append_assoc}
use spraybus.Prelude.{
  ℕ, ◌+◌, ◌%◌, ◌^◌, ◌<◌, ◌≤◌, ◌≡◌, refl, sym, ap, ◌∙◌, List, [], ◌∷◌, ◌++◌, word_key, Option-cases,
  inl, inr, none, some, arith, length, subst,
}
use spraybus.Containers.Dict
use spraybus.Word.{Endian}
use spraybus.Exec.{Result, ok, throw, Outcome}
use spraybus.Protocol.Message.{Message, new_message}
use spraybus.TopicMap.Names
use spraybus.Networking.Server as Base
use spraybus.Networking.Server.{
  Client, Event, connect, disconnect, receive, no_event, Effect, send, packet_destroy,
  peer_client_lem, release_packet, create_client, destroy_client, erase_all,
}
use spraybus.Networking.Server.Table as Table
use spraybus.Networking.Server.Table.{
  find_peer, find_client, remove_client, create_client_lem, connected-Represents, find_connected,
  destroy_client_lem, destroyed-Represents, find_peer-find_client, pointer_of_peer,
}
use spraybus.Server.{
  ClientData, Server, no_topics, on_connect, on_disconnect, server_callbacks, on_process, dispatch,
  process, new_server,
}
use spraybus.Server.Bus.{
  Bus, empty_bus, answer_parsed, bus_step, bus_run, Allows, AllowsAll, finish,
}
use spraybus.Server.Forward.{effects-Represents}
use spraybus.Server.Refinement.{
  Shows, Refines, with_client_lem, ignored-Refines, on_message-Refines,
}

-- ~PacketGuard hands the packet back, after whatever the handler sent.
release-Refines :
    {before : List Effect} {result : Outcome Server Unit} {promised : Bus × List Effect}
    (packet : ℕ)
    → Refines before result promised
    → Refines before (release_packet packet result) (finish packet promised)
unfolding release_packet
release-Refines {before} {promised = promised} packet r = record {
  returned = r.returned;
  shows = record {
    table = effects-Represents _ promised.0.live _ r.shows.table;
    topics = r.shows.topics;
    next = r.shows.next;
  };
  sent = ap (λ fx. fx ++ packet_destroy packet ∷ []) r.sent ∙ append_assoc before promised.1 _;
}

module _ (e : Endian) (o : Server) (b : Bus) (v : Shows o b) where
  connect-Refines :
      (peer : ℕ)
      → find_peer peer b.live ≡ none
      → b.next_id + 1 < 2 ^ 64
      → Refines o.base.effects (dispatch e o (connect peer)) (bus_step e b (connect peer))
  unfolding dispatch Base.dispatch on_connect Base.set_peer_client
  connect-Refines peer free room =
      let id = o.base.next_client_id in
      let c : Client ClientData = record { id = id; peer = peer; client_data = no_topics } in
      let fits : id + 1 < 2 ^ 64 = omega (arith, v.next) in
      let table = connected-Represents no_topics o.base b.live peer v.table free fits in
      let found = find_connected o.base b.live c v.table refl in
      let b' = record b { next_id = id } in
      let o' = record o {
        base = record o.base {
          client_map = Dict.put o.base.client_map id c;
          clients = o.base.clients ++ id ∷ [];
          next_client_id = (id + 1) % 2 ^ 64;
          peer_data = Dict.put o.base.peer_data peer id;
        };
      } in
      rw (create_client_lem no_topics o.base b.live peer v.table, ← v.next)
        (subst (λ r. Refines o.base.effects r (bus_step e b' (connect peer)))
          (sym (with_client_lem o' (b.live ++ c ∷ []) id c (λ _. (o', ok tt)) table found))
          (record {
            returned = refl;
            shows = record { table = table; topics = v.topics; next = omega arith };
            sent = sym (append-nil o.base.effects);
          }))

  receive-Refines :
      (peer packet : ℕ) (bytes : List ℕ) (c : Client ClientData)
      → find_peer peer b.live ≡ some c
      → length b.names + 2 < 2 ^ 64
      → Refines o.base.effects
          (dispatch e o (receive peer packet bytes))
          (bus_step e b (receive peer packet bytes))
  unfolding dispatch Base.dispatch
  receive-Refines peer packet bytes c found room =
      rw (peer_client_lem o peer c.id (pointer_of_peer o.base b.live peer c v.table found), found)
        (release-Refines packet (
          on_message-Refines e o b c bytes v
            (find_peer-find_client peer b.live c v.table.distinct found) room))

  disconnect-Refines :
      (peer : ℕ) (c : Client ClientData)
      → find_peer peer b.live ≡ some c
      → Refines o.base.effects (dispatch e o (disconnect peer)) (bus_step e b (disconnect peer))
  unfolding dispatch Base.dispatch on_disconnect
  disconnect-Refines peer c found =
      let known = find_peer-find_client peer b.live c v.table.distinct found in
      rw
        (
          peer_client_lem o peer c.id (pointer_of_peer o.base b.live peer c v.table found),
          with_client_lem o b.live c.id c _ v.table known,
          destroy_client_lem o.base b.live c.id c v.table known,
          found,
        )
        (record {
          returned = refl;
          shows = record {
            table = destroyed-Represents o.base b.live c.id v.table;
            topics = v.topics;
            next = v.next;
          };
          sent = sym (append-nil o.base.effects);
        })

  -- One round of the event loop, for every event that ENet may deliver: the handler returns, no
  -- pointer dangles, and state and packets are those of the bus.
  pub dispatch-Refines :
      (event : Event)
      → Allows b event
      → b.next_id + 1 < 2 ^ 64
      → length b.names + 2 < 2 ^ 64
      → Refines o.base.effects (dispatch e o event) (bus_step e b event)
  dispatch-Refines (connect peer) free ids names = connect-Refines peer free ids
  dispatch-Refines (receive peer packet bytes) (c, found) ids names =
      receive-Refines peer packet bytes c found names
  dispatch-Refines (disconnect peer) (c, found) ids names = disconnect-Refines peer c found
  dispatch-Refines no_event h ids names = unfold dispatch Base.dispatch in ignored-Refines o b v

-- Each event adds at most one name and one id.
answer_names :
    (e : Endian) (b : Bus) (c : Client ClientData) (m : Result Message)
    → (length (answer_parsed e b c m).0.names ≤ length b.names + 1)
      × ((answer_parsed e b c m).0.next_id ≡ b.next_id)
answer_names e b c (throw error) = omega arith
answer_names e b c (ok m) = ground (arith, Names.length-request b.names m.payload)

pub bus_step_grows :
    (e : Endian) (b : Bus) (event : Event)
    → (length (bus_step e b event).0.names ≤ length b.names + 1)
      × ((bus_step e b event).0.next_id ≤ b.next_id + 1)
bus_step_grows e b (connect peer) = omega arith
bus_step_grows e b (receive peer packet bytes) = elim (Option-cases (find_peer peer b.live)) [
  | inl gone ↦ rw gone (omega arith)
  | inr (c, found) ↦
      rw found (let h = answer_names e b c (new_message e bytes) in (h.0, omega (arith, h.1)))
]
bus_step_grows e b (disconnect peer) = ground arith
bus_step_grows e b no_event = omega arith

module _ (e : Endian) where
  abbrev loop : Server → List Event → Outcome Server Unit
  loop o events = Base.dispatch_all no_topics (server_callbacks e) o events

  loop-Refines :
      (o : Server) (b : Bus) (events : List Event)
      → Shows o b
      → AllowsAll e b events
      → b.next_id + length events < 2 ^ 64
      → length b.names + length events + 1 < 2 ^ 64
      → Refines o.base.effects (loop o events) (bus_run e b events)
  unfolding bus_run
  loop-Refines o b [] v allowed ids names = unfold Base.dispatch_all in ignored-Refines o b v
  loop-Refines o b (event ∷ events) v allowed ids names =
      let grows = bus_step_grows e b event in
      let first = dispatch-Refines e o b v event allowed.0 (omega arith) (omega arith) in
      let rest =
        loop-Refines (dispatch e o event).0 (bus_step e b event).0 events first.shows allowed.1
          (omega arith) (omega arith) in
      let round : loop o (event ∷ events) ≡ loop (dispatch e o event).0 events =
        unfold dispatch in
        Base.dispatch_all_round no_topics (server_callbacks e) o event events
          (unfold dispatch in first.returned) in
      subst (λ r. Refines o.base.effects r (bus_run e b (event ∷ events))) (sym round)
        (record {
          returned = rest.returned;
          shows = rest.shows;
          sent =
              rest.sent
              ∙ ap (λ fx. fx ++ (bus_run e (bus_step e b event).0 events).1) first.sent
              ∙ append_assoc o.base.effects _ _;
        })

-- From a server that shows a bus, the event loop over any events that ENet may deliver, fewer than
-- the ids and keys that are left: it returns, it goes through no dangling pointer, it ends in the
-- state of the bus after these events, and what it handed to ENet is what the bus sends, in order.
pub process-Refines :
    (e : Endian) (o : Server) (b : Bus) (events : List Event)
    → Shows o b
    → AllowsAll e b events
    → b.next_id + length events < 2 ^ 64
    → length b.names + length events + 1 < 2 ^ 64
    → Refines o.base.effects (process e o events) (bus_run e b events)
unfolding process Base.process on_process
process-Refines e o b events v allowed ids names = loop-Refines e o b events v allowed ids names

-- A server that has just started is in the state of the empty bus.
pub new_server-Shows : Shows new_server empty_bus
unfolding new_server
new_server-Shows = record {
  table = Table.empty-Represents;
  topics = Names.empty-Represents;
  next = refl;
}
