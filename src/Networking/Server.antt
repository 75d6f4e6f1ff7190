-- ===== src/Networking/Server.antt =====
-- include/spraybus/networking/server/server.hpp: the table of connected clients and the event loop.
-- A Client* is the id of the record that it points to: the records are nodes of m_client_map, which
-- do not move, and an id never changes. ENet is outside the sources: a peer is a number, the events
-- that enet_host_service returns are a list, and the calls that hand something to ENet are a list
-- of effects, oldest first.
pub mod Table
pub mod Start
mod Tests
use spraybus.Prelude.{
  ◌≡◌, arith, ℕ, ◌+◌, ◌%◌, ◌^◌, Bool, true, false, List, [], ◌∷◌, ◌++◌, map, Option, none, some,
  ◌==◌, if◌then◌else◌, word_key, ltb,
}
use spraybus.Prelude.Int.{ℤ, pos, negsuc}
use spraybus.Containers.Dict
use spraybus.Containers.Dict.{Dict}
use spraybus.Exec.{
  Error, Result, ok, throw, runtime_error, out_of_range, undefined_behaviour, Outcome,
}
use spraybus.Text.{text, to_string}

pub record Client (ClientData : Type 0) : Type 0 where
  pub id : ℕ
  pub peer : ℕ
  pub client_data : ClientData

-- What the wrappers ask of ENet. `send` is enet_packet_create, enet_peer_send and enet_host_flush.
pub data Effect : Type 0 where
  send : ℕ → List ℕ → Effect
  broadcast : List ℕ → Effect
  packet_destroy : ℕ → Effect
  host_destroy : Effect

-- An ENetEvent: its type, its peer, and for a received packet the packet and its bytes.
pub data Event : Type 0 where
  connect disconnect : ℕ → Event
  receive : ℕ → ℕ → List ℕ → Event
  no_event : Event

-- The fields of Server, `peer_data` for the `data` pointers of ENet's peers, and what was asked of
-- ENet so far.
pub record Server (ClientData : Type 0) : Type 0 where
  pub client_map : Dict ℕ (Client ClientData)
  pub clients : List ℕ
  pub next_client_id : ℕ
  pub peer_data : Dict ℕ ℕ
  pub effects : List Effect

-- std::erase(vector, value)
unfoldable pub erase_all : ℕ → List ℕ → List ℕ
erase_all x [] = []
erase_all x (y ∷ ys) = let rest = erase_all x ys in if y == x then rest else y ∷ rest

-- port < 0 || port > std::numeric_limits<uint16_t>::max()
unfoldable pub is_outside : ℤ → Bool
is_outside (pos n) = ltb 65535 n
is_outside (negsuc n) = true

-- std::to_string(int)
unfoldable pub int_to_string : ℤ → List ℕ
int_to_string (pos n) = to_string n
int_to_string (negsuc n) = text "-" ++ to_string (n + 1)

module _ {ClientData : Type 0} where
  unfoldable pub empty_server : Server ClientData
  empty_server = record {
    client_map = Dict.empty;
    clients = [];
    next_client_id = 1;
    peer_data = Dict.empty;
    effects = [];
  }

  -- Server(port); `created` tells whether enet_host_create gave a host.
  unfoldable pub new_server : ℤ → Bool → Result (Server ClientData)
  unfolding is_outside int_to_string empty_server
  new_server port created =
      if is_outside port
      then throw (
          out_of_range (
            text "Server port must be between 0 and "
            ++ (to_string 65535 ++ (text ": " ++ int_to_string port))))
      else if created
      then ok empty_server
      else throw (runtime_error (text "Failed to create ENet server"))

  unfoldable pub emit : Server ClientData → Effect → Server ClientData
  emit s effect = record s { effects = s.effects ++ effect ∷ [] }

  -- `fresh` is the value-initialised ClientData of a new record.
  unfoldable pub create_client : ClientData → Server ClientData → ℕ → Outcome (Server ClientData) ℕ
  create_client fresh s peer =
      let client_id = s.next_client_id in
      let counted = record s { next_client_id = (client_id + 1) % 2 ^ 64 } in
      let client : Client ClientData = record {
        id = client_id;
        peer = peer;
        client_data = fresh;
      } in
      let (client_map', inserted) = Dict.emplace counted.client_map client_id client in
      let stored = record counted { client_map = client_map' } in
      if inserted
      then (record stored { clients = stored.clients ++ client_id ∷ [] }, ok client_id)
      else (
        stored,
        throw (runtime_error (text "Failed to create client with ID: " ++ to_string client_id)),
      )

  -- The access through a Client*.
  unfoldable pub deref : Server ClientData → ℕ → Result (Client ClientData)
  deref s client = elim (Dict.get s.client_map client) [
    | some record_of ↦ ok record_of
    | none ↦ throw undefined_behaviour
  ]

  unfoldable pub destroy_client : Server ClientData → ℕ → Outcome (Server ClientData) Unit
  unfolding deref erase_all
  destroy_client s client = elim (deref s client) [
    | throw e ↦ (s, throw e)
    | ok c ↦ (
      record s { client_map = Dict.erase s.client_map c.id; clients = erase_all client s.clients },
      ok tt,
    )
  ]

  -- Client::send
  unfoldable pub send_to : Server ClientData → ℕ → List ℕ → Outcome (Server ClientData) Unit
  unfolding deref emit
  send_to s client message = elim (deref s client) [
    | throw e ↦ (s, throw e)
    | ok c ↦ (emit s (send c.peer message), ok tt)
  ]

  -- Server::broadcast
  unfoldable pub broadcast_all : Server ClientData → List ℕ → Server ClientData
  unfolding emit
  broadcast_all s message = emit s (broadcast message)

  -- ~Server()
  unfoldable pub destroy_server : Server ClientData → Server ClientData
  unfolding emit
  destroy_server s = emit s host_destroy

-- The object: the base and the derived class's own fields.
pub record Object (ClientData Fields : Type 0) : Type 0 where
  pub base : Server ClientData
  pub fields : Fields

-- What a derived type must implement. A client argument is a Client*.
pub record Derived (ClientData Fields : Type 0) : Type 0 where
  pub on_process : Object ClientData Fields → Outcome (Object ClientData Fields) Unit
  pub on_connect : Object ClientData Fields → ℕ → Outcome (Object ClientData Fields) Unit
  pub on_disconnect : Object ClientData Fields → ℕ → Outcome (Object ClientData Fields) Unit
  pub on_message : Object ClientData Fields → ℕ → List ℕ → Outcome (Object ClientData Fields) Unit

-- Two steps in a row; a throw ends both.
infixl 5 ◌then_do◌
abbrev pub ◌then_do◌ : {S A B : Type 0} → Outcome S A → (S → A → Outcome S B) → Outcome S B
(s, ok a) then_do f = f s a
(s, throw e) then_do f = (s, throw e)

module _ {ClientData Fields : Type 0} where
  abbrev pub on_base :
      {A : Type 0}
      → Object ClientData Fields
      → Outcome (Server ClientData) A
      → Outcome (Object ClientData Fields) A
  on_base o (s, r) = (record o { base = s }, r)

  -- event.peer->data
  unfoldable pub peer_client : Object ClientData Fields → ℕ → Outcome (Object ClientData Fields) ℕ
  peer_client o peer = elim (Dict.get o.base.peer_data peer) [
    | some client ↦ (o, ok client)
    | none ↦ (o, throw undefined_behaviour)
  ]

  pub peer_client_lem :
      (o : Object ClientData Fields) (peer client : ℕ)
      → Dict.get o.base.peer_data peer ≡ some client
      → peer_client o peer ≡ (o, ok client)
  unfolding peer_client
  peer_client_lem o peer client h = ground arith

  -- event.peer->data = client
  unfoldable pub set_peer_client : Object ClientData Fields → ℕ → ℕ → Object ClientData Fields
  set_peer_client o peer client = record o {
    base = record o.base { peer_data = Dict.put o.base.peer_data peer client };
  }

  -- ~PacketGuard: it runs when the handler returns and when it throws.
  unfoldable pub release_packet :
      ℕ → Outcome (Object ClientData Fields) Unit → Outcome (Object ClientData Fields) Unit
  unfolding emit
  release_packet packet (o, r) = (record o { base = emit o.base (packet_destroy packet) }, r)

module _ {ClientData Fields : Type 0} (fresh : ClientData) (d : Derived ClientData Fields) where
  -- One round of the loop of process().
  unfoldable pub dispatch :
      Object ClientData Fields → Event → Outcome (Object ClientData Fields) Unit
  unfolding set_peer_client
  dispatch o (connect peer) = on_base o (create_client fresh o.base peer) then_do λ o' client.
      d.on_connect (set_peer_client o' peer client) client
  dispatch o (receive peer packet bytes) =
      release_packet packet (peer_client o peer then_do λ o' client. d.on_message o' client bytes)
  dispatch o (disconnect peer) = peer_client o peer then_do λ o' client.
      d.on_disconnect o' client then_do λ o'' _. on_base o'' (destroy_client o''.base client)
  dispatch o no_event = (o, ok tt)

  unfoldable pub dispatch_all :
      Object ClientData Fields → List Event → Outcome (Object ClientData Fields) Unit
  dispatch_all o [] = (o, ok tt)
  dispatch_all o (event ∷ events) =
      let (o', r) = dispatch o event in
      elim r [ ok _ ↦ dispatch_all o' events | throw e ↦ (o', throw e) ]

  pub dispatch_all_round :
      (o : Object ClientData Fields) (event : Event) (events : List Event)
      → (dispatch o event).1 ≡ ok tt
      → dispatch_all o (event ∷ events) ≡ dispatch_all (dispatch o event).0 events
  unfolding dispatch_all
  dispatch_all_round o event events h = ground arith

  -- process(): `events` are what enet_host_service returns until it has no more.
  unfoldable pub process :
      Object ClientData Fields → List Event → Outcome (Object ClientData Fields) Unit
  unfolding dispatch_all
  process o events = d.on_process o then_do λ o' _. dispatch_all o' events
