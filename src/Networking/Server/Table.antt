-- ===== src/Networking/Server/Table.antt =====
-- The abstract table of clients: one list of records, in the order in which they connected. The
-- map, the vector and the peers' data pointers of the server all follow it.
mod Records
pub use Records.*
use mathlib.Core.List.{map-append}
use spraybus.Prelude.{
  ℕ, ◌+◌, ◌%◌, ◌^◌, ◌≤◌, ◌<◌, ◌≡◌, ◌≢◌, refl, ap, sym, ◌∙◌, Bool, true, false, List, [], ◌∷◌, ◌++◌,
  map, Option, none, some, arith, ◌==◌, ==_iff, if◌then◌else◌, All, All-append, All-imp, All-both,
  subst, word_key, Option-cases, Bool-cases, Bool-cases, inl, inr, ◌⊎◌,
}
use spraybus.Containers.Dict
use spraybus.Containers.Dict.{get-put, get-erase, get-empty, emplace_fresh}
use spraybus.Exec.{ok, throw}
use spraybus.Networking.Server.{
  Client, Server, empty_server, create_client, destroy_client, deref, erase_all,
}

module _ {ClientData : Type 0} where
  pub record Represents (s : Server ClientData) (live : List (Client ClientData)) : Type 0 where
    pub order : s.clients ≡ ids live
    pub stored : (i : ℕ) → Dict.get s.client_map i ≡ find_client i live
    pub pointers : All (λ c. Dict.get s.peer_data c.peer ≡ some c.id) live
    pub below : All (λ c. c.id < s.next_client_id) live
    pub distinct : Distinct live

  pub create_client_lem :
      (fresh : ClientData) (s : Server ClientData) (live : List (Client ClientData)) (peer : ℕ)
      → Represents s live
      → create_client fresh s peer ≡ (
        record s {
          client_map =
              Dict.put s.client_map s.next_client_id
                (record { id = s.next_client_id; peer = peer; client_data = fresh });
          clients = s.clients ++ s.next_client_id ∷ [];
          next_client_id = (s.next_client_id + 1) % 2 ^ 64;
        },
        ok s.next_client_id,
      )
  unfolding create_client
  create_client_lem fresh s live peer r = rw (
      emplace_fresh s.client_map s.next_client_id
        (record { id = s.next_client_id; peer = peer; client_data = fresh })
        (r.stored s.next_client_id ∙ find_client_above s.next_client_id live r.below))

  -- A new record, with the peer's pointer set to it.
  pub connected-Represents :
      (fresh : ClientData) (s : Server ClientData) (live : List (Client ClientData)) (peer : ℕ)
      → Represents s live
      → find_peer peer live ≡ none
      → s.next_client_id + 1 < 2 ^ 64
      → let id = s.next_client_id in
        let c : Client ClientData = record { id = id; peer = peer; client_data = fresh } in
        Represents
          (record s {
            client_map = Dict.put s.client_map id c;
            clients = s.clients ++ id ∷ [];
            next_client_id = (id + 1) % 2 ^ 64;
            peer_data = Dict.put s.peer_data peer id;
          })
          (live ++ c ∷ [])
  connected-Represents fresh s live peer r free room =
      let id = s.next_client_id in
      let c : Client ClientData = record { id = id; peer = peer; client_data = fresh } in
      let differ = All-peers_differ peer live free in
      let next : (id + 1) % 2 ^ 64 ≡ id + 1 = omega arith in
      record {
        order = ap (λ xs. xs ++ id ∷ []) r.order ∙ sym (map-append _ live (c ∷ []));
        stored = λ i.
            get-put s.client_map id i c
            ∙ ap (λ x. if id == i then some c else x) (r.stored i)
            ∙ sym (find_client-snoc i c live (find_client_above id live r.below));
        pointers =
            All-append _ live (c ∷ [])
              (All-both live (λ d q n. get-put s.peer_data peer d.peer id ∙ ground arith) r.pointers
                differ)
              (get-put s.peer_data peer peer id ∙ ground arith, tt);
        below = rw next (
            All-append _ live (c ∷ []) (All-imp live (λ d h. omega arith) r.below)
              (omega arith, tt));
        distinct =
            snoc-Distinct live c (All-both live (λ d n b. (omega arith, n)) differ r.below)
              r.distinct;
      }

  pub find_connected :
      (s : Server ClientData) (live : List (Client ClientData)) (c : Client ClientData)
      → Represents s live
      → c.id ≡ s.next_client_id
      → find_client c.id (live ++ c ∷ []) ≡ some c
  find_connected s live c r new =
      find_client-snoc c.id c live (
        subst (λ i. find_client i live ≡ none) (sym new)
          (find_client_above s.next_client_id live r.below))
      ∙ ground arith

  -- client->data() = v
  pub set_data-Represents :
      (s : Server ClientData) (live : List (Client ClientData)) (i : ℕ) (c : Client ClientData)
      (v : ClientData)
      → Represents s live
      → find_client i live ≡ some c
      → Represents
          (record s { client_map = Dict.put s.client_map i (record c { client_data = v }) })
          (set_data i v live)
  set_data-Represents s live i c v r found = record {
    order = r.order ∙ sym (ids-set_data i v live);
    stored = λ j.
        get-put s.client_map i j (record c { client_data = v })
        ∙ ap (λ x. if i == j then some (record c { client_data = v }) else x) (r.stored j)
        ∙ sym (find_client-set_data i j v live c found);
    pointers = All-set_data (λ id peer. Dict.get s.peer_data peer ≡ some id) i v live r.pointers;
    below = All-set_data (λ id peer. id < s.next_client_id) i v live r.below;
    distinct = set_data-Distinct i v live r.distinct;
  }

  pub deref_lem :
      (s : Server ClientData) (live : List (Client ClientData)) (i : ℕ) (c : Client ClientData)
      → Represents s live
      → find_client i live ≡ some c
      → deref s i ≡ ok c
  unfolding deref
  deref_lem s live i c r found = ground (arith, r.stored i)

  pub destroy_client_lem :
      (s : Server ClientData) (live : List (Client ClientData)) (i : ℕ) (c : Client ClientData)
      → Represents s live
      → find_client i live ≡ some c
      → destroy_client s i ≡ (
        record s { client_map = Dict.erase s.client_map i; clients = erase_all i s.clients },
        ok tt,
      )
  unfolding destroy_client
  destroy_client_lem s live i c r found = ground (arith, r.stored i, find_client_id i live c found)

  pub destroyed-Represents :
      (s : Server ClientData) (live : List (Client ClientData)) (i : ℕ)
      → Represents s live
      → Represents
          (record s { client_map = Dict.erase s.client_map i; clients = erase_all i s.clients })
          (remove_client i live)
  destroyed-Represents s live i r = record {
    order = ap (erase_all i) r.order ∙ ids-remove_client i live;
    stored = λ j.
        get-erase s.client_map i j
        ∙ ap (λ x. if i == j then none else x) (r.stored j)
        ∙ sym (find_client-remove_client i j live);
    pointers = All-remove_client _ i live r.pointers;
    below = All-remove_client _ i live r.below;
    distinct = remove_client-Distinct i live r.distinct;
  }

  -- The peer's pointer leads to the peer's record.
  pub pointer_of_peer :
      (s : Server ClientData) (live : List (Client ClientData)) (peer : ℕ) (c : Client ClientData)
      → Represents s live
      → find_peer peer live ≡ some c
      → Dict.get s.peer_data peer ≡ some c.id
  pointer_of_peer s live peer c r found =
      ap (Dict.get s.peer_data) (sym (find_peer_peer peer live c found))
      ∙ All-find_peer _ peer live c r.pointers found

  pub empty-Represents : Represents empty_server []
  unfolding empty_server
  empty-Represents = record {
    order = refl;
    stored = λ i. get-empty i;
    pointers = tt;
    below = tt;
    distinct = tt;
  }
