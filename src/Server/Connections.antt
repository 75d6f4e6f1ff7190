-- ===== src/Server/Connections.antt =====
-- What a connect and a disconnect do to the subscriptions.
use mathlib.Core.List.{append-nil}
use spraybus.Prelude.{
  ℕ, ◌+◌, ◌^◌, ◌<◌, ◌≡◌, refl, ap, sym, ◌∙◌, subst, Bool, false, not, ◌&&◌, ◌==◌, [], ◌++◌, Option,
  none, some, arith, length, if◌then◌else◌, word_key, Bool-cases, inl, inr,
}
use spraybus.Containers.Dict
use spraybus.Containers.KeySet
use spraybus.Containers.KeySet.{contains-empty}
use spraybus.Word.{Endian}
use spraybus.Exec.{ok}
use spraybus.Networking.Server.{Client, connect, disconnect}
use spraybus.Networking.Server.Table.{
  find_client, find_peer, find_client-snoc, find_client-remove_client, find_client_above,
  remove_client,
}
use spraybus.Server.{ClientData, Server, no_topics, dispatch}
use spraybus.Server.Bus.{Bus, bus_step}
use spraybus.Server.Refinement.{Shows}
use spraybus.Server.Runs.{dispatch-Refines}
use spraybus.Server.Delivery.{subscribed}

-- The subscriptions of a record, if there is one.
abbrev holds_key : Option (Client ClientData) → ℕ → Bool
holds_key none key = false
holds_key (some c) key = KeySet.contains c.client_data.subscribed_topics key

subscribed_at :
    (o : Server) (b : Bus) (id key : ℕ)
    → Shows o b
    → subscribed o id key ≡ holds_key (find_client id b.live) key
unfolding subscribed
subscribed_at o b id key v = at (Dict.get o.base.client_map id) (v.table.stored id)
  where
    at :
        (found : Option (Client ClientData))
        → found ≡ find_client id b.live
        → (elim found [
          | some c ↦ KeySet.contains c.client_data.subscribed_topics key
          | none ↦ false
        ])
          ≡ holds_key (find_client id b.live) key
    at none h = ap (λ x. holds_key x key) h
    at (some c) h = ap (λ x. holds_key x key) h

no_topics_lem : (key : ℕ) → KeySet.contains no_topics.subscribed_topics key ≡ false
unfolding no_topics
no_topics_lem key = contains-empty key

module _ (e : Endian) (o : Server) (b : Bus) (v : Shows o b) (peer : ℕ)
    (ids : b.next_id + 1 < 2 ^ 64) (names : length b.names + 2 < 2 ^ 64) where
  abbrev newcomer : Client ClientData
  newcomer = record { id = b.next_id; peer = peer; client_data = no_topics }

  unused : find_client b.next_id b.live ≡ none
  unused =
      subst (λ n. find_client n b.live ≡ none) v.next
        (find_client_above o.base.next_client_id b.live v.table.below)

  newcomer_holds :
      (id key : ℕ)
      → holds_key (if newcomer.id == id then some newcomer else find_client id b.live) key
        ≡ holds_key (find_client id b.live) key
  newcomer_holds id key = elim (Bool-cases (newcomer.id == id)) [
    | inl same ↦
        let e : b.next_id ≡ id = ground arith in
        let none_there : find_client id b.live ≡ none =
          subst (λ n. find_client n b.live ≡ none) e unused in
        rw (same, none_there) (no_topics_lem key)
    | inr other ↦ rw other refl
  ]

  gone_holds :
      (i id key : ℕ) (found : Option (Client ClientData))
      → holds_key (if i == id then none else found) key ≡ (not (i == id) && holds_key found key)
  gone_holds i id key found = ground arith

  subscribed-connect :
      Shows (dispatch e o (connect peer)).0 (bus_step e b (connect peer)).0
      → (id key : ℕ)
      → subscribed (dispatch e o (connect peer)).0 id key ≡ holds_key (find_client id b.live) key
  subscribed-connect shows id key =
      subscribed_at (dispatch e o (connect peer)).0 (bus_step e b (connect peer)).0 id key shows
      ∙ ap (λ x. holds_key x key) (find_client-snoc id newcomer b.live unused)
      ∙ newcomer_holds id key

  -- A server shows a bus with fewer than 2 ^ 64 - 2 names and an id left. When a peer without a
  -- record connects, the round returns, nothing is sent, no subscription of any id changes, and the
  -- new client has none.
  pub connect_keeps :
      find_peer peer b.live ≡ none
      → let result = dispatch e o (connect peer) in
        (result.1 ≡ ok tt)
        × (result.0.base.effects ≡ o.base.effects)
        × ((id key : ℕ) → subscribed result.0 id key ≡ subscribed o id key)
        × ((key : ℕ) → subscribed result.0 b.next_id key ≡ false)
  connect_keeps free =
      let r = dispatch-Refines e o b v (connect peer) free ids names in
      (
        r.returned,
        r.sent ∙ append-nil o.base.effects,
        (λ id key. subscribed-connect r.shows id key ∙ sym (subscribed_at o b id key v)),
        λ key. subscribed-connect r.shows b.next_id key ∙ ap (λ x. holds_key x key) unused,
      )

  -- A server shows a bus with fewer than 2 ^ 64 - 2 names and an id left. When a client
  -- disconnects, the round returns, nothing is sent, the client has no subscription any more, and
  -- the subscriptions of all others stay.
  pub disconnect_clears :
      (c : Client ClientData)
      → find_peer peer b.live ≡ some c
      → let result = dispatch e o (disconnect peer) in
        (result.1 ≡ ok tt)
        × (result.0.base.effects ≡ o.base.effects)
        × ((id key : ℕ) → subscribed result.0 id key ≡ (not (c.id == id) && subscribed o id key))
  disconnect_clears c found =
      let r = dispatch-Refines e o b v (disconnect peer) (c, found) ids names in
      let step : (bus_step e b (disconnect peer))
          ≡ (record b { live = remove_client c.id b.live }, []) =
        rw found refl in
      let shows : Shows (dispatch e o (disconnect peer)).0
          (record b { live = remove_client c.id b.live }) =
        subst (Shows (dispatch e o (disconnect peer)).0) (ap (λ x. x.0) step) r.shows in
      (
        r.returned,
        r.sent ∙ ap (λ x. o.base.effects ++ x.1) step ∙ append-nil o.base.effects,
        λ id key.
            subscribed_at (dispatch e o (disconnect peer)).0
              (record b { live = remove_client c.id b.live }) id key shows
            ∙ ap (λ x. holds_key x key) (find_client-remove_client c.id id b.live)
            ∙ gone_holds c.id id key (find_client id b.live)
            ∙ ap (λ x. not (c.id == id) && x) (sym (subscribed_at o b id key v)),
      )
