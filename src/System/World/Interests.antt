-- ===== src/System/World/Interests.antt =====
-- The keys that a client has subscribed to, as the server takes its packets, and the messages that
-- are meant for it.
use spraybus.Prelude.{
  ℕ, ◌≡◌, ◌≢◌, refl, sym, ap, ◌∙◌, subst, Bool, false, ◌||◌, List, [], ◌∷◌, ◌++◌, map, select,
  Option, none, some, arith, ◌==◌, if◌then◌else◌, Bool-cases, Option-cases, inl, inr, word_key,
}
use spraybus.Containers.KeySet
use spraybus.Containers.KeySet.{contains-empty, contains-insert}
use spraybus.Word.{Endian}
use spraybus.Protocol.Enum.{Origin, MessageType}
use spraybus.Networking.Server.{Client as Record}
use spraybus.Networking.Server.Table.{find_peer, find_peer-snoc, set_data, Distinct}
use spraybus.Server.{ClientData, no_topics}
use spraybus.Server.Bus.{Bus, bus_step}
use spraybus.Server.Delivery.{answer_carried}
use spraybus.System.World.{
  Item, joins, leaves, packet, Publication, World, Action, serve, event_of, act,
}
use spraybus.System.World.Events.{
  advance, has_record, has_record-after, found, others_stay, find_peer-set_data_own,
}
use spraybus.System.World.Packets.{Sent, joined, left, subscribed, publishes}
use spraybus.System.World.Histories.{
  Content, content, subscribes_in, subscribes_in_read, item_publish,
}

-- Which keys a client is subscribed to.
abbrev pub Interest : Type 0
Interest = ℕ → Bool

abbrev added : Interest → List Content → Interest
added keys [] = keys
added keys (c ∷ cs) = λ k. c.0 == k || keys k

-- The keys after the server has taken an item of the client.
abbrev pub after_item : Endian → Interest → Item → Interest
after_item e keys joins = λ k. false
after_item e keys leaves = λ k. false
after_item e keys (packet bytes) = added keys (subscribes_in e bytes)

-- The keys of client `i` after the server has taken the next item of peer `j`.
abbrev pub after_next : Endian → ℕ → Interest → ℕ → List Item → Interest
after_next e i keys j [] = keys
after_next e i keys j (item ∷ items) = if j == i then after_item e keys item else keys

-- What the next item of peer `j` brings to a client `i` with these keys.
abbrev pub meant_by : Endian → ℕ → Interest → ℕ → List Item → List Content
meant_by e i keys j [] = []
meant_by e i keys j (item ∷ items) =
    if j == i then [] else select (λ c. keys c.0) (map content (item_publish e j item))

module _ (e : Endian) (order : ℕ → Endian) (i : ℕ) where
  abbrev pub interest_by : Interest → World → Action → Interest
  interest_by keys w (serve j) = after_next e i keys j (w.links j).up
  interest_by keys w other = keys

  abbrev pub meant_now : Interest → World → Action → List Content
  meant_now keys w (serve j) = meant_by e i keys j (w.links j).up
  meant_now keys w other = []

  -- The keys after a schedule.
  unfoldable pub interest : Interest → World → List Action → Interest
  interest keys w [] = keys
  interest keys w (action ∷ actions) =
      interest (interest_by keys w action) (act e order w action) actions

  -- The messages that the server takes in a schedule and that are meant for client `i`: those that
  -- others publish to a key while the client is subscribed to it.
  unfoldable pub meant : Interest → World → List Action → List Content
  meant keys w [] = []
  meant keys w (action ∷ actions) =
      meant_now keys w action ++ meant (interest_by keys w action) (act e order w action) actions

-- The keys of a record.
abbrev pub member : Option (Record ClientData) → Interest
member none k = false
member (some c) k = KeySet.contains c.client_data.subscribed_topics k

-- The server has exactly these keys for client `i`.
abbrev pub Follows : ℕ → Interest → Bus → Type 0
Follows i keys b = (k : ℕ) → keys k ≡ member (find_peer i b.live) k

absent_member : (r : Option (Record ClientData)) (k : ℕ) → found r ≡ false → false ≡ member r k
absent_member none k h = refl
absent_member (some c) k h = cc h

module _ (e : Endian) (published : List Publication) (i : ℕ) (b : Bus) (distinct : Distinct b.live)
    (keys : Interest) (follows : Follows i keys b) where
  abbrev after : Item → Bus
  after item = (bus_step e b (event_of i item)).0

  empty_member : (k : ℕ) → KeySet.contains no_topics.subscribed_topics k ≡ false
  unfolding no_topics
  empty_member k = contains-empty k

  own-Follows :
      (item : Item) (known : Bool)
      → Sent published i item
      → advance (has_record b i) item ≡ some known
      → Follows i (after_item e keys item) (after item)
  own-Follows joins known joined step k =
      let free : find_peer i b.live ≡ none = ground arith in
      let new : Record ClientData = record { id = b.next_id; peer = i; client_data = no_topics } in
      sym (ap (λ r. member r k) (find_peer-snoc i new b.live free refl) ∙ empty_member k)
  own-Follows leaves known left step k =
      absent_member (find_peer i (after leaves).live) k
        (has_record-after e b distinct i leaves known step ∙ ground arith)
  own-Follows (packet _) known (subscribed bytes key fits reads) step k =
      elim (Option-cases (find_peer i b.live)) [
        | inl gone ↦ ground arith
        | inr (c, there) ↦
            let topics = KeySet.insert c.client_data.subscribed_topics key in
            let topic_data : ClientData = record { subscribed_topics = topics } in
            let live : (bus_step e b (event_of i (packet bytes))).0.live
                ≡ set_data c.id topic_data b.live =
              rw
                (
                  there,
                  answer_carried e b c bytes MessageType.subscribe Origin.client key [] (reads e),
                )
                refl in
            ap (λ cs. added keys cs k)
              (subscribes_in_read e bytes MessageType.subscribe Origin.client key [] (reads e))
            ∙ ap (λ t. key == k || t) (follows k ∙ ap (λ r. member r k) there)
            ∙ sym (contains-insert c.client_data.subscribed_topics key k)
            ∙ ap (λ r. member r k)
                (sym (find_peer-set_data_own b.live distinct i c there topic_data))
            ∙ ap (λ l. member (find_peer i l) k) (sym live)
      ]
  own-Follows (packet _) known (publishes bytes key payload fits reads called) step k =
      elim (Option-cases (find_peer i b.live)) [
        | inl gone ↦ ground arith
        | inr (c, there) ↦
            let live : (bus_step e b (event_of i (packet bytes))).0.live ≡ b.live =
              rw
                (
                  there,
                  answer_carried e b c bytes MessageType.publish Origin.client key payload
                      (reads e),
                )
                refl in
            ap (λ cs. added keys cs k)
              (subscribes_in_read e bytes MessageType.publish Origin.client key payload (reads e))
            ∙ follows k
            ∙ ap (λ l. member (find_peer i l) k) (sym live)
      ]

  -- The keys stay right when the server takes the next item of any peer.
  pub item-Follows :
      (j : ℕ) (item : Item) (items : List Item) (known : Bool)
      → Sent published j item
      → advance (has_record b j) item ≡ some known
      → Follows i (after_next e i keys j (item ∷ items)) (bus_step e b (event_of j item)).0
  item-Follows j item items known sent step k = elim (Bool-cases (j == i)) [
    | inl here ↦
        let at : j ≡ i = ground arith in
        rw here (
          subst
            (λ p.
              after_item e keys item k
              ≡ member (find_peer i (bus_step e b (event_of p item)).0.live) k)
            (sym at)
            (own-Follows item known (subst (λ p. Sent published p item) at sent)
              (subst (λ p. advance (has_record b p) item ≡ some known) at step) k))
    | inr away ↦
        let other : j ≢ i = ground arith in
        rw away (follows k ∙ ap (λ r. member r k) (sym (others_stay e b distinct j item i other)))
  ]
