-- ===== src/System/World/LastItem.antt =====
-- The last packet of a connection's queue, and what it does at the server.
use spraybus.Prelude.{
  ℕ, suc, ◌+◌, ◌^◌, ◌<◌, ◌≡◌, ◌≢◌, ap, sym, ◌∙◌, subst, true, List, [], ◌∷◌, ◌++◌, some, arith,
  length, Option-cases, inl, inr, word_key,
}
use mathlib.Core.Path.{ap₂}
use spraybus.Containers.KeySet
use spraybus.Containers.KeySet.{contains-insert}
use spraybus.Word.{Endian}
use spraybus.Protocol.Enum.{Origin, MessageType}
use spraybus.Protocol.Message
use spraybus.Protocol.Message.{new_constructor}
use spraybus.Networking.Server.{Client as Record, Effect, packet_destroy}
use spraybus.Networking.Server.Table.{find_peer, Distinct}
use spraybus.Server.{ClientData, wants}
use spraybus.Server.Bus.{Bus, bus_step, answer}
use spraybus.Server.Delivery.{answer_carried}
use spraybus.System.World.{
  Item, packet, Link, World, serve, update, event_of, sent_to, take_item, act, run,
}
use spraybus.System.World.Events.{
  lifecycle, advance, has_record, find_peer-set_data_own, ids_differ,
}
use spraybus.System.World.Packets.{Reads, sent_to-append}
use spraybus.System.World.Invariant.{Holds}
use spraybus.System.World.Serving.{served}
use spraybus.System.World.Draining.{
  repeat, Taken, take_once, then_taken, take_all, repeat_last, sent_to_found, cut_down,
}

-- The peer has a record that is subscribed to the key.
abbrev pub IsSubscribed : Bus → ℕ → ℕ → Type 0
IsSubscribed b i key =
    (c : Record ClientData) × (find_peer i b.live ≡ some c)
    × (KeySet.contains c.client_data.subscribed_topics key ≡ true)

-- `w'` after the server has taken all items of peer `i` in `w`, the last of them this packet; `mid`
-- is the bus before that one.
pub record Emptied (e : Endian) (i n : ℕ) (b : Bus) (w : World) (bytes : List ℕ) (w' : World)
    : Type 0 where
  pub mid : Bus
  pub sender : (c : Record ClientData) × (find_peer i mid.live ≡ some c)
  pub distinct : Distinct mid.live
  pub records : (j : ℕ) → i ≢ j → find_peer j mid.live ≡ find_peer j b.live
  pub down :
      (j : ℕ)
      → i ≢ j
      → (xs : List (List ℕ)) × ((w'.links j).down
          ≡ xs ++ sent_to j (bus_step e mid (event_of i (packet bytes))).1)
  pub taken : Taken i b w n (bus_step e mid (event_of i (packet bytes))).0 w' []

-- The server knows the sender of the last packet of a queue.
sender_known :
    (n : ℕ) (b : Bus) (w : World) (i : ℕ) (bytes : List ℕ)
    → Holds n b w
    → (w.links i).up ≡ packet bytes ∷ []
    → (c : Record ClientData) × (find_peer i b.live ≡ some c)
sender_known n b w i bytes h queue =
    let alive : advance (has_record b i) (packet bytes) ≡ some (w.links i).is_open =
      ap (lifecycle (some (has_record b i))) (sym queue) ∙ (h.linked i).alive in
    elim (Option-cases (find_peer i b.live)) [
      | inl gone ↦ ground (arith, alive)
      | inr there ↦ there
    ]

module _ (e : Endian) (b : Bus) (i : ℕ) (c : Record ClientData)
    (there : find_peer i b.live ≡ some c) (distinct : Distinct b.live) (key : ℕ)
    (bytes : List ℕ) where
  -- A subscribe packet subscribes its sender.
  pub subscribes :
      Reads bytes MessageType.subscribe Origin.client key []
      → IsSubscribed (bus_step e b (event_of i (packet bytes))).0 i key
  subscribes reads =
      let topics = KeySet.insert c.client_data.subscribed_topics key in
      let c' : Record ClientData = record c {
        client_data = record { subscribed_topics = topics };
      } in
      rw (there, answer_carried e b c bytes MessageType.subscribe Origin.client key [] (reads e))
        (
          c',
          find_peer-set_data_own b.live distinct i c there (record { subscribed_topics = topics }),
          contains-insert c.client_data.subscribed_topics key key ∙ ground arith,
        )

  -- A publish packet is forwarded to a subscriber.
  pub forwards :
      (payload : List ℕ) (j : ℕ)
      → Reads bytes MessageType.publish Origin.client key payload
      → IsSubscribed b j key
      → i ≢ j
      → let effects = (bus_step e b (event_of i (packet bytes))).1 in
        (rest : List (List ℕ)) × (sent_to j effects
          ≡ (Message.fanout e new_constructor key payload Origin.server).1 ∷ rest)
  unfolding sent_to wants
  forwards payload j reads (d, joined, member) away =
      let out = (Message.fanout e new_constructor key payload Origin.server).1 in
      let wanted : wants c.id key d ≡ true =
        ground (arith, ids_differ b.live distinct i c there j d joined away, member) in
      let (rest, sent) = sent_to_found j (wants c.id key) out d b.live joined wanted in
      rw (there, answer_carried e b c bytes MessageType.publish Origin.client key payload (reads e))
        (
          rest ++ [],
          sent_to-append j (answer e b c MessageType.publish key payload).1 (packet_destroy 0 ∷ [])
              ∙ ap (λ xs. xs ++ []) sent,
        )

pub update_other :
    (links : ℕ → Link) (i : ℕ) (l : Link) (j : ℕ) → i ≢ j → update links i l j ≡ links j
update_other links i l j away = ground arith

module _ (e : Endian) (order : ℕ → Endian) where
  -- A queue with a packet at its end is taken to its end.
  module _ (n : ℕ) (b : Bus) (w : World) (i : ℕ) (items : List Item) (bytes : List ℕ)
      (h : Holds n b w) (few : n + length items + 4 < 2 ^ 64)
      (queue : (w.links i).up ≡ items ++ packet bytes ∷ []) where
    abbrev before : World
    before = run e order w (repeat (length items) (serve i))

    all_before : (bus : Bus) × Taken i b w (n + length items) bus before (packet bytes ∷ [])
    all_before = take_all e order i items (packet bytes ∷ []) n b w h few queue

    abbrev after : World
    after = run e order w (repeat (suc (length items)) (serve i))

    after_is : after ≡ take_item e before i (packet bytes ∷ [])
    unfolding act
    after_is =
        repeat_last e order i (length items) w (serve i)
        ∙ ap (take_item e before i) all_before.1.queue

    sender : (c : Record ClientData) × (find_peer i all_before.0.live ≡ some c)
    sender =
        sender_known (n + length items) all_before.0 before i bytes all_before.1.holds
          all_before.1.queue

    abbrev last_step : Bus × List Effect
    last_step = bus_step e all_before.0 (event_of i (packet bytes))

    last : Taken i all_before.0 before (n + length items + 1) last_step.0 after []
    last =
        subst (λ w'. Taken i all_before.0 before (n + length items + 1) last_step.0 w' [])
          (sym after_is)
          (take_once e order i (n + length items) all_before.0 before (packet bytes) []
            all_before.1.holds (omega (arith, few)) all_before.1.queue)

    down_after :
        (j : ℕ) → i ≢ j → (after.links j).down ≡ (before.links j).down ++ sent_to j last_step.1
    unfolding take_item
    down_after j away =
        ap (λ (w' : World). (w'.links j).down) after_is
        ∙ ap₂ (λ xs effects. xs ++ sent_to j effects) (cut_down before.links i [] j away)
            (served e (n + length items) all_before.0 before all_before.1.holds (omega (arith, few))
              i (packet bytes) [] all_before.1.queue).sent

    pub emptied : Emptied e i (n + length items + 1) b w bytes after
    emptied = record {
      mid = all_before.0;
      sender = sender;
      distinct = all_before.1.holds.shows.table.distinct;
      records = all_before.1.records;
      down = λ j away. ((before.links j).down, down_after j away);
      taken = then_taken e order i all_before.1 last;
    }
