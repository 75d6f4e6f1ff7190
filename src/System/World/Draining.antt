-- ===== src/System/World/Draining.antt =====
-- A queue that is taken to its end: the server takes what a client has sent, and a client polls.
use spraybus.Prelude.{
  ℕ, zero, suc, ◌+◌, ◌^◌, ◌<◌, ◌≡◌, ◌≢◌, refl, ap, sym, ◌∙◌, subst, Bool, true, List, [], ◌∷◌, ◌++◌,
  map, some, arith, length, ◌==◌, Bool-cases, inl, inr, select,
}
use native.Mathlib.Nat.{add-zero}
use spraybus.Word.{Endian}
use spraybus.Networking.Server.{Client as Record, send}
use spraybus.Networking.Server.Table.{find_peer}
use spraybus.Server.{ClientData}
use spraybus.Server.Bus.{Bus, bus_step}
use spraybus.System.World.{
  Item, Link, World, Action, serve, poll_client, update, event_of, sent_to, tail, take_item, act,
  run,
}
use spraybus.System.World.Events.{others_stay}
use spraybus.System.World.Invariant.{Holds}
use spraybus.System.World.Serving.{take_item-Holds}

abbrev pub repeat : ℕ → Action → List Action
repeat zero action = []
repeat (suc n) action = action ∷ repeat n action

-- The world `w'` and the bus after the server has taken items of peer `i` in `w`.
pub record Taken (i : ℕ) (b : Bus) (w : World) (n : ℕ) (bus : Bus) (w' : World) (rest : List Item)
    : Type 0 where
  pub holds : Holds n bus w'
  pub queue : (w'.links i).up ≡ rest
  pub records : (j : ℕ) → i ≢ j → find_peer j bus.live ≡ find_peer j b.live
  pub clients : (j : ℕ) → (w'.links j).client ≡ (w.links j).client
  pub opens : (j : ℕ) → (w'.links j).is_open ≡ (w.links j).is_open
  pub queues : (j : ℕ) → i ≢ j → (w'.links j).up ≡ (w.links j).up

pub update_own : (links : ℕ → Link) (i : ℕ) (l : Link) → update links i l i ≡ l
update_own links i l = ground arith

module _ (links : ℕ → Link) (i : ℕ) (items : List Item) where
  abbrev pub cut : ℕ → Link
  cut = update links i (record (links i) { up = items })

  cut_own : (cut i).up ≡ items
  cut_own = ground arith

  cut_others : (j : ℕ) → i ≢ j → (cut j).up ≡ (links j).up
  cut_others j away = ground arith

  pub cut_down : (j : ℕ) → i ≢ j → (cut j).down ≡ (links j).down
  cut_down j away = ground arith

  cut_same : (j : ℕ) → ((cut j).client ≡ (links j).client) × ((cut j).is_open ≡ (links j).is_open)
  cut_same j = elim (Bool-cases (i == j)) [
    | inl here ↦
        let same : i ≡ j = ground arith in
        rw (update, here) (ap (λ k. (links k).client) same, ap (λ k. (links k).is_open) same)
    | inr away ↦ rw (update, away) (refl, refl)
  ]

module _ (e : Endian) (order : ℕ → Endian) (i : ℕ) where
  pub take_once :
      (n : ℕ) (b : Bus) (w : World) (item : Item) (items : List Item)
      → Holds n b w
      → n + 4 < 2 ^ 64
      → (w.links i).up ≡ item ∷ items
      → Taken i b w
          (n + 1)
          (bus_step e b (event_of i item)).0
          (take_item e w i (item ∷ items))
          items
  unfolding take_item
  take_once n b w item items h few queue = record {
    holds = unfold take_item in take_item-Holds e n b w h few i item items queue;
    queue = cut_own w.links i items;
    records = λ j away. others_stay e b h.shows.table.distinct i item j away;
    clients = λ j. (cut_same w.links i items j).0;
    opens = λ j. (cut_same w.links i items j).1;
    queues = cut_others w.links i items;
  }

  pub then_taken :
      {b b1 b2 : Bus} {w w1 w2 : World} {m n : ℕ} {more rest : List Item}
      → Taken i b w m b1 w1 more
      → Taken i b1 w1 n b2 w2 rest
      → Taken i b w n b2 w2 rest
  then_taken first later = record {
    holds = later.holds;
    queue = later.queue;
    records = λ j away. later.records j away ∙ first.records j away;
    clients = λ j. later.clients j ∙ first.clients j;
    opens = λ j. later.opens j ∙ first.opens j;
    queues = λ j away. later.queues j away ∙ first.queues j away;
  }

  pub take_all :
      (items rest : List Item) (n : ℕ) (b : Bus) (w : World)
      → Holds n b w
      → n + length items + 4 < 2 ^ 64
      → (w.links i).up ≡ items ++ rest
      → (bus : Bus) × Taken i b w
          (n + length items)
          bus
          (run e order w (repeat (length items) (serve i)))
          rest
  unfolding run act
  take_all [] rest n b w h few queue = (
    b,
    record {
      holds = rw (add-zero n) h;
      queue = queue;
      records = λ j away. refl;
      clients = λ j. refl;
      opens = λ j. refl;
      queues = λ j away. refl;
    },
  )
  take_all (item ∷ items) rest n b w h few queue =
      let first = take_once n b w item (items ++ rest) h (omega (arith, few)) queue in
      let w' = take_item e w i (item ∷ (items ++ rest)) in
      let (bus, later) =
        take_all items rest (n + 1) (bus_step e b (event_of i item)).0 w' first.holds
          (omega (arith, few)) first.queue in
      (
        bus,
        subst
            (λ q.
              Taken i b w (n + length (item ∷ items)) bus
                (run e order (take_item e w i q) (repeat (length items) (serve i))) rest)
            (sym queue)
            (subst (λ k. Taken i b w k bus (run e order w' (repeat (length items) (serve i))) rest)
              (omega arith) (then_taken first later)),
      )

  -- The last repetition on its own.
  pub repeat_last :
      (n : ℕ) (w : World) (action : Action)
      → run e order w (repeat (suc n) action) ≡ act e order (run e order w (repeat n action)) action
  unfolding run
  repeat_last zero w action = refl
  repeat_last (suc n) w action = repeat_last n (act e order w action) action

  -- Polling reaches every packet.
  pub polled_up_to :
      (before : List (List ℕ)) (rest : List (List ℕ)) (w : World)
      → (w.links i).down ≡ before ++ rest
      → let w' = run e order w (repeat (length before) (poll_client i)) in
        ((w'.links i).down ≡ rest) × ((w'.links i).client ≡ (w.links i).client)
  unfolding run act
  polled_up_to [] rest w queue = (queue, refl)
  polled_up_to (bytes ∷ before) rest w queue =
      let w' = act e order w (poll_client i) in
      let one : ((w'.links i).down ≡ before ++ rest) × ((w'.links i).client ≡ (w.links i).client) =
        (
          ap (λ (l : Link). l.down) (update_own w.links i _) ∙ ap tail queue,
          ap (λ (l : Link). l.client) (update_own w.links i _),
        ) in
      let (down, client) = polled_up_to before rest w' one.0 in (down, client ∙ one.1)

module _ (i : ℕ) where
  -- A packet sent to the records that are picked comes to the peer of one of them.
  pub sent_to_found :
      (test : Record ClientData → Bool) (bytes : List ℕ) (d : Record ClientData)
      (live : List (Record ClientData))
      → find_peer i live ≡ some d
      → test d ≡ true
      → (rest : List (List ℕ)) × (sent_to i
            (map (λ (c : Record ClientData). send c.peer bytes) (select test live))
          ≡ bytes ∷ rest)
  unfolding sent_to
  sent_to_found test bytes d [] h t = cc h
  sent_to_found test bytes d (c ∷ cs) h t = elim (Bool-cases (c.peer == i)) [
    | inl here ↦
        let same : test c ≡ true = ground arith in
        let others = map (λ (c : Record ClientData). send c.peer bytes) (select test cs) in
        (sent_to i others, ground (arith, same, here))
    | inr later ↦
        let (rest, found) = sent_to_found test bytes d cs (ground arith) t in
        (rest, ground (arith, found, later))
  ]
