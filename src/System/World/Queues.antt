-- ===== src/System/World/Queues.antt =====
-- The queue to a client over one action: what is given from it, and what is put into it.
use spraybus.Prelude.{
  if◌then◌else◌, Bool, sym, false, ℕ, ◌+◌, ◌^◌, ◌<◌, ◌≡◌, refl, ap, ◌∙◌, true, List, [], ◌∷◌, ◌++◌,
  none, arith, ◌==◌, ltb, ◌&&◌, Bool-cases, Option-cases, inl, inr, text_key,
}
use mathlib.Core.List.{append-nil}
use mathlib.Core.Path.{ap₂}
use spraybus.Containers.Dict
use spraybus.Word.{Endian}
use spraybus.Protocol.Enum.{Origin, MessageType}
use spraybus.TopicMap.{Topic}
use spraybus.Networking.Server.{send, packet_destroy}
use spraybus.Server.Bus.{Bus, bus_step}
use spraybus.Client.{Client, poll}
use spraybus.Client.Polling.{polls}
use spraybus.System.World.{
  Item, Link, World, Action, open_client, close_client, poll_client, serve, publish, subscribe,
  resolve, update, sent_to, ready, tail, is_unused, event_of, take_item, look_up, act, polled,
}
use spraybus.System.World.Packets.{Reads}
use spraybus.System.World.Invariant.{Holds}
use spraybus.System.World.Serving.{served}
use spraybus.System.World.Resolving.{answered}
use spraybus.System.World.Histories.{
  Content, waiting, fanouts_in, fanouts_in_read, heard, heard-poll, given_by,
}
use spraybus.System.World.Copies.{waiting-append}

module _ (e : Endian) (h : Endian) (i : ℕ) where
  -- What the next item of peer `j` brings.
  abbrev pub brought : Bus → ℕ → List Item → List Content
  brought b j [] = []
  brought b j (item ∷ items) = waiting h (sent_to i (bus_step e b (event_of j item)).1)

  -- What an action brings.
  abbrev pub fresh_by : Bus → World → Action → List Content
  fresh_by b w (serve j) = brought b j (w.links j).up
  fresh_by b w other = []

-- A new connection takes the place of the old one, with its queue.
abbrev pub reopens : ℕ → World → Action → Bool
reopens i w (open_client j) = is_unused (w.links j) && j == i
reopens i w other = false

-- What an action leaves in the queue, if it gives nothing.
abbrev pub kept_by : Endian → ℕ → World → Action → List Content
kept_by h i w action = if reopens i w action then [] else waiting h (w.links i).down

same_down :
    (links : ℕ → Link) (j : ℕ) (l : Link) (i : ℕ)
    → l.down ≡ (links j).down
    → (update links j l i).down ≡ (links i).down
same_down links j l i same = elim (Bool-cases (j == i)) [
  | inl here ↦
      let at : j ≡ i = ground arith in rw (update, here) (same ∙ ap (λ k. (links k).down) at)
  | inr away ↦ rw (update, away) refl
]

-- The queue is as it was.
kept :
    (h : Endian) (now before : List (List ℕ))
    → now ≡ before
    → waiting h now ≡ waiting h before ++ []
kept h now before same = ap (waiting h) same ∙ sym (append-nil (waiting h before))

-- One poll() takes what it gives out of the queue.
polled_queue :
    (h : Endian) (c : Client) (down : List (List ℕ))
    → heard (poll h c (ready down)) ++ waiting h (tail down) ≡ waiting h down ++ []
polled_queue h c [] = ap (λ cs. cs ++ []) (ap heard (polls h c).3)
polled_queue h c (bytes ∷ rest) =
    ap (λ cs. cs ++ waiting h rest) (heard-poll h c bytes rest)
    ∙ sym (append-nil (fanouts_in h bytes ++ waiting h rest))

-- The answer to a topic request is no message.
answer_silent :
    (h : Endian) (i visitor key : ℕ) (answer topic : List ℕ)
    → Reads answer MessageType.topic_response Origin.server key topic
    → waiting h (sent_to i (send visitor answer ∷ packet_destroy 0 ∷ [])) ≡ []
unfolding sent_to
answer_silent h i visitor key answer topic reads =
    let silent =
      fanouts_in_read h answer MessageType.topic_response Origin.server key topic (reads h) in
    elim (Bool-cases (visitor == i)) [ inl here ↦ rw (here, silent) refl | inr away ↦ rw away refl ]

module _ (e : Endian) (order : ℕ → Endian) (n : ℕ) (b : Bus) (w : World) (h : Holds n b w)
    (few : n + 4 < 2 ^ 64) (i : ℕ) where
  abbrev Balanced : Action → World → Type 0
  Balanced action w' =
      given_by e order i w action ++ waiting (order i) (w'.links i).down
      ≡ kept_by (order i) i w action ++ fresh_by e (order i) i b w action

  opened_queue :
      (j : ℕ) (l : Link)
      → l.down ≡ []
      → waiting (order i) (update w.links j l i).down
        ≡ (if j == i then [] else waiting (order i) (w.links i).down) ++ []
  opened_queue j l none_left = elim (Bool-cases (j == i)) [
    | inl here ↦ rw (update, here, none_left) refl
    | inr away ↦ rw (update, away) (kept (order i) _ (w.links i).down refl)
  ]

  polled_queues : (j : ℕ) → Balanced (poll_client j) (act e order w (poll_client j))
  unfolding act polled
  polled_queues j = elim (Bool-cases (j == i)) [
    | inl here ↦
        let at : j ≡ i = ground arith in
        rw (here, ap (λ k. tail (w.links k).down) at)
          (polled_queue (order i) (w.links i).client (w.links i).down)
    | inr away ↦ rw (away, update) (kept (order i) _ (w.links i).down refl)
  ]

  served_queue :
      (j : ℕ) (items : List Item)
      → (w.links j).up ≡ items
      → waiting (order i) ((take_item e w j items).links i).down
        ≡ waiting (order i) (w.links i).down ++ brought e (order i) i b j items
  unfolding take_item
  served_queue j [] queue = kept (order i) _ (w.links i).down refl
  served_queue j (item ∷ items) queue =
      ap (waiting (order i)) (
        ap₂ (λ xs effects. xs ++ sent_to i effects) (same_down w.links j _ i refl)
          (served e n b w h few j item items queue).sent)
      ∙ waiting-append (order i) (w.links i).down (sent_to i (bus_step e b (event_of j item)).1)

  looked_up_queue :
      (j visitor : ℕ) (topic : Topic)
      → Dict.get (w.links j).client.topic_map topic ≡ none
      → is_unused (w.links visitor) ≡ true
      → waiting (order i) ((look_up e order w j visitor topic).links i).down
        ≡ waiting (order i) (w.links i).down ++ []
  unfolding look_up
  looked_up_queue j visitor topic fresh free =
      let (answer, key, reads, sent) = answered e order n b w h few j visitor topic fresh free in
      ap (waiting (order i))
        (ap₂ (λ xs effects. xs ++ sent_to i effects) (same_down w.links j _ i refl) sent)
      ∙ waiting-append (order i) (w.links i).down
          (sent_to i (send visitor answer ∷ packet_destroy 0 ∷ []))
      ∙ ap (λ cs. waiting (order i) (w.links i).down ++ cs)
          (answer_silent (order i) i visitor key answer topic reads)

  pub act-Balanced : (action : Action) → Balanced action (act e order w action)
  unfolding act
  act-Balanced (open_client j) = elim (Bool-cases (is_unused (w.links j))) [
    | inl free ↦ rw free (opened_queue j _ refl)
    | inr busy ↦ rw busy (kept (order i) _ (w.links i).down refl)
  ]
  act-Balanced (close_client j lost) = elim (Bool-cases (w.links j).is_open) [
    | inl on ↦ rw on (kept (order i) _ (w.links i).down (same_down w.links j _ i refl))
    | inr off ↦ rw off (kept (order i) _ (w.links i).down refl)
  ]
  act-Balanced (poll_client j) = polled_queues j
  act-Balanced (serve j) = served_queue j (w.links j).up refl
  act-Balanced (publish j key payload) =
      elim (Bool-cases ((w.links j).is_open && ltb key (2 ^ 64))) [
        | inl allowed ↦
            rw allowed (kept (order i) _ (w.links i).down (same_down w.links j _ i refl))
        | inr refused ↦ rw refused (kept (order i) _ (w.links i).down refl)
      ]
  act-Balanced (subscribe j key) = elim (Bool-cases ((w.links j).is_open && ltb key (2 ^ 64))) [
    | inl allowed ↦ rw allowed (kept (order i) _ (w.links i).down (same_down w.links j _ i refl))
    | inr refused ↦ rw refused (kept (order i) _ (w.links i).down refl)
  ]
  act-Balanced (resolve j visitor topic) =
      elim (Option-cases (Dict.get (w.links j).client.topic_map topic)) [
        | inr (key, known) ↦ rw (act, known) (kept (order i) _ (w.links i).down refl)
        | inl fresh ↦ elim (Bool-cases ((w.links j).is_open && is_unused (w.links visitor))) [
          | inl allowed ↦
              rw (act, fresh) (rw allowed (looked_up_queue j visitor topic fresh (ground arith)))
          | inr refused ↦ rw (act, fresh) (rw refused (kept (order i) _ (w.links i).down refl))
        ]
      ]
