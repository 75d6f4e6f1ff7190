-- ===== src/System/World/Copies.antt =====
-- How often one item of a connection sends a message to a client: at most once.
use spraybus.Prelude.{
  ℕ, ◌^◌, ◌<◌, ◌≡◌, ◌≢◌, refl, sym, ap, ◌∙◌, Bool, true, false, List, [], ◌∷◌, ◌++◌, map, select,
  arith, ◌==◌, none, some, if◌then◌else◌, word_key, All, All-imp, Bool-cases, Option-cases, inl,
  inr,
}
use mathlib.Core.List.{append_assoc, append-nil}
use spraybus.Word.{Endian}
use spraybus.Protocol.Enum.{Origin, MessageType}
use spraybus.Protocol.Message
use spraybus.Protocol.Message.{new_constructor}
use spraybus.Protocol.RoundTrip.{packets_carry}
use spraybus.Networking.Server.{Client as Record, send, packet_destroy}
use spraybus.Networking.Server.Table.{find_peer, Distinct}
use spraybus.Server.{ClientData, wants}
use spraybus.Server.Bus.{Bus, bus_step, answer}
use spraybus.Server.Delivery.{answer_carried, named_server}
use spraybus.System.World.{Item, joins, leaves, packet, Publication, event_of, sent_to}
use spraybus.System.World.Events.{advance, has_record, ids_differ}
use spraybus.System.World.Interests.{Interest, Follows, member, meant_by}
use spraybus.System.World.Packets.{Sent, joined, left, subscribed, publishes, sent_to-append}
use spraybus.System.World.Histories.{
  Content, waiting, fanouts_in, fanouts_in_read, publishes_in_read,
}

pub waiting-append :
    (h : Endian) (xs ys : List (List ℕ)) → waiting h (xs ++ ys) ≡ waiting h xs ++ waiting h ys
waiting-append h [] ys = refl
waiting-append h (x ∷ xs) ys =
    ap (λ cs. fanouts_in h x ++ cs) (waiting-append h xs ys)
    ∙ sym (append_assoc (fanouts_in h x) (waiting h xs) (waiting h ys))

module _ (i : ℕ) (test : Record ClientData → Bool) (bytes : List ℕ) where
  abbrev sends_to : List (Record ClientData) → List (List ℕ)
  sends_to live = sent_to i (map (λ (d : Record ClientData). send d.peer bytes) (select test live))

  sent_away : (live : List (Record ClientData)) → All (λ d. d.peer ≢ i) live → sends_to live ≡ []
  unfolding sent_to
  sent_away [] h = refl
  sent_away (d ∷ ds) h = ground (arith, h.0, sent_away ds h.1)

  -- What is sent to the picked records comes once to the peer of a picked record.
  sent_picked :
      (live : List (Record ClientData))
      → Distinct live
      → sends_to live
        ≡ elim (find_peer i live) [ none ↦ [] | some d ↦ if test d then bytes ∷ [] else [] ]
  unfolding sent_to
  sent_picked [] h = refl
  sent_picked (d ∷ ds) h = elim (Bool-cases (d.peer == i)) [
    | inl here ↦
        let rest = sent_away ds (All-imp ds (λ x n. ground (arith, n.1)) h.0) in
        ground (arith, rest)
    | inr away ↦ ground (arith, sent_picked ds h.1)
  ]

-- Reading what an item of peer `i` sends to a client `j`, against what is meant for that client.
module _ (e h : Endian) (published : List Publication) (i j : ℕ) (b : Bus)
    (distinct : Distinct b.live) (keys : Interest) (follows : Follows j keys b) where
  picked :
      (c : Record ClientData) (key : ℕ)
      → find_peer i b.live ≡ some c
      → (bytes : List ℕ)
      → sends_to j (wants c.id key) bytes b.live
        ≡ (if i == j then [] else if keys key then bytes ∷ [] else [])
  unfolding wants
  picked c key there bytes =
      let all = sent_picked j (wants c.id key) bytes b.live distinct in
      elim (Option-cases (find_peer j b.live)) [
        | inl gone ↦ ground (arith, all, follows key, gone, there)
        | inr (d, joined_there) ↦ elim (Bool-cases (i == j)) [
          | inl here ↦
              let same : i ≡ j = ground arith in
              let own : c ≡ d =
                ground (arith, there, joined_there, ap (λ k. find_peer k b.live) same) in
              ground (arith, all, joined_there, ap (λ (r : Record ClientData). r.id) own)
          | inr away ↦
              let differ = ids_differ b.live distinct i c there j d joined_there (ground arith) in
              ground
                (arith, all, joined_there, follows key, differ, ap (λ r. member r key) joined_there)
        ]
      ]

  -- What one packet in the queue, or none, holds.
  waiting_if :
      (test : Bool) (out : List ℕ) (c : Content)
      → fanouts_in h out ≡ c ∷ []
      → waiting h (if test then out ∷ [] else []) ≡ select (λ c'. test) (c ∷ [])
  waiting_if true out c reads = ap (λ cs. cs ++ []) reads
  waiting_if false out c reads = refl

  published_sends :
      (c : Record ClientData) (key : ℕ) (payload : List ℕ)
      → find_peer i b.live ≡ some c
      → key < 2 ^ 64
      → waiting h (sent_to j (answer e b c MessageType.publish key payload).1)
        ≡ (if i == j then [] else select (λ (c' : Content). keys c'.0) ((key, payload) ∷ []))
  published_sends c key payload there fits =
      let out = (Message.fanout e new_constructor key payload Origin.server).1 in
      let reads =
        fanouts_in_read h out MessageType.fanout Origin.server key payload
          (packets_carry e h new_constructor Origin.server key payload named_server fits).5 in
      ap (waiting h) (picked c key there out) ∙ elim (Bool-cases (i == j)) [
        | inl here ↦ rw here refl
        | inr away ↦ rw away (waiting_if (keys key) out (key, payload) reads)
      ]

  abbrev nobody : List Content
  nobody = []

  nothing : (if i == j then nobody else nobody) ≡ nobody
  nothing = ground arith

  pub item_sends :
      (item : Item) (items : List Item) (known : Bool)
      → Sent published i item
      → advance (has_record b i) item ≡ some known
      → waiting h (sent_to j (bus_step e b (event_of i item)).1)
        ≡ meant_by e j keys i (item ∷ items)
  unfolding sent_to
  item_sends joins items known joined step = sym nothing
  item_sends leaves items known left step = elim (Option-cases (find_peer i b.live)) [
    | inl gone ↦ rw gone (sym nothing)
    | inr (c, there) ↦ rw there (sym nothing)
  ]
  item_sends (packet _) items known (subscribed bytes key fits reads) step =
      elim (Option-cases (find_peer i b.live)) [
        | inl gone ↦ ground arith
        | inr (c, there) ↦
            rw
              (
                there,
                answer_carried e b c bytes MessageType.subscribe Origin.client key [] (reads e),
                publishes_in_read e bytes MessageType.subscribe Origin.client key [] (reads e),
              )
              (sym nothing)
      ]
  item_sends (packet _) items known (publishes bytes key payload fits reads called) step =
      elim (Option-cases (find_peer i b.live)) [
        | inl gone ↦ ground arith
        | inr (c, there) ↦
            rw
              (
                there,
                answer_carried e b c bytes MessageType.publish Origin.client key payload (reads e),
                publishes_in_read e bytes MessageType.publish Origin.client key payload (reads e),
                sent_to-append j (answer e b c MessageType.publish key payload).1
                    (packet_destroy 0 ∷ []),
              )
              (rw (append-nil (sent_to j (answer e b c MessageType.publish key payload).1))
                (published_sends c key payload there fits))
      ]
