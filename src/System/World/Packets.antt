-- ===== src/System/World/Packets.antt =====
-- The packets between the clients and the server: what is in the queues, and what one item of a
-- connection makes the server send.
use mathlib.Core.List.{Mem, mem-append_left}
use spraybus.Prelude.{
  ℕ, ◌^◌, ◌<◌, ◌≡◌, ◌≢◌, refl, ap, sym, ◌∙◌, Bool, true, List, [], ◌∷◌, ◌++◌, map, some, arith,
  ◌==◌, All, All-append, All-imp, Option-cases, Bool-cases, inl, inr, select, word_key,
}
use spraybus.Word.{Endian}
use spraybus.Protocol.Enum.{Origin, MessageType}
use spraybus.Protocol.Message
use spraybus.Protocol.Message.{new_constructor}
use spraybus.Protocol.RoundTrip.{Carries, packets_carry}
use spraybus.Networking.Server.{
  Client as Record, Effect, send, broadcast, packet_destroy, host_destroy,
}
use spraybus.Networking.Server.Table.{find_peer, Distinct}
use spraybus.Server.{ClientData, wants}
use spraybus.Server.Bus.{Bus, bus_step, answer}
use spraybus.Server.Delivery.{answer_carried, named_server}
use spraybus.System.World.{Item, joins, leaves, packet, Publication, event_of, sent_to}

-- A message as every host reads it from its packet.
abbrev pub Reads : List ℕ → MessageType → Origin → ℕ → List ℕ → Type 0
Reads bytes type origin key payload = (h : Endian) → Carries h bytes type origin key payload

-- The items that the client at a peer sends, when these calls of publish were made.
pub data Sent (published : List Publication) (i : ℕ) : Item → Type 0 where
  joined : Sent published i joins
  left : Sent published i leaves
  subscribed :
      (bytes : List ℕ) (key : ℕ)
      → key < 2 ^ 64
      → Reads bytes MessageType.subscribe Origin.client key []
      → Sent published i (packet bytes)
  publishes :
      (bytes : List ℕ) (key : ℕ) (payload : List ℕ)
      → key < 2 ^ 64
      → Reads bytes MessageType.publish Origin.client key payload
      → Mem (record { peer = i; key = key; payload = payload }) published
      → Sent published i (packet bytes)

-- The packets that the server sends to a peer: an answer, or what another client has published.
pub data Honest (published : List Publication) (i : ℕ) (bytes : List ℕ) : Type 0 where
  response :
      (key : ℕ) (name : List ℕ)
      → Reads bytes MessageType.topic_response Origin.server key name
      → Honest published i bytes
  fanout_of :
      (p : Publication)
      → p.peer ≢ i
      → Mem p published
      → Reads bytes MessageType.fanout Origin.server p.key p.payload
      → Honest published i bytes

pub Sent-later :
    (old : List Publication) (new : Publication) (i : ℕ) (item : Item)
    → Sent old i item
    → Sent (old ++ new ∷ []) i item
Sent-later old new i joins joined = joined
Sent-later old new i leaves left = left
Sent-later old new i (packet _) (subscribed bytes key fits reads) = subscribed bytes key fits reads
Sent-later old new i (packet _) (publishes bytes key payload fits reads called) =
    publishes bytes key payload fits reads (mem-append_left (new ∷ []) called)

pub Honest-later :
    (old : List Publication) (new : Publication) (i : ℕ) (bytes : List ℕ)
    → Honest old i bytes
    → Honest (old ++ new ∷ []) i bytes
Honest-later old new i bytes (response key name reads) = response key name reads
Honest-later old new i bytes (fanout_of p other called reads) =
    fanout_of p other (mem-append_left (new ∷ []) called) reads

-- No other record has the peer of this one.
others_elsewhere :
    (i : ℕ) (c : Record ClientData) (live : List (Record ClientData))
    → Distinct live
    → find_peer i live ≡ some c
    → All (λ d. d.id ≢ c.id → d.peer ≢ i) live
others_elsewhere i c [] distinct h = tt
others_elsewhere i c (d ∷ ds) distinct h = elim (Bool-cases (d.peer == i)) [
  | inl here ↦
      let same : d ≡ c = ground arith in
      (
        λ n. absurd (n (ap (λ x. x.id) same)),
        All-imp ds (λ x n m e. n.1 (ground (arith, e))) distinct.0,
      )
  | inr later ↦ (λ n. ground arith, others_elsewhere i c ds distinct.1 (ground arith))
]

pub sent_to-append :
    (i : ℕ) (xs ys : List Effect) → sent_to i (xs ++ ys) ≡ sent_to i xs ++ sent_to i ys
unfolding sent_to
sent_to-append i [] ys = refl
sent_to-append i (send p bytes ∷ xs) ys = ground (arith, sent_to-append i xs ys)
sent_to-append i (broadcast bytes ∷ xs) ys = ap (◌∷◌ bytes) (sent_to-append i xs ys)
sent_to-append i (packet_destroy p ∷ xs) ys = sent_to-append i xs ys
sent_to-append i (host_destroy ∷ xs) ys = sent_to-append i xs ys

module _ (P : List ℕ → Type 0) (i : ℕ) where
  pub sent_to_one :
      (peer p : ℕ) (bytes : List ℕ)
      → P bytes
      → All P (sent_to i (send peer bytes ∷ packet_destroy p ∷ []))
  unfolding sent_to
  sent_to_one peer p bytes h = ground (arith, h)

  -- One packet, sent to the records that are picked.
  pub sent_to-each :
      (test : Record ClientData → Bool) (bytes : List ℕ) (live : List (Record ClientData))
      → All (λ d. test d ≡ true → d.peer ≡ i → P bytes) live
      → All P (sent_to i (map (λ (d : Record ClientData). send d.peer bytes) (select test live)))
  unfolding sent_to
  sent_to-each test bytes [] h = tt
  sent_to-each test bytes (d ∷ ds) h = ground (arith, h.0, sent_to-each test bytes ds h.1)

wants_other : (sender key : ℕ) (d : Record ClientData) → wants sender key d ≡ true → d.id ≢ sender
unfolding wants
wants_other sender key d h = ground arith

-- What one item makes the server send, and that it gives no name a key.
module _ (e : Endian) (published : List Publication) (i : ℕ) (b : Bus)
    (distinct : Distinct b.live) where
  abbrev SendsHonestly : Item → Type 0
  SendsHonestly item =
      let (b', effects) = bus_step e b (event_of i item) in
      ((j : ℕ) → All (Honest published j) (sent_to j effects)) × (b'.names ≡ b.names)

  none_sent : (j : ℕ) → All (Honest published j) (sent_to j [])
  unfolding sent_to
  none_sent j = tt

  released :
      (j : ℕ) (effects : List Effect)
      → All (Honest published j) (sent_to j effects)
      → All (Honest published j) (sent_to j (effects ++ packet_destroy 0 ∷ []))
  unfolding sent_to
  released j effects h =
      rw (sent_to-append j effects (packet_destroy 0 ∷ []))
        (All-append (Honest published j) (sent_to j effects) [] h tt)

  fans_out :
      (c : Record ClientData) (key : ℕ) (payload : List ℕ) (j : ℕ)
      → find_peer i b.live ≡ some c
      → key < 2 ^ 64
      → Mem (record { peer = i; key = key; payload = payload }) published
      → All (Honest published j) (sent_to j (answer e b c MessageType.publish key payload).1)
  fans_out c key payload j h fits called =
      let bytes = (Message.fanout e new_constructor key payload Origin.server).1 in
      let reads : Reads bytes MessageType.fanout Origin.server key payload = λ host.
        (packets_carry e host new_constructor Origin.server key payload named_server fits).5 in
      sent_to-each (Honest published j) j (wants c.id key) bytes b.live (
        All-imp b.live
          (λ d away wanted at.
            fanout_of (record { peer = i; key = key; payload = payload })
              (λ same. away (wants_other c.id key d wanted) (at ∙ sym same)) called reads)
          (others_elsewhere i c b.live distinct h))

  pub item-Honest : (item : Item) → Sent published i item → SendsHonestly item
  item-Honest joins joined = (none_sent, refl)
  item-Honest leaves left = elim (Option-cases (find_peer i b.live)) [
    | inl gone ↦ rw gone (none_sent, refl)
    | inr (c, h) ↦ rw h (none_sent, refl)
  ]
  item-Honest (packet _) (subscribed bytes key fits reads) =
      elim (Option-cases (find_peer i b.live)) [
        | inl gone ↦ rw gone (none_sent, refl)
        | inr (c, h) ↦
            rw (h, answer_carried e b c bytes MessageType.subscribe Origin.client key [] (reads e))
              (λ j. released j [] (none_sent j), refl)
      ]
  item-Honest (packet _) (publishes bytes key payload fits reads called) =
      elim (Option-cases (find_peer i b.live)) [
        | inl gone ↦ rw gone (none_sent, refl)
        | inr (c, h) ↦
            rw
              (
                h,
                answer_carried e b c bytes MessageType.publish Origin.client key payload (reads e),
              )
              (λ j. released j _ (fans_out c key payload j h fits called), refl)
      ]
