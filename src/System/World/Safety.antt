-- ===== src/System/World/Safety.antt =====
-- What poll() returns in every schedule, and that no round of the server's loop throws.
use mathlib.Core.List.{Mem}
use spraybus.Prelude.{
  ℕ, ◌+◌, ◌^◌, ◌<◌, ◌≡◌, ◌≢◌, refl, ◌∙◌, List, [], ◌∷◌, Option, none, some, arith, length, ◌⊎◌, inl,
  inr, Option-cases, All, word_key,
}
use spraybus.Containers.Dict
use spraybus.Word.{Endian}
use spraybus.Exec.{Result, ok}
use spraybus.Text.{text}
use spraybus.Protocol.Enum.{Origin}
use spraybus.TopicMap
use spraybus.TopicMap.{Topic}
use spraybus.TopicMap.Names.{key_of}
use spraybus.Server.Bus.{Bus, empty_bus}
use spraybus.Networking.Client as Net
use spraybus.Client.{Client, FanoutMessage, topic_name, poll}
use spraybus.Client.Cache.{Agrees}
use spraybus.Client.Polling.{polls}
use spraybus.System.World.{
  World, Item, Publication, Action, new_world, run, polled, ready, serve_result,
}
use spraybus.System.World.Packets.{Honest, response, fanout_of}
use spraybus.System.World.Invariant.{Holds}
use spraybus.System.World.Serving.{served}
use spraybus.System.World.Runs.{new_world-Holds, run-Holds}

-- The name that a client shows for a key: the server's, or "unknown".
name_shown :
    (h : Endian) (keys : Topic → Option ℕ) (c : Client) (key : ℕ)
    → Agrees keys c
    → (topic_name h c key ≡ text "unknown") ⊎ (keys (topic_name h c key) ≡ some key)
unfolding topic_name
name_shown h keys c key a = elim (Option-cases (Dict.get c.inverse_topic_map key)) [
  | inl new ↦ inl (rw (topic_name, new) refl)
  | inr (t, known) ↦ inr (rw (topic_name, known) (a.named t key known))
]

-- What poll() may return: nothing, or what another client has published, with a name for its key.
abbrev pub PollsHonestly : Result (Option FanoutMessage) → ℕ → World → Type 0
PollsHonestly result i w =
    (result ≡ ok none)
    ⊎ ((p : Publication) × (t : Topic) × (result
          ≡ ok (some (record { topic_key = p.key; topic = t; payload = p.payload })))
        × Mem p w.published
        × (p.peer ≢ i)
        × ((t ≡ text "unknown") ⊎ (TopicMap.get w.server.fields.topic_map t ≡ some p.key)))

module _ (h : Endian) (n : ℕ) (b : Bus) (w : World) (holds : Holds n b w) (i : ℕ) where
  polls_honestly :
      (down : List (List ℕ))
      → All (Honest w.published i) down
      → PollsHonestly (poll h (w.links i).client (ready down)) i w
  polls_honestly [] all = inl (polls h (w.links i).client).3
  polls_honestly (bytes ∷ rest) all =
      let packet : Net.Received = record { address = 0; bytes = bytes } in
      let c = (w.links i).client in
      elim all.0 [
        | response key name reads ↦
            let (m, parsed, type, _, _, _) = reads h in
            inl ((polls h c).1 packet m parsed (λ e. cc (type, e)))
        | fanout_of p other called reads ↦ inr (
          p,
          topic_name h c p.key,
          (polls h c).0 packet Origin.server p.key p.payload (reads h),
          called,
          other,
          elim (name_shown h (key_of b.names) c p.key (holds.linked i).knows) [
            | inl unknown ↦ inl unknown
            | inr named ↦ inr (holds.shows.topics.at_name _ ∙ named)
          ],
        )
      ]

served_or_idle :
    (e : Endian) (n : ℕ) (b : Bus) (w : World) (h : Holds n b w)
    → n + 4 < 2 ^ 64
    → (i : ℕ) (items : List Item) → (w.links i).up ≡ items
    → serve_result e w i items ≡ ok tt
unfolding serve_result
served_or_idle e n b w h few i [] queue = refl
served_or_idle e n b w h few i (item ∷ items) queue =
    (served e n b w h few i item items queue).returned

-- From a server that has just started, any schedule of fewer than 2 ^ 64 - 4 actions: clients open
-- and close, resolve names, subscribe and publish, the server takes what has arrived, and clients
-- poll. Then no connection has an item that makes the server's loop throw, and poll() of a client
-- does not throw: it returns nothing, or a message with the key and the payload of a publish of a
-- client of another connection. The name of the message is "unknown", or the server's map has this
-- key for it.
pub polled_was_published :
    (e : Endian) (order : ℕ → Endian) (actions : List Action) (i : ℕ)
    → length actions + 4 < 2 ^ 64
    → let w = run e order new_world actions in
      (serve_result e w i (w.links i).up ≡ ok tt) × PollsHonestly (polled e order w i) i w
unfolding polled
polled_was_published e order actions i few =
    let n = length actions in
    let w = run e order new_world actions in
    let (b, holds) =
      run-Holds e order 0 empty_bus new_world actions new_world-Holds (omega arith) in
    (
      served_or_idle e (0 + n) b w holds (omega arith) i (w.links i).up refl,
      polls_honestly (order i) (0 + n) b w holds i (w.links i).down (holds.linked i).receives,
    )
