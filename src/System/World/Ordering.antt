-- ===== src/System/World/Ordering.antt =====
-- The order in which messages reach a client.
use spraybus.Prelude.{
  Bool, select, select_hit, select_miss, ℕ, ◌+◌, ◌^◌, ◌<◌, refl, List, [], ◌∷◌, ◌++◌, map, arith,
  length, ◌==◌, Bool-cases, inl, inr, text_key,
}
use mathlib.Core.List.{Sublist, nil-sublist, append_assoc, append-nil, map-append}
use mathlib.Core.List.Sublist as Sub
use spraybus.Word.{Endian}
use spraybus.Server.Bus.{Bus, empty_bus}
use spraybus.System.World.{Item, Publication, World, Action, serve, new_world, act, run}
use spraybus.Networking.Server.Table.{find_peer}
use spraybus.System.World.Interests.{Interest, member, meant_by, meant_now}
use spraybus.System.World.Queues.{reopens, kept_by, act-Balanced}
use spraybus.System.World.Addressed.{fresh_meant}
use spraybus.System.World.Invariant.{Holds}
use spraybus.System.World.Runs.{new_world-Holds, act-Holds}
use spraybus.System.World.Histories.{
  Content, content, waiting, next_publish, item_publish, taken_by, given_by, taken, given,
  from_peer, pending,
}
use spraybus.System.World.Departures.{run-Departs}

-- What is not given now is still waiting, or was never published.
abbrev pub InOrder : List Content → List Content → List Content → List Publication → Type 0
InOrder now later before taken_now = Sublist (now ++ later) (before ++ map content taken_now)

select-Sublist : {A : Type 0} (test : A → Bool) (xs : List A) → Sublist (select test xs) xs
select-Sublist test [] = nil-sublist _
select-Sublist test (x ∷ xs) = elim (Bool-cases (test x)) [
  | inl hit ↦
      rw (select_hit test x xs hit) (Sub.append (Sub.refl (x ∷ [])) (select-Sublist test xs))
  | inr miss ↦
      rw (select_miss test x xs miss) (Sub.append (nil-sublist (x ∷ [])) (select-Sublist test xs))
]

module _ (e : Endian) (order : ℕ → Endian) (i : ℕ) where
  -- What a poll() does not give is kept, unless the connection is a new one.
  kept-Sublist :
      (w : World) (action : Action)
      → Sublist (kept_by (order i) i w action) (waiting (order i) (w.links i).down)
  kept-Sublist w action = elim (Bool-cases (reopens i w action)) [
    | inl anew ↦ rw anew (nil-sublist _)
    | inr same ↦ rw same (Sub.refl _)
  ]

  -- What is meant for a client has been published.
  meant-Sublist :
      (keys : Interest) (j : ℕ) (items : List Item)
      → Sublist (meant_by e i keys j items) (map content (next_publish e j items))
  meant-Sublist keys j [] = Sub.refl []
  meant-Sublist keys j (item ∷ items) = elim (Bool-cases (j == i)) [
    | inl here ↦ rw here (nil-sublist _)
    | inr away ↦ rw away (select-Sublist (λ c. keys c.0) (map content (item_publish e j item)))
  ]

  meant_now-Sublist :
      (keys : Interest) (w : World) (action : Action)
      → Sublist (meant_now e order i keys w action) (map content (taken_by e order w action))
  meant_now-Sublist keys w (serve j) = meant-Sublist keys j (w.links j).up
  meant_now-Sublist keys w _ = Sub.refl []

  act_step :
      (n : ℕ) (b : Bus) (w : World) (action : Action)
      → Holds n b w
      → n + 4 < 2 ^ 64
      → InOrder
          (given_by e order i w action)
          (waiting (order i) ((act e order w action).links i).down)
          (waiting (order i) (w.links i).down)
          (taken_by e order w action)
  act_step n b w action h few =
      let keys = member (find_peer i b.live) in
      rw
        (
          act-Balanced e order n b w h few i action,
          fresh_meant e order n b w h few i keys (λ k. refl) action,
        )
        (Sub.append (kept-Sublist w action) (meant_now-Sublist keys w action))

-- Two stretches of a schedule.
then-InOrder :
    (given1 given2 mid end before : List Content) (taken1 taken2 : List Publication)
    → InOrder given1 mid before taken1
    → InOrder given2 end mid taken2
    → InOrder (given1 ++ given2) end before (taken1 ++ taken2)
then-InOrder given1 given2 mid end before taken1 taken2 first rest =
    let inner = Sub.append (Sub.refl given1) rest in
    let outer = Sub.append first (Sub.refl (map content taken2)) in
    rw
      (
        append_assoc given1 given2 end,
        map-append content taken1 taken2,
        ← append_assoc before (map content taken1) (map content taken2),
      )
      (Sub.trans inner (rw (← append_assoc given1 mid (map content taken2)) outer))

module _ (e : Endian) (order : ℕ → Endian) (i : ℕ) where
  pub run_order :
      (n : ℕ) (b : Bus) (w : World) (actions : List Action)
      → Holds n b w
      → n + length actions + 4 < 2 ^ 64
      → InOrder
          (given e order i w actions)
          (waiting (order i) ((run e order w actions).links i).down)
          (waiting (order i) (w.links i).down)
          (taken e order w actions)
  unfolding given taken run
  run_order n b w [] h few = rw (append-nil (waiting (order i) (w.links i).down)) (Sub.refl _)
  run_order n b w (action ∷ actions) h few =
      let w' = act e order w action in
      let first = act_step e order i n b w action h (omega arith) in
      let (b', h', _) = act-Holds e order n b w h action (omega arith) in
      let rest = run_order (n + 1) b' w' actions h' (omega arith) in
      then-InOrder _ (given e order i w' actions) _ _ _ _ (taken e order w' actions) first rest

-- A server has just started and no client is open. After any schedule of fewer than 2 ^ 64 - 4
-- actions: the messages that the poll() calls of one client have given, followed by those in the
-- packets that wait for it, are among the publishes that the server has taken, in the same order
-- and each as often at most; and what the server has taken from any peer, followed by what waits in
-- the peer's queue, is in the same way among what the peer has published, in the order of the
-- calls. Clients may close their connections, which may lose the end of their queues.
pub messages_in_order :
    (e : Endian) (order : ℕ → Endian) (actions : List Action) (i j : ℕ)
    → length actions + 4 < 2 ^ 64
    → let w = run e order new_world actions in
      Sublist
        (given e order i new_world actions ++ waiting (order i) (w.links i).down)
        (map content (taken e order new_world actions))
      × Sublist
          (from_peer j (taken e order new_world actions) ++ pending e j (w.links j).up)
          (from_peer j w.published)
unfolding new_world
messages_in_order e order actions i j few = (
  run_order e order i 0 empty_bus new_world actions new_world-Holds (omega (arith, few)),
  run-Departs e order j [] new_world actions (Sub.refl []),
)
