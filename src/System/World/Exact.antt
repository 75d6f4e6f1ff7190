-- ===== src/System/World/Exact.antt =====
-- What a client is given, exactly: the messages that others publish to a key while the server has
-- the client as a subscriber of the key.
use spraybus.Prelude.{
  ℕ, ◌+◌, ◌^◌, ◌<◌, ◌≡◌, refl, sym, ap, ◌∙◌, subst, if◌then◌else◌, false, List, [], ◌∷◌, ◌++◌,
  arith, length,
}
use mathlib.Core.List.{append_assoc, append-nil}
use spraybus.Word.{Endian}
use spraybus.Server.Bus.{Bus, empty_bus}
use spraybus.System.World.{World, Action, new_world, act, run}
use spraybus.System.World.Histories.{Content, waiting, given_by, given}
use spraybus.System.World.Invariant.{Holds}
use spraybus.System.World.Runs.{new_world-Holds}
use spraybus.System.World.Interests.{Interest, Follows, interest_by, meant_now, interest, meant}
use spraybus.System.World.Queues.{reopens, fresh_by, act-Balanced}
use spraybus.System.World.Addressed.{fresh_meant, act-Follows}

module _ (e : Endian) (order : ℕ → Endian) (i : ℕ) where
  -- The connection of client `i` is not replaced by a new one in a schedule.
  unfoldable pub Stays : World → List Action → Type 0
  Stays w [] = Unit {0}
  Stays w (action ∷ actions) = (reopens i w action ≡ false) × Stays (act e order w action) actions

  run-Follows :
      (n : ℕ) (b : Bus) (w : World) (keys : Interest) (actions : List Action)
      → Holds n b w
      → Follows i keys b
      → n + length actions + 4 < 2 ^ 64
      → (b' : Bus) × Holds (n + length actions) b' (run e order w actions)
        × Follows i (interest e order i keys w actions) b'
  unfolding run interest
  run-Follows n b w keys [] h follows few = (b, subst (λ k. Holds k b w) (omega arith) h, follows)
  run-Follows n b w keys (action ∷ actions) h follows few =
      let (b1, h1, follows1) =
        act-Follows e order n b w h (omega (arith, few)) i keys follows action in
      let (b2, h2, follows2) =
        run-Follows (n + 1) b1 (act e order w action) (interest_by e order i keys w action) actions
          h1 follows1 (omega (arith, few)) in
      (
        b2,
        subst (λ k. Holds k b2 (run e order (act e order w action) actions)) (omega arith) h2,
        follows2,
      )

  then_exactly :
      (given1 given2 mid end before meant1 meant2 : List Content)
      → given1 ++ mid ≡ before ++ meant1
      → given2 ++ end ≡ mid ++ meant2
      → (given1 ++ given2) ++ end ≡ before ++ (meant1 ++ meant2)
  then_exactly given1 given2 mid end before meant1 meant2 first rest =
      append_assoc given1 given2 end
      ∙ ap (λ cs. given1 ++ cs) rest
      ∙ sym (append_assoc given1 mid meant2)
      ∙ ap (λ cs. cs ++ meant2) first
      ∙ append_assoc before meant1 meant2

  run_exact :
      (n : ℕ) (b : Bus) (w : World) (keys : Interest) (actions : List Action)
      → Holds n b w
      → Follows i keys b
      → n + length actions + 4 < 2 ^ 64
      → Stays w actions
      → given e order i w actions ++ waiting (order i) ((run e order w actions).links i).down
        ≡ waiting (order i) (w.links i).down ++ meant e order i keys w actions
  unfolding given meant run Stays
  run_exact n b w keys [] h follows few stays =
      sym (append-nil (waiting (order i) (w.links i).down))
  run_exact n b w keys (action ∷ actions) h follows few stays =
      let w' = act e order w action in
      let few_now : n + 4 < 2 ^ 64 = omega (arith, few) in
      let first : given_by e order i w action ++ waiting (order i) (w'.links i).down
          ≡ waiting (order i) (w.links i).down ++ meant_now e order i keys w action =
        rw (← fresh_meant e order n b w h few_now i keys follows action) (
          act-Balanced e order n b w h few_now i action
          ∙ ap
              (λ t.
                (if t then [] else waiting (order i) (w.links i).down)
                ++ fresh_by e (order i) i b w action)
              stays.0) in
      let (b', h', follows') = act-Follows e order n b w h few_now i keys follows action in
      then_exactly (given_by e order i w action) (given e order i w' actions)
        (waiting (order i) (w'.links i).down)
        (waiting (order i) ((run e order w' actions).links i).down)
        (waiting (order i) (w.links i).down) (meant_now e order i keys w action)
        (meant e order i (interest_by e order i keys w action) w' actions) first
        (run_exact (n + 1) b' w' (interest_by e order i keys w action) actions h' follows'
          (omega (arith, few)) stays.1)

-- A server has just started and no client is open. After any schedule `before`, `actions` is one in
-- which client `i` does not open a connection anew, and both together have fewer than 2 ^ 64 - 4
-- actions. Then what the poll() calls of the client give in `actions`, followed by what waits for
-- it afterwards, is exactly what waited for it before, followed by the messages of the publishes
-- that the server takes in `actions` from other peers while the client is subscribed to their key:
-- each once, in the order in which the server takes them. The client is subscribed to a key from
-- the time the server takes its subscribe packet until it takes the end of its connection.
pub messages_exact :
    (e : Endian) (order : ℕ → Endian) (before actions : List Action) (i : ℕ)
    → length before + length actions + 4 < 2 ^ 64
    → Stays e order i (run e order new_world before) actions
    → let w = run e order new_world before in
      given e order i w actions ++ waiting (order i) ((run e order w actions).links i).down
      ≡ waiting (order i) (w.links i).down
        ++ meant e order i (interest e order i (λ k. false) new_world before) w actions
messages_exact e order before actions i few stays =
    let (b, h, follows) =
      run-Follows e order i 0 empty_bus new_world (λ k. false) before new_world-Holds (λ k. refl)
        (omega (arith, few)) in
    run_exact e order i (0 + length before) b (run e order new_world before)
      (interest e order i (λ k. false) new_world before) actions h follows (omega (arith, few))
      stays
