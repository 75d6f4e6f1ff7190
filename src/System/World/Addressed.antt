-- ===== src/System/World/Addressed.antt =====
-- What an action brings to a client is what is meant for it, and the server has its keys.
use spraybus.Prelude.{ℕ, ◌+◌, ◌^◌, ◌<◌, ◌≡◌, refl, sym, ap, ◌∙◌, List, [], ◌∷◌}
use spraybus.Word.{Endian}
use spraybus.Server.Bus.{Bus}
use spraybus.System.World.{Item, World, Action, serve, act}
use spraybus.System.World.Invariant.{Holds}
use spraybus.System.World.Serving.{steps, sends_here}
use spraybus.System.World.Runs.{act-Holds, next_bus, bus_after}
use spraybus.System.World.Interests.{
  Interest, Follows, member, after_next, meant_by, interest_by, meant_now, item-Follows,
}
use spraybus.System.World.Copies.{item_sends}
use spraybus.System.World.Queues.{brought, fresh_by}

module _ (e : Endian) (order : ℕ → Endian) (n : ℕ) (b : Bus) (w : World) (h : Holds n b w)
    (few : n + 4 < 2 ^ 64) (i : ℕ) (keys : Interest) (follows : Follows i keys b) where
  brought_meant :
      (j : ℕ) (items : List Item)
      → (w.links j).up ≡ items
      → brought e (order i) i b j items ≡ meant_by e i keys j items
  brought_meant j [] queue = refl
  brought_meant j (item ∷ items) queue =
      let (known, step, _) = steps e n b w h few j item items queue in
      item_sends e (order i) w.published j i b h.shows.table.distinct keys follows item items known
        (sends_here e n b w h few j item items queue).0 step

  pub fresh_meant :
      (action : Action) → fresh_by e (order i) i b w action ≡ meant_now e order i keys w action
  fresh_meant (serve j) = brought_meant j (w.links j).up refl
  fresh_meant _ = refl

  next-Follows :
      (j : ℕ) (items : List Item)
      → (w.links j).up ≡ items
      → Follows i (after_next e i keys j items) (next_bus e b j items)
  next-Follows j [] queue = follows
  next-Follows j (item ∷ items) queue =
      let (known, step, _) = steps e n b w h few j item items queue in
      item-Follows e w.published i b h.shows.table.distinct keys follows j item items known
        (sends_here e n b w h few j item items queue).0 step

  after-Follows :
      (action : Action) → Follows i (interest_by e order i keys w action) (bus_after e b w action)
  after-Follows (serve j) = next-Follows j (w.links j).up refl
  after-Follows _ = follows

  -- The server still has the client's keys after an action.
  pub act-Follows :
      (action : Action)
      → (b' : Bus) × Holds (n + 1) b' (act e order w action)
        × Follows i (interest_by e order i keys w action) b'
  act-Follows action =
      let (b', held, same) = act-Holds e order n b w h action few in
      (b', held, λ k. after-Follows action k ∙ ap (λ r. member r k) (sym (same i)))
