-- ===== src/System/World/Serving.antt =====
-- The server takes an item of a connection, and everything still holds.
use spraybus.Prelude.{
  ℕ, ◌+◌, ◌^◌, ◌<◌, ◌≡◌, ap, sym, ◌∙◌, subst, Bool, List, [], ◌∷◌, some, arith, All, Option-cases,
  inl, inr, word_key, text_key,
}
use spraybus.Word.{Endian}
use spraybus.Server.{dispatch}
use spraybus.Server.Bus.{Bus, bus_step}
use spraybus.Server.Refinement.{Refines}
use spraybus.Server.Runs.{dispatch-Refines, bus_step_grows}
use spraybus.System.{idle}
use spraybus.System.Resolve.{idle-Shows}
use spraybus.System.World.{Item, World, update, event_of, take_item}
use spraybus.System.World.Events.{
  lifecycle, advance, lifecycle-none, has_record, item-Allows, others_stay, has_record-after, found,
}
use spraybus.System.World.Packets.{Sent, item-Honest}
use spraybus.System.World.Invariant.{Holds, update-InStep, delivered-InStep}

module _ (e : Endian) (n : ℕ) (b : Bus) (w : World) (h : Holds n b w) (few : n + 4 < 2 ^ 64) (i : ℕ)
    (item : Item) (items : List Item) (queue : (w.links i).up ≡ item ∷ items) where
  pub steps :
      (known : Bool) × (advance (has_record b i) item ≡ some known)
      × (lifecycle (some known) items ≡ some (w.links i).is_open)
  steps =
      let alive : lifecycle (advance (has_record b i) item) items ≡ some (w.links i).is_open =
        ap (lifecycle (some (has_record b i))) (sym queue) ∙ (h.linked i).alive in
      elim (Option-cases (advance (has_record b i) item)) [
        | inl never ↦ cc (alive, lifecycle-none items, ap (λ k. lifecycle k items) never)
        | inr (known, step) ↦ (known, step, ap (λ k. lifecycle k items) (sym step) ∙ alive)
      ]

  pub sends_here : Sent w.published i item × All (Sent w.published i) items
  sends_here = subst (All (Sent w.published i)) queue (h.linked i).sends

  pub served :
      Refines [] (dispatch e (idle w.server) (event_of i item)) (bus_step e b (event_of i item))
  served =
      dispatch-Refines e (idle w.server) b (idle-Shows w.server b h.shows) (event_of i item)
        (item-Allows e b h.shows.table.distinct i item steps.0 steps.1) (omega (arith, h.ids))
        (omega (arith, h.names))

  abbrev pub b' : Bus
  b' = (bus_step e b (event_of i item)).0

  pub take_item-Holds : Holds (n + 1) b' (take_item e w i (item ∷ items))
  unfolding take_item
  take_item-Holds =
      let (honest, same_names) =
        item-Honest e w.published i b h.shows.table.distinct item sends_here.0 in
      let grows = bus_step_grows e b (event_of i item) in
      record {
        shows = served.shows;
        ids = omega (arith, grows.1, h.ids);
        names = omega (arith, grows.0, h.names);
        linked =
            delivered-InStep w.published b b' (update w.links i (record (w.links i) { up = items }))
              _ _ served.sent honest
              (update-InStep w.published b' w.links i _
                (λ j away. record {
                  alive =
                      ap (λ r. lifecycle (some (found r)) (w.links j).up)
                        (others_stay e b h.shows.table.distinct i item j away)
                      ∙ (h.linked j).alive;
                  sends = (h.linked j).sends;
                  receives = (h.linked j).receives;
                  knows = rw same_names (h.linked j).knows;
                })
                (record {
                  alive =
                      ap (λ k. lifecycle (some k) items)
                        (has_record-after e b h.shows.table.distinct i item steps.0 steps.1)
                      ∙ steps.2;
                  sends = sends_here.1;
                  receives = (h.linked i).receives;
                  knows = rw same_names (h.linked i).knows;
                }));
      }
