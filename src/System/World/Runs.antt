-- ===== src/System/World/Runs.antt =====
-- Every schedule of actions keeps what holds between two actions.
use spraybus.Prelude.{
  ℕ, ◌+◌, ◌^◌, ◌<◌, ◌≡◌, refl, ap, sym, subst, true, List, [], ◌∷◌, ◌++◌, some, arith, length, ltb,
  ◌&&◌, Bool-cases, Option-cases, inl, inr, text_key,
}
use native.Mathlib.Nat.{add-zero}
use mathlib.Core.List.{mem-append_right, mem-cons_self}
use spraybus.Containers.Dict
use spraybus.Word.{Endian}
use spraybus.Protocol.Enum.{Origin}
use spraybus.Protocol.RoundTrip.{packets_carry}
use spraybus.Server.Bus.{Bus, empty_bus, bus_step}
use spraybus.Server.Runs.{new_server-Shows}
use spraybus.Server.Delivery.{named_client}
use spraybus.Client.{publish_key, subscribe_key}
use spraybus.Client.Cache.{new_client-Agrees}
use spraybus.System.World.{
  Item, packet, Link, Publication, World, new_world, Action, open_client, close_client, poll_client,
  serve, publish, subscribe, resolve, update, call, is_unused, take_item, act, run, event_of,
}
use spraybus.Networking.Server.Table.{find_peer}
use spraybus.System.World.Packets.{subscribed, publishes}
use spraybus.System.World.Invariant.{
  InStep, Holds, update-InStep, later-InStep, opened, queued, closed, polled_once,
}
use spraybus.System.World.Serving.{take_item-Holds}
use spraybus.System.World.Resolving.{same_records, look_up-Holds, closed_bus}

pub new_world-Holds : Holds 0 empty_bus new_world
unfolding new_world
new_world-Holds = record {
  shows = new_server-Shows;
  ids = omega arith;
  names = omega arith;
  linked = λ i. record { alive = refl; sends = tt; receives = tt; knows = new_client-Agrees _ _ _ };
}

module _ (n : ℕ) (b : Bus) (w : World) (h : Holds n b w) where
  -- A client did something that the server has not seen.
  relinked :
      (published : List Publication) (i : ℕ) (l : Link)
      → ((j : ℕ) → InStep published b j (w.links j))
      → InStep published b i l
      → Holds (n + 1) b (record w { links = update w.links i l; published = published })
  relinked published i l others own = record {
    shows = h.shows;
    ids = omega (arith, h.ids);
    names = omega (arith, h.names);
    linked = update-InStep published b w.links i l (λ j away. others j) own;
  }

  unchanged : Holds (n + 1) b w
  unchanged = record {
    shows = h.shows;
    ids = omega (arith, h.ids);
    names = omega (arith, h.names);
    linked = h.linked;
  }

-- The bus after an action, as far as the records of the clients go.
abbrev pub next_bus : Endian → Bus → ℕ → List Item → Bus
next_bus e b i [] = b
next_bus e b i (item ∷ items) = (bus_step e b (event_of i item)).0

abbrev pub bus_after : Endian → Bus → World → Action → Bus
bus_after e b w (serve i) = next_bus e b i (w.links i).up
bus_after e b w other = b

module _ (e : Endian) (order : ℕ → Endian) where
  module _ (n : ℕ) (b : Bus) (w : World) (h : Holds n b w) where
    pub published-Holds :
        (i key : ℕ) (payload : List ℕ)
        → (w.links i).is_open ≡ true
        → key < 2 ^ 64
        → Holds (n + 1) b (record w {
          links = update w.links i (call (w.links i) (λ c. publish_key (order i) c key payload));
          published = w.published ++ record { peer = i; key = key; payload = payload } ∷ [];
        })
    unfolding publish_key
    published-Holds i key payload on fits =
        let p : Publication = record { peer = i; key = key; payload = payload } in
        let l = w.links i in
        let later : (j : ℕ) → InStep (w.published ++ p ∷ []) b j (w.links j) =
          λ j. later-InStep w.published p b j (w.links j) (h.linked j) in
        relinked n b w h (w.published ++ p ∷ []) i _ later (
          queued (w.published ++ p ∷ []) b i l (later i) (packet _) _ l.is_open on
            (ap some (sym on))
            (publishes _ key payload fits
              (λ host.
                (packets_carry (order i) host l.client.protocol_constructor Origin.client key
                  payload named_client fits).2)
              (mem-append_right w.published mem-cons_self))
            refl refl)

    pub subscribed-Holds :
        (i key : ℕ)
        → (w.links i).is_open ≡ true
        → key < 2 ^ 64
        → Holds (n + 1) b (record w {
          links = update w.links i (call (w.links i) (λ c. subscribe_key (order i) c key));
        })
    unfolding subscribe_key
    subscribed-Holds i key on fits =
        let l = w.links i in
        relinked n b w h w.published i _ h.linked (
          queued w.published b i l (h.linked i) (packet _) _ l.is_open on (ap some (sym on))
            (subscribed _ key fits (λ host.
              (packets_carry (order i) host l.client.protocol_constructor Origin.client key []
                named_client fits).3))
            refl refl)

    taken-Holds :
        (i : ℕ) (items : List Item)
        → n + 4 < 2 ^ 64
        → (w.links i).up ≡ items
        → (b' : Bus) × Holds (n + 1) b' (take_item e w i items)
          × ((k : ℕ) → find_peer k b'.live ≡ find_peer k (next_bus e b i items).live)
    taken-Holds i [] few queue = (b, unfold take_item in unchanged n b w h, λ k. refl)
    taken-Holds i (item ∷ items) few queue =
        (_, take_item-Holds e n b w h few i item items queue, λ k. refl)

    pub act-Holds :
        (action : Action)
        → n + 4 < 2 ^ 64
        → (b' : Bus) × Holds (n + 1) b' (act e order w action)
          × ((k : ℕ) → find_peer k b'.live ≡ find_peer k (bus_after e b w action).live)
    unfolding act
    act-Holds (open_client i) few = elim (Bool-cases (is_unused (w.links i))) [
      | inl free ↦ (
        b,
        rw free (
            relinked n b w h w.published i _ h.linked
              (opened w.published b i (w.links i) (h.linked i) free)),
        λ k. refl,
      )
      | inr busy ↦ (b, rw busy (unchanged n b w h), λ k. refl)
    ]
    act-Holds (close_client i kept) few = elim (Bool-cases (w.links i).is_open) [
      | inl on ↦ (
        b,
        rw on (
            relinked n b w h w.published i _ h.linked
              (closed w.published b i (w.links i) (h.linked i) kept on)),
        λ k. refl,
      )
      | inr off ↦ (b, rw off (unchanged n b w h), λ k. refl)
    ]
    act-Holds (poll_client i) few = (
      b,
      relinked n b w h w.published i _ h.linked
          (polled_once w.published b i (w.links i) (h.linked i)),
      λ k. refl,
    )
    act-Holds (serve i) few = taken-Holds i (w.links i).up few refl
    act-Holds (publish i key payload) few =
        elim (Bool-cases ((w.links i).is_open && ltb key (2 ^ 64))) [
          | inl allowed ↦ (
            b,
            rw allowed (published-Holds i key payload (ground arith) (ground arith)),
            λ k. refl,
          )
          | inr refused ↦ (b, rw refused (unchanged n b w h), λ k. refl)
        ]
    act-Holds (subscribe i key) few = elim (Bool-cases ((w.links i).is_open && ltb key (2 ^ 64))) [
      | inl allowed ↦
          (b, rw allowed (subscribed-Holds i key (ground arith) (ground arith)), λ k. refl)
      | inr refused ↦ (b, rw refused (unchanged n b w h), λ k. refl)
    ]
    act-Holds (resolve i visitor topic) few =
        elim (Option-cases (Dict.get (w.links i).client.topic_map topic)) [
          | inr (key, known) ↦ (b, rw (act, known) (unchanged n b w h), λ k. refl)
          | inl fresh ↦ elim (Bool-cases ((w.links i).is_open && is_unused (w.links visitor))) [
            | inl allowed ↦
                let free : is_unused (w.links visitor) ≡ true = ground arith in
                (
                  closed_bus e order n b w h few i visitor topic fresh free,
                  rw (act, fresh)
                      (rw allowed (look_up-Holds e order n b w h few i visitor topic fresh free)),
                  same_records e order n b w h few i visitor topic fresh free,
                )
            | inr refused ↦ (b, rw (act, fresh) (rw refused (unchanged n b w h)), λ k. refl)
          ]
        ]

  pub run-Holds :
      (n : ℕ) (b : Bus) (w : World) (actions : List Action)
      → Holds n b w
      → n + length actions + 4 < 2 ^ 64
      → (b' : Bus) × Holds (n + length actions) b' (run e order w actions)
  unfolding run
  run-Holds n b w [] h few = (b, rw (add-zero n) h)
  run-Holds n b w (action ∷ actions) h few =
      let (b1, first, _) = act-Holds n b w h action (omega arith) in
      let (b2, rest) = run-Holds (n + 1) b1 (act e order w action) actions first (omega arith) in
      (b2, subst (λ k. Holds k b2 (run e order (act e order w action) actions)) (omega arith) rest)
