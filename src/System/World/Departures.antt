-- ===== src/System/World/Departures.antt =====
-- What a client publishes reaches the server, in the order of the calls.
use mathlib.Core.List.{Sublist, nil-sublist, append_assoc, append-nil}
use mathlib.Core.List.Sublist as Sub
use spraybus.Prelude.{
  zero, suc, ℕ, ◌^◌, ◌<◌, ◌≡◌, refl, sym, ap, ◌∙◌, subst, List, [], ◌∷◌, ◌++◌, map, arith, ◌==◌,
  ltb, ◌&&◌, Bool-cases, Option-cases, inl, inr, text_key,
}
use spraybus.Containers.Dict
use spraybus.Word.{Endian}
use spraybus.Protocol.Enum.{Origin, MessageType}
use spraybus.Protocol.Message
use spraybus.Protocol.RoundTrip.{packets_carry}
use spraybus.Server.Delivery.{named_client}
use spraybus.Client.{publish_key, subscribe_key}
use spraybus.System.World.{
  Item, joins, leaves, survives, packet, Link, Publication, World, Action, open_client,
  close_client, poll_client, serve, publish, subscribe, resolve, update, is_unused, take_item,
  look_up, act, run,
}
use spraybus.System.World.Histories.{
  publication, publishes_in, publishes_in_read, item_publish, next_publish, pending, from_peer,
  select-append, pending-append, from_item, taken_by, taken,
}

same_Sublist : {xs ys : List Publication} → xs ≡ ys → Sublist xs ys
same_Sublist {xs} same = subst (Sublist xs) same (Sub.refl xs)

surviving-Sublist :
    (e : Endian) (i kept : ℕ) (up : List Item)
    → Sublist (pending e i (survives kept up)) (pending e i up)
surviving-Sublist e i kept [] = Sub.refl []
surviving-Sublist e i zero (packet bytes ∷ up) =
    Sub.append (nil-sublist (item_publish e i (packet bytes))) (surviving-Sublist e i zero up)
surviving-Sublist e i zero (joins ∷ up) = surviving-Sublist e i zero up
surviving-Sublist e i zero (leaves ∷ up) = surviving-Sublist e i zero up
surviving-Sublist e i (suc kept) (item ∷ up) =
    Sub.append (Sub.refl (item_publish e i item)) (surviving-Sublist e i kept up)

-- What the server has taken of peer `j`, and what waits, against what the peer has published.
abbrev pub Departs : Endian → ℕ → List Publication → World → Type 0
Departs e j done w =
    Sublist (from_peer j done ++ pending e j (w.links j).up) (from_peer j w.published)

module _ (e : Endian) (order : ℕ → Endian) (done : List Publication) (w : World) (j : ℕ)
    (h : Departs e j done w) where
  -- Some publishes leave the queue: they are taken, or lost.
  moved :
      (ps : List Publication) (up : List Item)
      → Sublist (from_peer j ps ++ pending e j up) (pending e j (w.links j).up)
      → Sublist (from_peer j (done ++ ps) ++ pending e j up) (from_peer j w.published)
  moved ps up fewer =
      rw
        (
          select-append (λ p. p.peer == j) done ps,
          append_assoc (from_peer j done) (from_peer j ps) (pending e j up),
        )
        (Sub.trans (Sub.append (Sub.refl (from_peer j done)) fewer) h)

  stays : Sublist (from_peer j (done ++ []) ++ pending e j (w.links j).up) (from_peer j w.published)
  stays = moved [] (w.links j).up (Sub.refl _)

  -- A publish is called, and enters the queue.
  entered :
      (p : Publication) (up : List Item)
      → pending e j up ≡ pending e j (w.links j).up ++ from_peer j (p ∷ [])
      → Sublist (from_peer j (done ++ []) ++ pending e j up) (from_peer j (w.published ++ p ∷ []))
  entered p up same =
      let same_end : from_peer j (done ++ []) ++ pending e j up
          ≡ (from_peer j done ++ pending e j (w.links j).up) ++ from_peer j (p ∷ []) =
        ap (λ ps. from_peer j ps ++ pending e j up) (append-nil done)
        ∙ ap (λ qs. from_peer j done ++ qs) same
        ∙ sym
            (append_assoc (from_peer j done) (pending e j (w.links j).up) (from_peer j (p ∷ []))) in
      subst (λ xs. Sublist xs (from_peer j (w.published ++ p ∷ []))) (sym same_end)
        (rw (select-append (λ q. q.peer == j) w.published (p ∷ []))
          (Sub.append h (Sub.refl (from_peer j (p ∷ [])))))

  taken_item :
      (i : ℕ) (items : List Item)
      → (w.links i).up ≡ items
      → Departs e j (done ++ next_publish e i items) (take_item e w i items)
  unfolding take_item
  taken_item i [] queue = stays
  taken_item i (item ∷ items) queue = elim (Bool-cases (i == j)) [
    | inl here ↦
        let at : i ≡ j = ground arith in
        let all_here : from_peer j (item_publish e i item) ≡ item_publish e i item =
          ground (arith, from_item e i j item, here) in
        rw (update, here)
          (moved (item_publish e i item) items (
            same_Sublist (
              ap (λ ps. ps ++ pending e j items) all_here
              ∙ ap (λ k. item_publish e k item ++ pending e j items) at
              ∙ ap (pending e j) (sym queue ∙ ap (λ k. (w.links k).up) at))))
    | inr away ↦
        let none_here : from_peer j (item_publish e i item) ≡ [] =
          ground (arith, from_item e i j item, away) in
        rw (update, away)
          (moved (item_publish e i item) (w.links j).up
            (same_Sublist (ap (λ ps. ps ++ pending e j (w.links j).up) none_here)))
  ]

  -- The queue of a connection changes, and what it publishes does not.
  requeued :
      (i : ℕ) (l : Link)
      → Sublist (pending e i l.up) (pending e i (w.links i).up)
      → Sublist
          (from_peer j (done ++ []) ++ pending e j (update w.links i l j).up)
          (from_peer j w.published)
  requeued i l same = elim (Bool-cases (i == j)) [
    | inl here ↦
        let at : i ≡ j = ground arith in
        rw (update, here)
          (moved [] l.up
            (subst (λ k. Sublist (pending e k l.up) (pending e k (w.links k).up)) at same))
    | inr away ↦ rw (update, away) (stays)
  ]

  published_item :
      (i : ℕ) (bytes : List ℕ) (l : Link) (p : Publication)
      → l.up ≡ (w.links i).up ++ packet bytes ∷ []
      → p.peer ≡ i
      → item_publish e i (packet bytes) ≡ p ∷ []
      → Sublist
          (from_peer j (done ++ []) ++ pending e j (update w.links i l j).up)
          (from_peer j (w.published ++ p ∷ []))
  published_item i bytes l p up by item = elim (Bool-cases (i == j)) [
    | inl here ↦
        let at : i ≡ j = ground arith in
        let own : from_peer j (p ∷ []) ≡ p ∷ [] = ground (arith, by, here) in
        rw (update, here)
          (entered p l.up (
            ap (pending e j) (up ∙ ap (λ k. (w.links k).up ++ packet bytes ∷ []) at)
            ∙ pending-append e j (w.links j).up (packet bytes ∷ [])
            ∙ ap (λ ps. pending e j (w.links j).up ++ ps)
                (append-nil (item_publish e j (packet bytes))
                  ∙ ap (λ k. item_publish e k (packet bytes)) (sym at)
                  ∙ item
                  ∙ sym own)))
    | inr away ↦
        let other : from_peer j (p ∷ []) ≡ [] = ground (arith, by, away) in
        rw (update, away)
          (entered p (w.links j).up (
            sym (
              ap (λ ps. pending e j (w.links j).up ++ ps) other
              ∙ append-nil (pending e j (w.links j).up))))
  ]

  -- One more item that is no publish.
  longer :
      (i : ℕ) (item : Item)
      → item_publish e i item ≡ []
      → pending e i ((w.links i).up ++ item ∷ []) ≡ pending e i (w.links i).up
  longer i item silent =
      pending-append e i (w.links i).up (item ∷ [])
      ∙ ap (λ ps. pending e i (w.links i).up ++ (ps ++ [])) silent
      ∙ append-nil (pending e i (w.links i).up)

  no_longer :
      (i : ℕ) (item : Item)
      → item_publish e i item ≡ []
      → Sublist (pending e i ((w.links i).up ++ item ∷ [])) (pending e i (w.links i).up)
  no_longer i item silent = same_Sublist (longer i item silent)

  -- A client closes its connection: what comes of its queue is in order.
  cut_short :
      (i kept : ℕ)
      → Sublist
          (pending e i (survives kept (w.links i).up ++ leaves ∷ []))
          (pending e i (w.links i).up)
  cut_short i kept =
      rw
        (
          pending-append e i (survives kept (w.links i).up) (leaves ∷ []),
          append-nil (pending e i (survives kept (w.links i).up)),
        )
        (surviving-Sublist e i kept (w.links i).up)

  publish_is :
      (i key : ℕ) (payload : List ℕ)
      → key < 2 ^ 64
      → map (publication i) (
          publishes_in e
            (Message.publish
              (order i)
              (w.links i).client.protocol_constructor
              key
              payload
              Origin.client).1)
        ≡ record { peer = i; key = key; payload = payload } ∷ []
  publish_is i key payload fits = ap (map (publication i)) (
      publishes_in_read e _ MessageType.publish Origin.client key payload
        (packets_carry (order i) e (w.links i).client.protocol_constructor Origin.client key payload
          named_client fits).2)

  subscribe_is :
      (i key : ℕ)
      → key < 2 ^ 64
      → map (publication i) (
          publishes_in e
            (Message.subscribe
              (order i)
              (w.links i).client.protocol_constructor
              key
              Origin.client).1)
        ≡ []
  subscribe_is i key fits = ap (map (publication i)) (
      publishes_in_read e _ MessageType.subscribe Origin.client key []
        (packets_carry (order i) e (w.links i).client.protocol_constructor Origin.client key []
          named_client fits).3)

  pub act-Departs :
      (action : Action) → Departs e j (done ++ taken_by e order w action) (act e order w action)
  unfolding act look_up publish_key subscribe_key
  act-Departs (open_client i) = elim (Bool-cases (is_unused (w.links i))) [
    | inl free ↦ rw free (requeued i _ (nil-sublist _))
    | inr busy ↦ rw busy (stays)
  ]
  act-Departs (close_client i kept) = elim (Bool-cases (w.links i).is_open) [
    | inl on ↦ rw on (requeued i _ (cut_short i kept))
    | inr off ↦ rw off (stays)
  ]
  act-Departs (poll_client i) = requeued i _ (Sub.refl _)
  act-Departs (serve i) = taken_item i (w.links i).up refl
  act-Departs (publish i key payload) =
      elim (Bool-cases ((w.links i).is_open && ltb key (2 ^ 64))) [
        | inl allowed ↦
            rw allowed (
              published_item i _ _ _ refl refl (publish_is i key payload (ground (arith, allowed))))
        | inr refused ↦ rw refused (stays)
      ]
  act-Departs (subscribe i key) = elim (Bool-cases ((w.links i).is_open && ltb key (2 ^ 64))) [
    | inl allowed ↦
        rw allowed
          (requeued i _ (no_longer i (packet _) (subscribe_is i key (ground (arith, allowed)))))
    | inr refused ↦ rw refused (stays)
  ]
  act-Departs (resolve i visitor topic) =
      elim (Option-cases (Dict.get (w.links i).client.topic_map topic)) [
        | inr (key, known) ↦ rw (act, known) (stays)
        | inl fresh ↦ elim (Bool-cases ((w.links i).is_open && is_unused (w.links visitor))) [
          | inl allowed ↦ rw (act, fresh) (rw allowed (requeued i _ (Sub.refl _)))
          | inr refused ↦ rw (act, fresh) (rw refused (stays))
        ]
      ]

module _ (e : Endian) (order : ℕ → Endian) (j : ℕ) where
  -- A whole schedule.
  pub run-Departs :
      (done : List Publication) (w : World) (actions : List Action)
      → Departs e j done w
      → Departs e j (done ++ taken e order w actions) (run e order w actions)
  unfolding taken run
  run-Departs done w [] h = rw (append-nil done) h
  run-Departs done w (action ∷ actions) h =
      let now = taken_by e order w action in
      let w' = act e order w action in
      rw (← append_assoc done now (taken e order w' actions))
        (run-Departs (done ++ now) w' actions (act-Departs e order done w j h action))
