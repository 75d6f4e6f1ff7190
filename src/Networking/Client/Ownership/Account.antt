-- ===== src/Networking/Client/Ownership/Account.antt =====
-- The account of one packet: the wrappers that hold it and its releases, against the times that ENet
-- handed it to the program.
use spraybus.Prelude.{
  ℕ, suc, zero, ◌+◌, ◌≡◌, ◌≢◌, refl, ap, ◌∙◌, List, [], ◌∷◌, ◌++◌, Option, none, some, arith,
  get_elem?, ◌==◌, Bool-cases, inl, inr,
}
use spraybus.Networking.Client.{
  Packet, Received, Effect, received, Service, no_packet, move_construct, move_assign, self_assign,
  destroy_packet, process, recv,
}
use spraybus.Networking.Client.Ownership.{
  Use, Scope, nothing, set_at, remove_at, bind_result, moved_out, assigned, destroyed, processed,
  use_step, holds, held, released, arrives, handed_if, handed, run, handed_all, declare, wrap,
  move_out, destroy, assign, process_into, receive,
}

module _ (a : ℕ) where
  released-append : (xs ys : List Effect) → released a (xs ++ ys) ≡ released a xs + released a ys
  released-append [] ys = omega arith
  released-append (x ∷ xs) ys = ground (arith, released-append xs ys)

  held-set_at :
      (i : ℕ) (p old : Packet) (ws : List Packet)
      → get_elem? ws i ≡ some old
      → held a (set_at i p ws) + holds a old.packet ≡ held a ws + holds a p.packet
  held-set_at i p old [] h = cc
  held-set_at zero p old (w ∷ ws) h = ground arith
  held-set_at (suc i) p old (w ∷ ws) h = omega (arith, held-set_at i p old ws h)

  held-remove_at :
      (i : ℕ) (old : Packet) (ws : List Packet)
      → get_elem? ws i ≡ some old
      → held a (remove_at i ws) + holds a old.packet ≡ held a ws
  held-remove_at i old [] h = cc
  held-remove_at zero old (w ∷ ws) h = ground arith
  held-remove_at (suc i) old (w ∷ ws) h = omega (arith, held-remove_at i old ws h)

  get_elem?-set_at :
      (i j : ℕ) (p : Packet) (ws : List Packet)
      → i ≢ j
      → get_elem? (set_at i p ws) j ≡ get_elem? ws j
  get_elem?-set_at i j p [] n = refl
  get_elem?-set_at zero zero p (w ∷ ws) n = absurd (n refl)
  get_elem?-set_at zero (suc j) p (w ∷ ws) n = refl
  get_elem?-set_at (suc i) zero p (w ∷ ws) n = refl
  get_elem?-set_at (suc i) (suc j) p (w ∷ ws) n = get_elem?-set_at i j p ws (λ e. n (ap suc e))

  released-drop :
      (o : Option Received) → released a (destroy_packet (record { packet = o })) ≡ holds a o
  unfolding destroy_packet
  released-drop none = refl
  released-drop (some r) = ground arith

  released-destroy_packet : (p : Packet) → released a (destroy_packet p) ≡ holds a p.packet
  released-destroy_packet p = released-drop p.packet

  released-move_assign :
      (this other : Packet) → released a (move_assign this other).2 ≡ holds a this.packet
  unfolding move_assign destroy_packet
  released-move_assign this other = released-drop this.packet

  -- What a scope has of the packet: the wrappers that hold it and the releases.
  abbrev account : Scope → ℕ
  account s = held a s.wrappers + released a s.calls

  account-moved_out :
      (s : Scope) (i : ℕ) (o : Option Packet)
      → get_elem? s.wrappers i ≡ o
      → account (moved_out s i o) ≡ account s
  unfolding move_construct
  account-moved_out s i none h = refl
  account-moved_out s i (some other) h = omega (arith, held-set_at i no_packet other s.wrappers h)

  account-assigned :
      (s : Scope) (i j : ℕ) (this other : Option Packet)
      → get_elem? s.wrappers i ≡ this
      → get_elem? s.wrappers j ≡ other
      → account (assigned s i j this other) ≡ account s
  unfolding move_assign self_assign
  account-assigned s i j (some this) (some other) h g = elim (Bool-cases (i == j)) [
    | inl same ↦
        rw (same, released-append s.calls []) (omega (arith, held-set_at i this this s.wrappers h))
    | inr differ ↦
        rw (differ, released-append s.calls)
          (omega (
            arith,
            held-set_at i other this s.wrappers h,
            released-move_assign this other,
            held-set_at j no_packet other (set_at i other s.wrappers)
                (get_elem?-set_at i j other s.wrappers (ground arith) ∙ g),
          ))
  ]
  account-assigned s i j _ _ h g = refl

  account-destroyed :
      (s : Scope) (i : ℕ) (o : Option Packet)
      → get_elem? s.wrappers i ≡ o
      → account (destroyed s i o) ≡ account s
  account-destroyed s i none h = refl
  account-destroyed s i (some this) h = omega (
    arith,
    held-remove_at i this s.wrappers h,
    released-append s.calls (destroy_packet this),
    released-destroy_packet this,
  )

  -- process puts the packet of the event into the wrapper, and releases what was there.
  process_accounts :
      (this : Packet) (service : Service)
      → let (this', made, _) = process this service in
        holds a this'.packet + released a made ≡ holds a this.packet + arrives a service
  unfolding process move_assign
  process_accounts this none = omega arith
  process_accounts this (some (received r)) = omega (
    arith,
    released-append (destroy_packet this) (destroy_packet no_packet),
    released-destroy_packet this,
    released-destroy_packet no_packet,
  )
  process_accounts this (some _) = omega arith

  account-processed :
      (s : Scope) (i : ℕ) (service : Service) (o : Option Packet)
      → get_elem? s.wrappers i ≡ o
      → account (processed s i service o) ≡ account s + handed_if a service o
  account-processed s i service none h = omega arith
  account-processed s i service (some this) h =
      let (this', made, _) = process this service in
      omega (
        arith,
        held-set_at i this' this s.wrappers h,
        released-append s.calls made,
        process_accounts this service,
      )

  account-bind_result :
      (s : Scope) (service : Service)
      → account (bind_result s (recv service)) ≡ account s + arrives a service
  unfolding recv
  account-bind_result s none = omega arith
  account-bind_result s (some (received r)) = omega arith
  account-bind_result s (some _) = omega arith

  account-use_step : (s : Scope) (u : Use) → account (use_step s u) ≡ account s + handed a s u
  account-use_step s declare = omega arith
  account-use_step s (wrap r) = omega arith
  account-use_step s (move_out i) = omega (arith, account-moved_out s i _ refl)
  account-use_step s (assign i j) = omega (arith, account-assigned s i j _ _ refl refl)
  account-use_step s (destroy i) = omega (arith, account-destroyed s i _ refl)
  account-use_step s (process_into i service) = account-processed s i service _ refl
  account-use_step s (receive service) = account-bind_result s service

  account-run : (s : Scope) (us : List Use) → account (run s us) ≡ account s + handed_all a s us
  account-run s [] = omega arith
  account-run s (u ∷ us) = omega (arith, account-use_step s u, account-run (use_step s u) us)

-- Whatever a program does with its wrappers, process and recv: of the times that ENet handed it a
-- packet, each one is either in exactly one wrapper or released exactly once. A packet is not
-- released twice, none is released while a wrapper holds it, and none is lost.
pub packets_owned_once :
    (a : ℕ) (us : List Use)
    → held a (run nothing us).wrappers + released a (run nothing us).calls ≡ handed_all a nothing us
packets_owned_once a us = omega (arith, account-run a nothing us)
