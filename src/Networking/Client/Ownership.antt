-- ===== src/Networking/Client/Ownership.antt =====
-- Who owns the packets that ENet hands to a client: programs over the wrappers of class Packet and
-- the two calls that fill one, process and recv.
pub mod Account
use spraybus.Prelude.{
  ℕ, suc, zero, ◌+◌, ◌≡◌, ◌≢◌, refl, ap, sym, ◌∙◌, Bool, true, false, List, [], ◌∷◌, ◌++◌, Option,
  none, some, arith, get_elem?, if◌then◌else◌, ◌==◌, Bool-cases, Option-cases, inl, inr,
}
use spraybus.Exec.{Result, ok, throw}
use spraybus.Networking.Client.{
  Packet, Received, Effect, packet_destroy, Event, received, connected, disconnected, no_event,
  Service, own, no_packet, move_construct, move_assign, self_assign, destroy_packet, process, recv,
}

-- What a program may do with its wrappers, which are numbered by their position.
pub data Use : Type 0 where
  declare : Use
  wrap : Received → Use
  move_out destroy : ℕ → Use
  assign : ℕ → ℕ → Use
  process_into : ℕ → Service → Use
  receive : Service → Use

-- The wrappers in scope, and the calls made so far.
pub record Scope : Type 0 where
  pub wrappers : List Packet
  pub calls : List Effect

abbrev pub nothing : Scope
nothing = record { wrappers = []; calls = [] }

abbrev pub set_at : ℕ → Packet → List Packet → List Packet
set_at i p [] = []
set_at zero p (w ∷ ws) = p ∷ ws
set_at (suc i) p (w ∷ ws) = w ∷ set_at i p ws

abbrev pub remove_at : ℕ → List Packet → List Packet
remove_at i [] = []
remove_at zero (w ∷ ws) = ws
remove_at (suc i) (w ∷ ws) = w ∷ remove_at i ws

-- A wrapper made by an expression that may throw.
abbrev pub bind_result : Scope → Result Packet → Scope
bind_result s (ok p) = record s { wrappers = p ∷ s.wrappers }
bind_result s (throw e) = s

module _ (s : Scope) where
  abbrev pub moved_out : ℕ → Option Packet → Scope
  moved_out i none = s
  moved_out i (some other) =
      let (this, left) = move_construct other in
      record s { wrappers = this ∷ set_at i left s.wrappers }

  abbrev pub assigned : ℕ → ℕ → Option Packet → Option Packet → Scope
  assigned i j (some this) (some other) =
      if i == j
      then (let (this', made) = self_assign this in
          record { wrappers = set_at i this' s.wrappers; calls = s.calls ++ made })
      else (let (this', other', made) = move_assign this other in
          record {
            wrappers = set_at j other' (set_at i this' s.wrappers);
            calls = s.calls ++ made;
          })
  assigned i j this other = s

  abbrev pub destroyed : ℕ → Option Packet → Scope
  destroyed i none = s
  destroyed i (some this) = record {
    wrappers = remove_at i s.wrappers;
    calls = s.calls ++ destroy_packet this;
  }

  abbrev pub processed : ℕ → Service → Option Packet → Scope
  processed i service none = s
  processed i service (some this) =
      let (this', made, _) = process this service in
      record { wrappers = set_at i this' s.wrappers; calls = s.calls ++ made }

  -- A use of a wrapper that is not there does nothing.
  abbrev pub use_step : Use → Scope
  use_step declare = record s { wrappers = no_packet ∷ s.wrappers }
  use_step (wrap r) = record s { wrappers = own r ∷ s.wrappers }
  use_step (move_out i) = moved_out i (get_elem? s.wrappers i)
  use_step (assign i j) = assigned i j (get_elem? s.wrappers i) (get_elem? s.wrappers j)
  use_step (destroy i) = destroyed i (get_elem? s.wrappers i)
  use_step (process_into i service) = processed i service (get_elem? s.wrappers i)
  use_step (receive service) = bind_result s (recv service)

-- How often a packet is held, was released, and was handed to the program.
abbrev pub is_at : ℕ → ℕ → ℕ
is_at a b = if a == b then 1 else 0

abbrev pub holds : ℕ → Option Received → ℕ
holds a none = 0
holds a (some r) = is_at a r.address

abbrev pub held : ℕ → List Packet → ℕ
held a [] = 0
held a (w ∷ ws) = holds a w.packet + held a ws

abbrev pub released : ℕ → List Effect → ℕ
released a [] = 0
released a (packet_destroy b ∷ rest) = is_at a b + released a rest
released a (_ ∷ rest) = released a rest

abbrev pub arrives : ℕ → Service → ℕ
arrives a none = 0
arrives a (some (received r)) = is_at a r.address
arrives a (some _) = 0

abbrev pub handed_if : ℕ → Service → Option Packet → ℕ
handed_if a service none = 0
handed_if a service (some this) = arrives a service

-- How often this use takes the packet over from ENet.
abbrev pub handed : ℕ → Scope → Use → ℕ
handed a s (wrap r) = is_at a r.address
handed a s (receive service) = arrives a service
handed a s (process_into i service) = handed_if a service (get_elem? s.wrappers i)
handed a s _ = 0

abbrev pub run : Scope → List Use → Scope
run s [] = s
run s (u ∷ us) = run (use_step s u) us

abbrev pub handed_all : ℕ → Scope → List Use → ℕ
handed_all a s [] = 0
handed_all a s (u ∷ us) = handed a s u + handed_all a (use_step s u) us
