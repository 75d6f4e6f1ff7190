-- ===== src/Driver/Rounds.antt =====
-- The server process from its start over any number of rounds, against the bus.
use mathlib.Core.List.{append-nil, append_assoc}
use spraybus.Prelude.{
  ℕ, ◌+◌, ◌^◌, ◌≤◌, ◌<◌, ◌≡◌, refl, ap, sym, ◌∙◌, subst, Bool-cases, inl, inr, true, false, List,
  [], ◌∷◌, ◌++◌, arith, length, length-append,
}
use spraybus.Prelude.Int.{ℤ}
use spraybus.Word.{Endian}
use spraybus.Exec.{ok, Outcome, ◌>>=◌, >>=-eq-ok}
use spraybus.Text.{text}
use spraybus.Text.Stoi.{stoi}
use spraybus.Networking.Server as Base
use spraybus.Networking.Server.{Event, Effect, is_outside, destroy_server}
use spraybus.Server.{Server, new_server, process}
use spraybus.Server.Bus.{Bus, empty_bus, bus_run, bus_step, AllowsAll}
use spraybus.Server.Refinement.{Shows, Refines}
use spraybus.Server.Runs.{process-Refines, new_server-Shows, bus_step_grows}
use spraybus.Common.{Environment, get_env_or, run_forever}
use spraybus.Cli.{parse_port, checked_port}
use spraybus.Cli.Run.{init}
use spraybus.Driver.{start, serve, main}

-- The events of all rounds.
abbrev pub all_events : List (List Event) → List Event
all_events [] = []
all_events (events ∷ rounds) = events ++ all_events rounds

module _ (e : Endian) where
  bus_run-append :
      (b : Bus) (xs ys : List Event)
      → bus_run e b (xs ++ ys) ≡ (
        (bus_run e (bus_run e b xs).0 ys).0,
        (bus_run e b xs).1 ++ (bus_run e (bus_run e b xs).0 ys).1,
      )
  unfolding bus_run
  bus_run-append b [] ys = refl
  bus_run-append b (x ∷ xs) ys =
      let b' = (bus_step e b x).0 in
      let sent = (bus_step e b x).1 in
      ap (λ r. (r.0, sent ++ r.1)) (bus_run-append b' xs ys) ∙ λ i. (
        (bus_run e (bus_run e b' xs).0 ys).0,
        sym (append_assoc sent (bus_run e b' xs).1 (bus_run e (bus_run e b' xs).0 ys).1) i,
      )

  AllowsAll-append :
      (b : Bus) (xs ys : List Event)
      → AllowsAll e b (xs ++ ys)
      → AllowsAll e b xs × AllowsAll e (bus_run e b xs).0 ys
  unfolding bus_run
  AllowsAll-append b [] ys h = (tt, h)
  AllowsAll-append b (x ∷ xs) ys h =
      let (a, c) = AllowsAll-append (bus_step e b x).0 xs ys h.1 in ((h.0, a), c)

  bus_run_grows :
      (b : Bus) (xs : List Event)
      → ((bus_run e b xs).0.next_id ≤ b.next_id + length xs)
        × (length (bus_run e b xs).0.names ≤ length b.names + length xs)
  unfolding bus_run
  bus_run_grows b [] = (omega arith, omega arith)
  bus_run_grows b (x ∷ xs) =
      let step = bus_step_grows e b x in
      let rest = bus_run_grows (bus_step e b x).0 xs in
      (omega (arith, step.1, rest.0), omega (arith, step.0, rest.1))

  both_ways :
      (before : List Effect) {r s : Outcome Server Unit} {p q : Bus × List Effect}
      → r ≡ s
      → p ≡ q
      → Refines before r p
      → Refines before s q
  both_ways before h g x =
      subst (λ (y : Outcome Server Unit × Bus × List Effect). Refines before y.0 (y.1, y.2))
        (λ i. (h i, (g i).0, (g i).1)) x

  serve-Refines :
      (o : Server) (b : Bus) (rounds : List (List Event))
      → Shows o b
      → AllowsAll e b (all_events rounds)
      → b.next_id + length (all_events rounds) < 2 ^ 64
      → length b.names + length (all_events rounds) + 1 < 2 ^ 64
      → Refines o.base.effects (serve e o rounds) (bus_run e b (all_events rounds))
  unfolding serve run_forever bus_run
  serve-Refines o b [] v allowed ids names = record {
    returned = refl;
    shows = v;
    sent = sym (append-nil o.base.effects);
  }
  serve-Refines o b (events ∷ rounds) v allowed ids names =
      let later = all_events rounds in
      let (mine, others) = AllowsAll-append b events later allowed in
      let size = length-append events later in
      let grows = bus_run_grows b events in
      let first = process-Refines e o b events v mine (omega (arith, size)) (omega (arith, size)) in
      let o' = (process e o events).0 in
      let rest =
        serve-Refines o' (bus_run e b events).0 rounds first.shows others
          (omega (arith, size, grows.0)) (omega (arith, size, grows.1)) in
      let round : serve e o (events ∷ rounds) ≡ serve e o' rounds =
        ground (arith, first.returned) in
      both_ways o.base.effects (sym round) (sym (bus_run-append b events later)) (record {
        returned = rest.returned;
        shows = rest.shows;
        sent =
            rest.sent
            ∙ ap (λ fx. fx ++ (bus_run e (bus_run e b events).0 later).1) first.sent
            ∙ append_assoc o.base.effects _ _;
      })

checked_inside :
    (size n : ℕ) (port : ℤ × ℕ) → checked_port size port ≡ ok n → is_outside port.0 ≡ false
unfolding checked_port
checked_inside size n (i, parsed) h = elim (Bool-cases (is_outside i)) [
  | inl outside ↦ ground arith
  | inr inside ↦ inside
]

started_at :
    (getenv : Environment) (port : ℤ × ℕ)
    → stoi (get_env_or getenv (text "SPRAYBUS_PORT") (text "6767")) ≡ ok port
    → is_outside port.0 ≡ false
    → start getenv true true ≡ ok new_server
unfolding start init Base.new_server new_server
started_at getenv port read inside = rw (read, inside) refl

-- A port that the command line client takes starts the server.
started :
    (getenv : Environment) (n : ℕ)
    → parse_port (get_env_or getenv (text "SPRAYBUS_PORT") (text "6767")) ≡ ok n
    → start getenv true true ≡ ok new_server
unfolding parse_port
started getenv n h =
    let v = get_env_or getenv (text "SPRAYBUS_PORT") (text "6767") in
    let (port, read, checked) = >>=-eq-ok (stoi v) (checked_port (length v)) h in
    started_at getenv port read (checked_inside (length v) n port checked)

-- The server process, when SPRAYBUS_PORT, or 6767 without it, is a port and ENet gives a host: it
-- starts, and over any rounds of events that ENet may deliver, fewer together than the ids and
-- keys, it sends what the bus sends, is in the bus's state at the end, and main returns 0, with the
-- host destroyed.
pub server_runs :
    (e : Endian) (getenv : Environment) (n : ℕ) (rounds : List (List Event))
    → parse_port (get_env_or getenv (text "SPRAYBUS_PORT") (text "6767")) ≡ ok n
    → AllowsAll e empty_bus (all_events rounds)
    → length (all_events rounds) + 1 < 2 ^ 64
    → (o : Server) × (start getenv true true ≡ ok o)
      × Refines [] (serve e o rounds) (bus_run e empty_bus (all_events rounds))
      × (main e getenv true true rounds ≡ ok (0, destroy_server (serve e o rounds).0.base))
unfolding new_server main
server_runs e getenv n rounds port allowed few =
    let begun = started getenv n port in
    let run =
      serve-Refines e new_server empty_bus rounds new_server-Shows allowed (omega arith)
        (omega arith) in
    (
      new_server,
      begun,
      run,
      ap
            (λ s. s >>= λ server. (serve e server rounds).1 >>= λ _.
              ok (0, destroy_server (serve e server rounds).0.base))
            begun
          ∙ ap (λ looped. looped >>= λ _. ok (0, destroy_server (serve e new_server rounds).0.base))
              run.returned,
    )
