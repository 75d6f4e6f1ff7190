-- ===== src/Common/Interrupts.antt =====
-- include/spraybus/common/interrupts.hpp: the flag that SIGINT clears, its handler, and the two
-- loops that test the flag. SIGINT is given by whether it has come before each test of the flag.
use spraybus.Prelude.{ℕ, zero, suc, ◌+◌, Bool, true, false, Option, none, some, if◌then◌else◌}
use spraybus.Exec.{ok, throw, Outcome}

-- should_run, and whether SIGINT goes to sigint_handler and not to its default action.
pub record Interrupts : Type 0 where
  pub should_run : Bool
  pub handled : Bool

abbrev pub process_start : Interrupts
process_start = record { should_run = true; handled = false }

unfoldable pub sigint_handler : Interrupts → Interrupts
sigint_handler p = record p { should_run = false }

-- signal(SIGINT, sigint_handler)
unfoldable pub setup : Interrupts → Interrupts
setup p = record p { handled = true }

-- What SIGINT does: its default action ends the process.
unfoldable pub raise_sigint : Interrupts → Option Interrupts
unfolding sigint_handler
raise_sigint p = if p.handled then some (sigint_handler p) else none

abbrev pub arrive : Bool → Interrupts → Option Interrupts
arrive came p = elim came [ true ↦ raise_sigint p | false ↦ some p ]

-- A loop after some steps: it has not ended, SIGINT has ended the process, or it was left.
pub data Loop (S : Type 0) : Type 0 where
  still_running terminated : Loop S
  left : Interrupts → Outcome S Unit → Loop S

module _ {S A : Type 0} (lambda : S → A → Outcome S Unit) (inputs : ℕ → A) (sigint : ℕ → Bool) where
  -- while (should_run) lambda(); from its k-th test on.
  unfoldable pub loop : ℕ → ℕ → Interrupts → S → Loop S
  unfolding raise_sigint
  loop zero k p s = still_running
  loop (suc fuel) k p s = elim (arrive (sigint k) p) [
    | none ↦ terminated
    | some p' ↦ elim p'.should_run [
      | false ↦ left p' (s, ok tt)
      | true ↦
          let (s', r) = lambda s (inputs k) in
          elim r [ ok _ ↦ loop fuel (suc k) p' s' | throw e ↦ left p' (s', throw e) ]
    ]
  ]

  -- run_forever(lambda)
  unfoldable pub run_until_sigint : ℕ → Interrupts → S → Loop S
  unfolding setup loop
  run_until_sigint fuel p s = loop fuel 0 (setup p) s

-- std::this_thread::sleep_for(std::chrono::milliseconds(200)); the state is the time slept.
unfoldable pub sleep : ℕ → Unit {0} → Outcome ℕ Unit
sleep slept _ = (slept + 200, ok tt)

-- run_forever()
unfoldable pub sleep_until_sigint : (ℕ → Bool) → ℕ → Interrupts → ℕ → Loop ℕ
unfolding run_until_sigint sleep
sleep_until_sigint sigint fuel p slept = run_until_sigint sleep (λ k. tt) sigint fuel p slept
