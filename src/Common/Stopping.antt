-- ===== src/Common/Stopping.antt =====
-- The loops of include/spraybus/common/interrupts.hpp end at SIGINT.
use spraybus.Prelude.{
  ℕ, zero, suc, ◌+◌, ◌*◌, ◌<◌, ◌≡◌, refl, ap, sym, ◌∙◌, subst, Bool, true, false, Bool-cases, inl,
  inr, List, [], ◌∷◌, if◌then◌else◌, arith, length,
}
use native.Mathlib.Nat.{add-zero, add-suc, suc-add, zero-add}
use spraybus.Exec.{Result, ok, throw, Outcome}
use spraybus.Common.{run_forever}
use spraybus.Common.Interrupts.{
  Interrupts, setup, raise_sigint, sigint_handler, Loop, left, loop, run_until_sigint, sleep,
  sleep_until_sigint,
}

abbrev pub threw : Result {0} Unit → Bool
threw (ok _) = false
threw (throw e) = true

-- The flags of a process that handles SIGINT.
abbrev pub flags : Bool → Interrupts
flags should_run = record { should_run = should_run; handled = true }

module _ {A : Type 0} (inputs : ℕ → A) (sigint : ℕ → Bool) where
  -- The inputs of the rounds from the k-th on that start before SIGINT, of at most `n`.
  unfoldable pub inputs_before : ℕ → ℕ → List A
  inputs_before zero k = []
  inputs_before (suc n) k = if sigint k then [] else inputs k ∷ inputs_before n (suc k)

  module _ {S : Type 0} (lambda : S → A → Outcome S Unit) where
    stops :
        (fuel k : ℕ) (s : S)
        → sigint k ≡ true
        → loop lambda inputs sigint (suc fuel) k (flags true) s ≡ left (flags false) (s, ok tt)
    unfolding loop raise_sigint sigint_handler
    stops fuel k s here = rw (loop, here) refl

    stopped :
        (fuel k : ℕ) (s : S)
        → loop lambda inputs sigint (suc fuel) k (flags false) s ≡ left (flags false) (s, ok tt)
    unfolding loop raise_sigint sigint_handler
    stopped fuel k s = ground arith

    -- What run_forever gives over some inputs, and what the loop gives with the flags after it.
    abbrev ends : Outcome S Unit → Loop S
    ends end = left (flags (threw end.1)) end

    round :
        (fuel k : ℕ) (s : S) (rest : List A)
        → sigint k ≡ false
        → ((s' : S)
            → loop lambda inputs sigint fuel (suc k) (flags true) s'
              ≡ ends (run_forever lambda s' rest))
        → loop lambda inputs sigint (suc fuel) k (flags true) s
          ≡ ends (run_forever lambda s (inputs k ∷ rest))
    unfolding loop run_forever
    round fuel k s rest later next = rw (loop, later) (ground (arith, next (lambda s (inputs k)).0))

    loop_lem :
        (n fuel k : ℕ) (s : S)
        → sigint (k + n) ≡ true
        → n < fuel
        → loop lambda inputs sigint fuel k (flags true) s
          ≡ ends (run_forever lambda s (inputs_before n k))
    unfolding inputs_before run_forever
    loop_lem n zero k s later few = absurd (omega (arith, few))
    loop_lem zero (suc fuel) k s here few = stops fuel k s (rw (← add-zero k) here)
    loop_lem (suc n) (suc fuel) k s later few = elim (Bool-cases (sigint k)) [
      | inl here ↦ rw here (stops fuel k s here)
      | inr miss ↦ rw miss (
          round fuel k s (inputs_before n (suc k)) miss (λ s'.
            loop_lem n fuel (suc k) s' (rw (suc-add k n) (rw (← add-suc k n) later))
              (omega (arith, few))))
    ]

    -- run_forever(lambda) with should_run set, when SIGINT comes before the test of the flag in
    -- round n at the latest, and n rounds and one test are waited for: it ends, with the state and
    -- the result that the lambda gives over the inputs of the rounds before SIGINT, or up to its
    -- first throw; should_run is cleared unless the lambda threw. Once it is cleared, run_forever
    -- returns at once, and the lambda is not called.
    pub run_forever_ends :
        (n fuel : ℕ) (p : Interrupts) (s : S)
        → p.should_run ≡ true
        → sigint n ≡ true
        → n < fuel
        → let end = run_forever lambda s (inputs_before n 0) in
          (run_until_sigint lambda inputs sigint fuel p s ≡ left (flags (threw end.1)) end)
          × ((t : S) (handled : Bool)
              → run_until_sigint lambda inputs sigint fuel
                  (record { should_run = false; handled = handled })
                  t
                ≡ left (flags false) (t, ok tt))
    unfolding run_until_sigint setup
    run_forever_ends n zero p s runs comes few = absurd (omega (arith, few))
    run_forever_ends n (suc fuel) p s runs comes few = (
      subst
          (λ b.
            loop lambda inputs sigint (suc fuel) 0 (flags b) s
            ≡ ends (run_forever lambda s (inputs_before n 0)))
          (sym runs) (loop_lem n (suc fuel) 0 s (rw (zero-add n) comes) few),
      λ t handled. stopped fuel 0 t,
    )

slept : (s : ℕ) (naps : List (Unit {0})) → run_forever sleep s naps ≡ (s + 200 * length naps, ok tt)
unfolding run_forever sleep
slept s [] = ground arith
slept s (nap ∷ naps) = slept (s + 200) naps ∙ ground arith

-- run_forever() sleeps 200 ms for each round that starts before SIGINT, and ends.
sleeps :
    (sigint : ℕ → Bool) (n fuel : ℕ)
    → sigint n ≡ true
    → n < fuel
    → sleep_until_sigint sigint fuel (flags true) 0
      ≡ left (flags false) (200 * length (inputs_before (λ k. tt) sigint n 0), ok tt)
unfolding sleep_until_sigint
sleeps sigint n fuel comes few =
    let naps = inputs_before (λ k. tt {0}) sigint n 0 in
    (run_forever_ends (λ k. tt) sigint sleep n fuel (flags true) 0 refl comes few).0
    ∙ ap (λ end. left (flags (threw end.1)) end) (slept 0 naps)
    ∙ ap (λ time. left (flags false) (time, ok tt)) (zero-add (200 * length naps))
