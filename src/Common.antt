-- ===== src/Common.antt =====
-- include/spraybus/common: env.hpp and interrupts.hpp. std::getenv is a function of the environment
-- in which the program runs; SIGINT comes after the rounds that are given. Its way to the loop is
-- in Common/Interrupts.antt.
pub mod Interrupts
pub mod Stopping
mod Tests
use spraybus.Prelude.{ℕ, List, [], ◌∷◌, ◌++◌, Option, none, some}
use spraybus.Exec.{Result, ok, throw, runtime_error, Outcome}
use spraybus.Text.{text}

-- std::getenv
abbrev pub Environment : Type 0
Environment = List ℕ → Option (List ℕ)

unfoldable pub get_env_or : Environment → List ℕ → List ℕ → List ℕ
get_env_or getenv name default_value = elim (getenv name) [
  | some value ↦ value
  | none ↦ default_value
]

unfoldable pub get_env_or_throw : Environment → List ℕ → Result (List ℕ)
get_env_or_throw getenv name = elim (getenv name) [
  | some value ↦ ok value
  | none ↦ throw (runtime_error (text "Missing required environment variable: " ++ name))
]

-- run_forever(lambda): one call of the lambda for each input, until should_run is cleared when they
-- are used up, or a call throws.
unfoldable pub run_forever : {S A : Type 0} → (S → A → Outcome S Unit) → S → List A → Outcome S Unit
run_forever lambda s [] = (s, ok tt)
run_forever lambda s (input ∷ inputs) =
    let (s', r) = lambda s input in
    elim r [ ok _ ↦ run_forever lambda s' inputs | throw e ↦ (s', throw e) ]
