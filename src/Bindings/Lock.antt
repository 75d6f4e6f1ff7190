-- ===== src/Bindings/Lock.antt =====
-- The interpreter lock and the calls of networking::init, over the steps of the module _native.
use spraybus.Prelude.{
  ℕ, ◌+◌, ◌≡◌, refl, ap, ◌∙◌, Bool, true, false, List, [], ◌∷◌, ◌++◌, Option, none, some, arith,
}
use spraybus.Exec.{Outcome}
use spraybus.Bindings.{
  Step, release_lock, acquire_lock, native, initialize, python_object, Module, step, released,
}

-- Who holds the lock after a step, none if the step is not allowed then: an operation of the client
-- runs without the lock, and Python objects are used with it.
abbrev pub after_step : Bool → Step → Option Bool
after_step true release_lock = some false
after_step true initialize = some true
after_step true python_object = some true
after_step false native = some false
after_step false acquire_lock = some true
after_step held s = none

abbrev pub and_step : Option Bool → Step → Option Bool
and_step none s = none
and_step (some held) s = after_step held s

abbrev pub lock : Option Bool → List Step → Option Bool
lock held [] = held
lock held (s ∷ steps) = lock (and_step held s) steps

lock-snoc :
    (held : Option Bool) (xs : List Step) (s : Step)
    → lock held (xs ++ s ∷ []) ≡ and_step (lock held xs) s
lock-snoc held [] s = refl
lock-snoc held (x ∷ xs) s = lock-snoc (and_step held x) xs s

-- How often networking::init was called.
abbrev is_init : Step → ℕ
is_init initialize = 1
is_init s = 0

abbrev pub inits : List Step → ℕ
inits [] = 0
inits (s ∷ steps) = is_init s + inits steps

inits-snoc : (xs : List Step) (s : Step) → inits (xs ++ s ∷ []) ≡ inits xs + is_init s
inits-snoc [] s = omega arith
inits-snoc (x ∷ xs) s = omega (arith, inits-snoc xs s)

-- Who holds the lock after the steps so far, and how often networking::init was called.
pub record Sound (held : Option Bool) (n : ℕ) (m : Module) : Type 0 where
  pub locked : lock (some true) m.steps ≡ held
  pub counted : inits m.steps ≡ n

pub quiet :
    {held : Option Bool} {n : ℕ} {m : Module} (s : Step)
    → is_init s ≡ 0
    → Sound held n m
    → Sound (and_step held s) n (step m s)
unfolding step
quiet {m = m} s other h = record {
  locked = lock-snoc (some true) m.steps s ∙ ap (λ k. and_step k s) h.locked;
  counted = omega (arith, inits-snoc m.steps s, h.counted);
}

pub released-Sound :
    {S A : Type 0} (n : ℕ) (m : Module) (operation : Outcome S A)
    → Sound (some true) n m
    → Sound (some true) n (released m operation).0
unfolding released
released-Sound n m operation h =
    quiet acquire_lock refl (quiet native refl (quiet release_lock refl h))

pub initialize-Sound :
    {n : ℕ} {m : Module} → Sound (some true) n m → Sound (some true) (n + 1) (step m initialize)
unfolding step
initialize-Sound {m = m} h = record {
  locked = lock-snoc (some true) m.steps initialize ∙ ap (λ k. and_step k initialize) h.locked;
  counted = omega (arith, inits-snoc m.steps initialize, h.counted);
}
