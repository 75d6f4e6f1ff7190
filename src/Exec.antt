-- ===== src/Exec.antt =====
-- C++ results and effects as values: a call returns or throws, and a method of a mutable object is
-- a function of the object that also hands back its new state, on a throw too.
use spraybus.Prelude.{ℕ, List, ◌≡◌, refl}

-- The exceptions that the sources throw, with what(). `undefined_behaviour` stands for an access
-- through a pointer to an object that does not exist.
pub data Error : Type 0 where
  runtime_error out_of_range invalid_argument : List ℕ → Error
  undefined_behaviour : Error

pub data Result {ℓ} (A : Type ℓ) : Type ℓ where
  ok : A → Result A
  throw : Error → Result A

infixl 5 ◌>>=◌
abbrev pub ◌>>=◌ {ℓ κ} : {A : Type ℓ} {B : Type κ} → Result A → (A → Result B) → Result B
ok a >>= f = f a
throw e >>= f = throw e

-- The state and the result of a method.
abbrev pub Outcome {ℓ} : Type ℓ → Type ℓ → Type ℓ
Outcome S A = S × Result A

-- What a chain that returned has done: its first call returned, and so did the rest.
module _ {ℓ κ} {A : Type ℓ} {B : Type κ} where
  pub >>=-eq-ok :
      (first : Result A) (rest : A → Result B) {result : B}
      → (first >>= rest) ≡ ok result
      → (value : A) × (first ≡ ok value) × (rest value ≡ ok result)
  >>=-eq-ok (throw error) rest returned = cc returned
  >>=-eq-ok (ok value) rest returned = (value, refl, returned)
