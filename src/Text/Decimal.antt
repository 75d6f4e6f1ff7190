-- ===== src/Text/Decimal.antt =====
-- The digits that std::to_string writes.
use spraybus.Prelude.{
  ℕ, zero, suc, ◌+◌, ◌-◌, ◌*◌, ◌/◌, ◌%◌, ◌^◌, ◌≤◌, ◌<◌, ◌≡◌, refl, List, [], ◌∷◌, ◌++◌, arith, ltb,
  All, All-append, Bool-cases, inl, inr, ◌≢◌,
}
use spraybus.Text.{decimal, to_string}

-- The number that a text of decimal digits stands for, read from left to right.
unfoldable pub value_from : ℕ → List ℕ → ℕ
value_from acc [] = acc
value_from acc (d ∷ ds) = value_from (acc * 10 + (d - b'0')) ds

abbrev pub IsDigit : ℕ → Type 0
IsDigit c = (b'0' ≤ c) × (c ≤ b'9')

value_from-append :
    (acc : ℕ) (xs ys : List ℕ) → value_from acc (xs ++ ys) ≡ value_from (value_from acc xs) ys
unfolding value_from
value_from-append acc [] ys = refl
value_from-append acc (x ∷ xs) ys = value_from-append (acc * 10 + (x - b'0')) xs ys

-- `n` has at most `fuel` digits.
abbrev pub HasDigits : ℕ → ℕ → Type 0
HasDigits zero n = n ≡ 0
HasDigits (suc fuel) n = HasDigits fuel (n / 10)

pub HasDigits-word64 : {n : ℕ} → n < 2 ^ 64 → HasDigits 20 n
HasDigits-word64 h = omega arith

value_from-decimal : (fuel n : ℕ) → HasDigits fuel n → value_from 0 (decimal fuel n) ≡ n
unfolding value_from decimal
value_from-decimal zero n h = omega arith
value_from-decimal (suc fuel) n h = elim (Bool-cases (ltb n 10)) [
  | inl last ↦ rw last (ground arith)
  | inr more ↦
      rw (more, value_from-append 0 (decimal fuel (n / 10)) ((b'0' + n % 10) ∷ []))
        (omega (arith, value_from-decimal fuel (n / 10) h))
]

decimal-IsDigit : (fuel n : ℕ) → All IsDigit (decimal fuel n)
unfolding decimal
decimal-IsDigit zero n = tt
decimal-IsDigit (suc fuel) n = elim (Bool-cases (ltb n 10)) [
  | inl last ↦ rw last ((omega arith, ground arith), tt)
  | inr more ↦ rw more (
      All-append IsDigit (decimal fuel (n / 10)) _ (decimal-IsDigit fuel (n / 10))
        ((omega arith, omega arith), tt))
]

decimal-ne-nil : (fuel n : ℕ) → decimal (suc fuel) n ≢ []
unfolding decimal
decimal-ne-nil fuel n = elim (Bool-cases (ltb n 10)) [
  | inl last ↦ rw last (λ e. cc)
  | inr more ↦ rw more (append_ne_nil _ (decimal fuel (n / 10)))
]
  where
    append_ne_nil : (x : ℕ) (xs : List ℕ) → xs ++ x ∷ [] ≢ []
    append_ne_nil x [] e = cc
    append_ne_nil x (y ∷ ys) e = cc

-- std::to_string of a uint64_t is a text of decimal digits, not empty, whose value is the number.
pub to_string_value :
    (n : ℕ)
    → n < 2 ^ 64
    → All IsDigit (to_string n) × (to_string n ≢ []) × (value_from 0 (to_string n) ≡ n)
unfolding to_string
to_string_value n h =
    (decimal-IsDigit 20 n, decimal-ne-nil 19 n, value_from-decimal 20 n (HasDigits-word64 h))
