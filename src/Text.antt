-- ===== src/Text.antt =====
-- Texts as lists of bytes, and std::to_string on unsigned numbers.
pub mod Decimal
pub mod Stoi
mod Tests
use Prim.Native.Char.{code}
use Prim.Native.String.{String}
use spraybus.Prelude.{ℕ, zero, suc, ◌+◌, ◌/◌, ◌%◌, List, [], ◌∷◌, ◌++◌, ltb, if◌then◌else◌}

-- The bytes of a literal.
abbrev pub text : String → List ℕ
text String.[] = []
text (String.◌∷◌ c s) = code c ∷ text s

-- The decimal digits of a number, with fuel for that many digits.
unfoldable pub decimal : ℕ → ℕ → List ℕ
decimal zero n = []
decimal (suc fuel) n =
    let more = decimal fuel (n / 10) in
    if ltb n 10 then (b'0' + n) ∷ [] else more ++ (b'0' + n % 10) ∷ []

-- std::to_string(uint64_t): 20 digits are enough below 2 ^ 64.
unfoldable pub to_string : ℕ → List ℕ
unfolding decimal
to_string n = decimal 20 n
