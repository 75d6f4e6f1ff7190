-- ===== src/Text/Stoi.antt =====
-- std::stoi on a text, in base 10 and the C locale, with the number of characters that it has read.
use spraybus.Prelude.{
  ℕ, zero, suc, ◌+◌, ◌≡◌, refl, ap, Bool, true, ◌&&◌, ◌||◌, List, [], ◌∷◌, ◌++◌, All, arith, length,
  leb, ◌==◌, if◌then◌else◌, Bool-cases, inl, inr,
}
use spraybus.Prelude.Int.{ℤ, pos, negsuc}
use spraybus.Exec.{Result, ok, throw, out_of_range, invalid_argument}
use spraybus.Text.{text}
use spraybus.Text.Decimal.{value_from}

-- The longest prefix of accepted characters, and the rest.
abbrev pub span : (ℕ → Bool) → List ℕ → List ℕ × List ℕ
span p [] = ([], [])
span p (c ∷ cs) = let rest = span p cs in if p c then (c ∷ rest.0, rest.1) else ([], c ∷ cs)

abbrev pub is_space : ℕ → Bool
is_space c = c == b' ' || (leb 9 c && leb c 13)

abbrev pub is_digit : ℕ → Bool
is_digit c = leb b'0' c && leb c b'9'

pub data Sign : Type 0 where
  plus minus absent : Sign

abbrev pub sign_text : Sign → List ℕ
sign_text plus = b'+' ∷ []
sign_text minus = b'-' ∷ []
sign_text absent = []

unfoldable pub read_sign : List ℕ → Sign × List ℕ
read_sign [] = (absent, [])
read_sign (c ∷ cs) =
    if c == b'+' then (plus, cs) else if c == b'-' then (minus, cs) else (absent, c ∷ cs)

-- The values of an int of 32 bits.
abbrev pub fits_int : Sign → ℕ → Bool
fits_int minus n = leb n 2147483648
fits_int _ n = leb n 2147483647

abbrev pub negated : ℕ → ℤ
negated zero = pos 0
negated (suc n) = negsuc n

abbrev pub signed : Sign → ℕ → ℤ
signed minus n = negated n
signed _ n = pos n

unfoldable pub stoi_digits : ℕ → Sign → List ℕ → Result (ℤ × ℕ)
stoi_digits before sign [] = throw (invalid_argument (text "stoi"))
stoi_digits before sign (d ∷ ds) =
    let n = value_from 0 (d ∷ ds) in
    if fits_int sign n
    then ok (signed sign n, before + length (d ∷ ds))
    else throw (out_of_range (text "stoi"))

unfoldable pub stoi : List ℕ → Result (ℤ × ℕ)
unfolding read_sign stoi_digits
stoi s =
    let (blank, a) = span is_space s in
    let (sign, b) = read_sign a in
    stoi_digits (length blank + length (sign_text sign)) sign (span is_digit b).0

module _ (p : ℕ → Bool) where
  pub span-append : (s : List ℕ) → (span p s).0 ++ (span p s).1 ≡ s
  span-append [] = refl
  span-append (c ∷ cs) = elim (Bool-cases (p c)) [
    | inl held ↦ rw held (ap (λ x. c ∷ x) (span-append cs))
    | inr fails ↦ rw fails refl
  ]

  pub span-All : (s : List ℕ) → All (λ c. p c ≡ true) (span p s).0
  span-All [] = tt
  span-All (c ∷ cs) = elim (Bool-cases (p c)) [
    | inl held ↦ rw held (held, span-All cs)
    | inr fails ↦ rw fails tt
  ]

  pub span_stop :
      (xs ys : List ℕ)
      → All (λ c. p c ≡ true) xs
      → span p ys ≡ ([], ys)
      → span p (xs ++ ys) ≡ (xs, ys)
  span_stop [] ys h stop = stop
  span_stop (x ∷ xs) ys h stop = rw (h.0, span_stop xs ys h.1 stop) refl

  pub span_all : (xs : List ℕ) → All (λ c. p c ≡ true) xs → span p xs ≡ (xs, [])
  span_all [] h = refl
  span_all (x ∷ xs) h = rw (h.0, span_all xs h.1) refl

pub read_sign-sign_text :
    (sign : Sign) (ds : List ℕ)
    → All (λ c. is_digit c ≡ true) ds
    → read_sign (sign_text sign ++ ds) ≡ (sign, ds)
unfolding read_sign
read_sign-sign_text plus ds h = refl
read_sign-sign_text minus ds h = refl
read_sign-sign_text absent [] h = refl
read_sign-sign_text absent (d ∷ ds) h = ground (arith, h.0)

pub sign_text-read_sign : (s : List ℕ) → sign_text (read_sign s).0 ++ (read_sign s).1 ≡ s
unfolding read_sign
sign_text-read_sign [] = refl
sign_text-read_sign (c ∷ cs) = ground arith

-- A sign or a digit is no space.
pub no_space :
    (sign : Sign) (ds : List ℕ)
    → All (λ c. is_digit c ≡ true) ds
    → span is_space (sign_text sign ++ ds) ≡ ([], sign_text sign ++ ds)
no_space plus ds h = refl
no_space minus ds h = refl
no_space absent [] h = refl
no_space absent (d ∷ ds) h = ground (arith, h.0)

-- What stoi gives on blanks, a sign and digits to the end.
pub stoi_numeral :
    (blank : List ℕ) (sign : Sign) (ds : List ℕ)
    → All (λ c. is_space c ≡ true) blank
    → All (λ c. is_digit c ≡ true) ds
    → stoi (blank ++ (sign_text sign ++ ds))
      ≡ stoi_digits (length blank + length (sign_text sign)) sign ds
unfolding stoi
stoi_numeral blank sign ds b d =
    rw
      (
        span_stop is_space blank (sign_text sign ++ ds) b (no_space sign ds d),
        read_sign-sign_text sign ds d,
        span_all is_digit ds d,
      )
      refl
