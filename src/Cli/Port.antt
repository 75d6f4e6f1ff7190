-- ===== src/Cli/Port.antt =====
-- parse_port: which texts it takes, and as what.
use mathlib.Core.List.{append-nil}
use spraybus.Prelude.{
  ℕ, zero, suc, ◌+◌, ◌≤◌, ◌≡◌, ◌≢◌, ◌↔◌, refl, ap, sym, ◌∙◌, subst, true, List, [], ◌∷◌, ◌++◌, All,
  All-imp, arith, length, length-append, Bool-cases, inl, inr,
}
use spraybus.Exec.{ok, ◌>>=◌}
use spraybus.Text.{to_string}
use spraybus.Text.Decimal.{value_from, to_string_value}
use spraybus.Text.Stoi.{
  span, span-append, span-All, is_space, is_digit, Sign, plus, minus, absent, sign_text, read_sign,
  sign_text-read_sign, stoi, stoi_digits, stoi_numeral, fits_int, signed,
}
use spraybus.Networking.Server.{is_outside}
use spraybus.Cli.{parse_port, checked_port, to_uint16}

-- The largest port that may follow a sign.
abbrev pub limit : Sign → ℕ
limit minus = 0
limit _ = 65535

-- The text is blanks, perhaps a sign, and digits whose value is the port.
pub record IsPort (v : List ℕ) (n : ℕ) : Type 0 where
  pub blank : List ℕ
  pub sign : Sign
  pub digits : List ℕ
  pub spelled : v ≡ blank ++ (sign_text sign ++ digits)
  pub blanks : All (λ c. is_space c ≡ true) blank
  pub decimal : All (λ c. is_digit c ≡ true) digits
  pub nonempty : digits ≢ []
  pub value : value_from 0 digits ≡ n
  pub range : n ≤ limit sign

checked_signed :
    (size parsed m n : ℕ) (sign : Sign)
    → (checked_port size (signed sign m, parsed) ≡ ok n)
      ↔ ((parsed ≡ size) × (m ≡ n) × (n ≤ limit sign))
unfolding checked_port is_outside to_uint16
checked_signed size parsed m n plus = ground arith
checked_signed size parsed zero n minus = ground arith
checked_signed size parsed (suc m) n minus = ground arith
checked_signed size parsed m n absent = ground arith

fits_limit : (n : ℕ) (sign : Sign) → n ≤ limit sign → fits_int sign n ≡ true
fits_limit n plus h = ground arith
fits_limit n minus h = ground arith
fits_limit n absent h = ground arith

checked_digits :
    (size before n : ℕ) (sign : Sign) (ds : List ℕ)
    → ((stoi_digits before sign ds >>= checked_port size) ≡ ok n)
      ↔ ((ds ≢ []) × (before + length ds ≡ size) × (value_from 0 ds ≡ n) × (n ≤ limit sign))
unfolding stoi_digits
checked_digits size before n sign [] = (λ h. cc, λ h. absurd (h.0 refl))
checked_digits size before n sign (d ∷ ds) =
    let m = value_from 0 (d ∷ ds) in
    let checked = checked_signed size (before + length (d ∷ ds)) m n sign in
    let nonempty : d ∷ ds ≢ [] = λ e. cc in
    elim (Bool-cases (fits_int sign m)) [
      | inl fits ↦ rw fits (
        (λ h. let (a, b, c) = checked.0 h in (nonempty, a, b, c)),
        (λ (_, a, b, c). checked.1 (a, b, c)),
      )
      | inr large ↦ rw large (
        (λ h. cc),
        (λ (_, _, value, range).
            let fits : fits_int sign m ≡ true =
              fits_limit m sign (subst (λ x. x ≤ limit sign) (sym value) range) in
            cc),
      )
    ]

-- A text is the blanks, the sign and the digits that stoi reads, and the rest.
numeral-append :
    (v : List ℕ)
    → let (blank, a) = span is_space v in
      let (sign, b) = read_sign a in
      v ≡ blank ++ (sign_text sign ++ ((span is_digit b).0 ++ (span is_digit b).1))
numeral-append v =
    let (blank, a) = span is_space v in
    let (sign, b) = read_sign a in
    sym (
      ap (λ x. blank ++ (sign_text sign ++ x)) (span-append is_digit b)
      ∙ ap (λ x. blank ++ x) (sign_text-read_sign a)
      ∙ span-append is_space v)

no_rest : (rest : List ℕ) → length rest ≡ 0 → rest ≡ []
no_rest [] h = refl
no_rest (c ∷ cs) h = absurd (omega (arith, h))

spelled_port : (v : List ℕ) (n : ℕ) → IsPort v n → parse_port v ≡ ok n
unfolding parse_port
spelled_port v n h =
    let before = length h.blank + length (sign_text h.sign) in
    ap (λ r. r >>= checked_port (length v))
      (ap stoi h.spelled ∙ stoi_numeral h.blank h.sign h.digits h.blanks h.decimal)
    ∙ (checked_digits (length v) before n h.sign h.digits).1 (
      h.nonempty,
      omega (
        arith,
        ap length h.spelled,
        length-append h.blank (sign_text h.sign ++ h.digits),
        length-append (sign_text h.sign) h.digits,
      ),
      h.value,
      h.range,
    )

-- parse_port takes exactly the texts of blanks, perhaps a sign, and digits to the end, whose value
-- is at most 65535, and 0 after a minus sign; it returns that value.
pub parse_port_iff : (v : List ℕ) (n : ℕ) → (parse_port v ≡ ok n) ↔ IsPort v n
unfolding parse_port stoi
parse_port_iff v n =
    let (blank, a) = span is_space v in
    let (sign, b) = read_sign a in
    let (ds, rest) = span is_digit b in
    let before = length blank + length (sign_text sign) in
    (
      (λ h.
          let (nonempty, size, value, range) = (checked_digits (length v) before n sign ds).0 h in
          let whole = numeral-append v in
          let end : rest ≡ [] = no_rest rest (
            omega (
              arith,
              size,
              ap length whole,
              length-append blank (sign_text sign ++ (ds ++ rest)),
              length-append (sign_text sign) (ds ++ rest),
              length-append ds rest,
            )) in
          record {
            blank = blank;
            sign = sign;
            digits = ds;
            spelled =
                whole
                ∙ ap (λ x. blank ++ (sign_text sign ++ x)) (ap (λ x. ds ++ x) end ∙ append-nil ds);
            blanks = span-All is_space v;
            decimal = span-All is_digit b;
            nonempty = nonempty;
            value = value;
            range = range;
          }),
      (λ h. spelled_port v n h),
    )

-- The text that std::to_string gives for a port, up to 65535, is read back as that port.
pub parse_port-to_string : (n : ℕ) → n ≤ 65535 → parse_port (to_string n) ≡ ok n
parse_port-to_string n h =
    let (digits, nonempty, value) = to_string_value n (omega arith) in
    (parse_port_iff (to_string n) n).1 (record {
      blank = [];
      sign = absent;
      digits = to_string n;
      spelled = refl;
      blanks = tt;
      decimal = All-imp (to_string n) (λ c d. ground arith) digits;
      nonempty = nonempty;
      value = value;
      range = h;
    })
