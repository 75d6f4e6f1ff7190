-- ===== src/Cli/Message.antt =====
-- join_message against a definition without an accumulator.
use mathlib.Core.List.{append-nil, append_assoc}
use spraybus.Prelude.{ℕ, ◌≡◌, refl, ap, sym, ◌∙◌, List, [], ◌∷◌, ◌++◌, drop}
use spraybus.Text.{text}
use spraybus.Cli.{join_from, join_message}

-- Each argument with a space before it.
abbrev spaced : List (List ℕ) → List ℕ
spaced [] = []
spaced (arg ∷ args) = (text " " ++ arg) ++ spaced args

-- The arguments with one space between each two.
abbrev pub joined_by_spaces : List (List ℕ) → List ℕ
joined_by_spaces [] = []
joined_by_spaces (arg ∷ args) = arg ++ spaced args

abbrev pub drop_empty : List (List ℕ) → List (List ℕ)
drop_empty [] = []
drop_empty ([] ∷ args) = drop_empty args
drop_empty ((c ∷ arg) ∷ args) = (c ∷ arg) ∷ args

join_from_started :
    (c : ℕ) (message : List ℕ) (args : List (List ℕ))
    → join_from (c ∷ message) args ≡ (c ∷ message) ++ spaced args
unfolding join_from
join_from_started c message [] = sym (append-nil (c ∷ message))
join_from_started c message (arg ∷ args) =
    join_from_started c ((message ++ text " ") ++ arg) args
    ∙ ap (λ x. c ∷ x)
        (ap (λ x. x ++ spaced args) (append_assoc message (text " ") arg)
          ∙ append_assoc message (text " " ++ arg) (spaced args))

join_from_empty : (args : List (List ℕ)) → join_from [] args ≡ joined_by_spaces (drop_empty args)
unfolding join_from
join_from_empty [] = refl
join_from_empty ([] ∷ args) = join_from_empty args
join_from_empty ((c ∷ arg) ∷ args) = join_from_started c arg args

-- join_message joins the arguments from the given one on with one space between each two, except
-- that empty arguments at the start are left out, with their spaces.
pub join_message-eq :
    (args : List (List ℕ)) (first : ℕ)
    → join_message args first ≡ joined_by_spaces (drop_empty (drop first args))
unfolding join_message
join_message-eq args first = join_from_empty (drop first args)
