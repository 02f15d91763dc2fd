-- ===== src/Allocator/Memory.antt =====
-- dmlf/manager/allocator.py: `_parse_memory`, with the regular expression
-- `(\d+(\.\d+)?)\s*(GB|MB)` as a matcher over code points.
--
-- What follows a run of digits cannot begin with a digit, and what follows the spaces cannot begin
-- with a space, so the greedy match is the only one at its start and no backtracking is modelled.
-- Digits, spaces and the change to upper case are those of ASCII.
use distributed_ml_training.Base.{
  ℕ, pos, String, Option, none, some, Bool, List, [], ◌∷◌, ◌++◌, map, eqb, ◌==◌, if◌then◌else◌,
}
use distributed_ml_training.Text.{codes, to_upper, is_digit, is_space}
use distributed_ml_training.Floats.{Floats}

-- The longest run of characters in a class, and what follows it.
unfoldable pub span : (ℕ → Bool) → List ℕ → List ℕ × List ℕ
span p [] = ([], [])
span p (c ∷ cs) = let (run, rest) = span p cs in if p c then (c ∷ run, rest) else ([], c ∷ cs)

pub data Size : Type 0 where
  gb mb : Size

-- GB|MB
unfoldable pub match_unit : List ℕ → Option Size
match_unit (u ∷ b ∷ _) =
    if eqb b b'B'
    then (if eqb u b'G' then some gb else if eqb u b'M' then some mb else none)
    else none
match_unit _ = none

-- What follows a point, as a run of digits and the rest: without a digit there is no fraction.
unfoldable pub after_point : (text : List ℕ) → List ℕ × List ℕ → List ℕ × List ℕ
after_point text ([], rest) = ([], text)
after_point text (d ∷ ds, rest) = (b'.' ∷ d ∷ ds, rest)

-- (\.\d+)?
unfoldable pub match_fraction : List ℕ → List ℕ × List ℕ
unfolding span is_digit after_point
match_fraction [] = ([], [])
match_fraction (c ∷ cs) =
    let fraction = after_point (c ∷ cs) (span is_digit cs) in
    if eqb c b'.' then fraction else ([], c ∷ cs)

-- The number and the unit, for the digits before the point, the fraction and what follows it.
unfoldable pub match_rest : (whole : List ℕ) → List ℕ × List ℕ → Option (List ℕ × Size)
unfolding span is_space match_unit
match_rest [] after = none
match_rest (d ∷ ds) (fraction, after) = elim (match_unit (span is_space after).1) [
  | none ↦ none
  | some u ↦ some ((d ∷ ds) ++ fraction, u)
]

-- The expression behind a run of digits.
unfoldable pub match_number : List ℕ × List ℕ → Option (List ℕ × Size)
unfolding match_fraction match_rest
match_number (whole, after) = match_rest whole (match_fraction after)

-- The expression at the start of the text: its first and its third group.
unfoldable pub match_here : List ℕ → Option (List ℕ × Size)
unfolding span is_digit match_number
match_here cs = match_number (span is_digit cs)

-- re.search: the leftmost match.
unfoldable pub search_memory : List ℕ → Option (List ℕ × Size)
unfolding match_here
search_memory [] = none
search_memory (c ∷ cs) =
    let later = search_memory cs in elim (match_here (c ∷ cs)) [ none ↦ later | some m ↦ some m ]

module _ (fl : Floats) where
  open fl use {Float, of_int, of_text, times}

  unfoldable pub parse_memory : String → Float
  unfolding search_memory to_upper
  parse_memory s =
      if s == "" then of_int (pos 0) else elim (search_memory (map to_upper (codes s))) [
        | none ↦ of_int (pos 0)
        | some (digits, gb) ↦ times (of_text digits) (of_int (pos 1024))
        | some (digits, mb) ↦ of_text digits
      ]
