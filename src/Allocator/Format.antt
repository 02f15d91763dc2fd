-- ===== src/Allocator/Format.antt =====
-- dmlf/manager/allocator.py and dmlf/agent/hardware.py: the memory size as the agent writes
-- it and as the manager reads it.
use distributed_ml_training.Base.{
  ℕ, ◌≡◌, refl, ap, ◌∙◌, some, true, false, List, [], ◌∷◌, ◌++◌, map, All, arith,
}
use distributed_ml_training.Text.{to_upper, is_digit, is_space}
use distributed_ml_training.Allocator.Memory.{
  span, gb, match_unit, match_fraction, match_here, match_number, match_rest, after_point,
  search_memory,
}
use distributed_ml_training.Agent.Hardware.{get_ram_total}

to_upper-digit : (c : ℕ) → is_digit c ≡ true → to_upper c ≡ c
unfolding to_upper is_digit
to_upper-digit c h = ground arith

map-to_upper-digits :
    (ds rest : List ℕ)
    → All (λ c. is_digit c ≡ true) ds
    → map to_upper (ds ++ rest) ≡ ds ++ map to_upper rest
map-to_upper-digits [] rest h = refl
map-to_upper-digits (d ∷ ds) rest h =
    rw (to_upper-digit d h.0) (ap (◌∷◌ d) (map-to_upper-digits ds rest h.1))

-- A run of digits ends before a character that is none.
span-digits :
    (ds : List ℕ) (c : ℕ) (rest : List ℕ)
    → All (λ d. is_digit d ≡ true) ds
    → is_digit c ≡ false
    → span is_digit (ds ++ c ∷ rest) ≡ (ds, c ∷ rest)
unfolding span
span-digits [] c rest h e = rw e refl
span-digits (d ∷ ds) c rest h e = rw (h.0, span-digits ds c rest h.1 e) refl

-- What stands behind the whole part: a point, a digit and the unit.
abbrev tail_of : ℕ → List ℕ
tail_of tenth = b'.' ∷ tenth ∷ b'G' ∷ b'B' ∷ []

match_fraction-tail_of :
    (tenth : ℕ)
    → is_digit tenth ≡ true
    → match_fraction (tail_of tenth) ≡ (b'.' ∷ tenth ∷ [], b'G' ∷ b'B' ∷ [])
unfolding match_fraction
match_fraction-tail_of tenth t =
    ap (after_point (tail_of tenth))
      (span-digits (tenth ∷ []) b'G' (b'B' ∷ []) (t, tt) (unfold is_digit in refl))
    ∙ (unfold after_point in refl)

match_here-tail_of :
    (d : ℕ) (ds : List ℕ) (tenth : ℕ)
    → All (λ c. is_digit c ≡ true) (d ∷ ds)
    → is_digit tenth ≡ true
    → match_here ((d ∷ ds) ++ tail_of tenth) ≡ some ((d ∷ ds) ++ b'.' ∷ tenth ∷ [], gb)
unfolding match_here match_number
match_here-tail_of d ds tenth h t =
    ap match_number
      (span-digits (d ∷ ds) b'.' (tenth ∷ b'G' ∷ b'B' ∷ []) h (unfold is_digit in refl))
    ∙ ap (match_rest (d ∷ ds)) (match_fraction-tail_of tenth t)
    ∙ (unfold match_rest match_unit span is_space in refl)

upper-get_ram_total :
    (ds : List ℕ) (tenth : ℕ)
    → All (λ c. is_digit c ≡ true) ds
    → is_digit tenth ≡ true
    → map to_upper (get_ram_total ds tenth) ≡ ds ++ tail_of tenth
unfolding get_ram_total
upper-get_ram_total ds tenth h t =
    map-to_upper-digits ds (tail_of tenth) h
    ∙ ap (◌++◌ ds) (rw (to_upper-digit tenth t) (unfold to_upper in refl))

-- From the memory size that an agent writes (a whole part of one digit or more, a point, one digit
-- and the unit), the manager reads back the number's text and the unit.
pub search_memory-get_ram_total :
    (d : ℕ) (ds : List ℕ) (tenth : ℕ)
    → All (λ c. is_digit c ≡ true) (d ∷ ds)
    → is_digit tenth ≡ true
    → search_memory (map to_upper (get_ram_total (d ∷ ds) tenth))
      ≡ some ((d ∷ ds) ++ b'.' ∷ tenth ∷ [], gb)
unfolding search_memory
search_memory-get_ram_total d ds tenth h t =
    ap search_memory (upper-get_ram_total (d ∷ ds) tenth h t)
    ∙ rw (search_memory, match_here-tail_of d ds tenth h t) refl
