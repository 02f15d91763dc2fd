-- ===== src/Text.antt =====
-- The methods of Python's `str` that the program calls. Classes of characters and the changes of
-- case are those of ASCII.
pub mod Numbers
pub mod Words
pub mod Strip
pub mod Split
use Prim.Native.Char.{code}
use distributed_ml_training.Base.{
  ℕ, ◌+◌, ◌-◌, String, Option, none, some, Bool, true, false, ◌&&◌, ◌||◌, List, [], ◌∷◌, leb, eqb,
  if◌then◌else◌,
}

-- The code points of a text. `String` has its own `[]` and `∷`.
abbrev pub codes : String → List ℕ
codes String.[] = []
codes (String.◌∷◌ c s) = code c ∷ codes s

-- str.upper(), of one code point
unfoldable pub to_upper : ℕ → ℕ
to_upper c = if leb b'a' c && leb c b'z' then c - 32 else c

unfoldable pub to_lower : ℕ → ℕ
to_lower c = if leb b'A' c && leb c b'Z' then c + 32 else c

unfoldable pub is_digit : ℕ → Bool
is_digit c = leb b'0' c && leb c b'9'

unfoldable pub is_space : ℕ → Bool
is_space c = eqb c 32 || leb 9 c && leb c 13 || leb 28 c && leb c 31

-- str.lower(), as code points
unfoldable pub lower : String → List ℕ
unfolding to_lower
lower String.[] = []
lower (String.◌∷◌ c s) = to_lower (code c) ∷ lower s

unfoldable pub same_text : List ℕ → List ℕ → Bool
same_text [] [] = true
same_text (a ∷ as') (b ∷ bs) = eqb a b && same_text as' bs
same_text _ _ = false

-- str.lstrip()
unfoldable pub lstrip : String → String
unfolding is_space
lstrip String.[] = String.[]
lstrip (String.◌∷◌ c s) = if is_space (code c) then lstrip s else String.◌∷◌ c s

-- A character in front of a text whose end was stripped: a space is dropped if nothing is left.
unfoldable pub rstrip_cons : ℕ → String → String → String
unfolding is_space
rstrip_cons c whole String.[] = if is_space c then String.[] else whole
rstrip_cons c whole (String.◌∷◌ d s) = whole

-- str.rstrip()
unfoldable pub rstrip : String → String
unfolding rstrip_cons
rstrip String.[] = String.[]
rstrip (String.◌∷◌ c s) = let r = rstrip s in rstrip_cons (code c) (String.◌∷◌ c r) r

-- str.strip()
unfoldable pub strip : String → String
unfolding lstrip rstrip
strip s = rstrip (lstrip s)

-- What is left of a text behind a prefix.
unfoldable pub after_prefix : List ℕ → String → Option String
after_prefix [] s = some s
after_prefix (p ∷ ps) String.[] = none
after_prefix (p ∷ ps) (String.◌∷◌ c s) = if eqb p (code c) then after_prefix ps s else none

-- str.removeprefix()
unfoldable pub removeprefix : String → String → String
unfolding after_prefix
removeprefix p s = elim (after_prefix (codes p) s) [ none ↦ s | some r ↦ r ]
