-- ===== src/Text/Words.antt =====
-- Python's `text.split()`, `text.split(sep)` for one character, and `" ".join(words)`.
use Prim.Native.Char.{Char, code}
use Prim.Native.String.{◌++◌ as str_append}
use text.Mathlib.TextLemmas.{nil-append, cons-append, append-nil}
use distributed_ml_training.Base.{
  ℕ, ◌≡◌, ◌≢◌, refl, sym, ◌∙◌, ap, String, Bool, true, false, List, [], ◌∷◌, eqb, if◌then◌else◌,
  All,
}
use distributed_ml_training.Text.{is_space}

-- No word goes on at the start of the text.
abbrev pub ends : String → Bool
ends String.[] = true
ends (String.◌∷◌ c s) = is_space (code c)

-- A character in front of the words of a text: a word of its own, or the start of the first word.
unfoldable pub grow : Char → (ended : Bool) → List String → List String
grow c true ws = String.◌∷◌ c String.[] ∷ ws
grow c false [] = String.◌∷◌ c String.[] ∷ []
grow c false (w ∷ ws) = String.◌∷◌ c w ∷ ws

-- text.split()
unfoldable pub split_words : String → List String
unfolding is_space grow
split_words String.[] = []
split_words (String.◌∷◌ c s) =
    let rest = split_words s in if is_space (code c) then rest else grow c (ends s) rest

-- text.split(sep): one piece more than there are separators, and empty pieces stay.
unfoldable pub split_on : (sep : ℕ) → String → List String
unfolding grow
split_on sep String.[] = String.[] ∷ []
split_on sep (String.◌∷◌ c s) =
    let rest = split_on sep s in if eqb (code c) sep then String.[] ∷ rest else grow c false rest

-- sep.join(pieces), for a separator of one character
unfoldable pub join : String → List String → String
join sep [] = ""
join sep (w ∷ []) = w
join sep (w ∷ v ∷ ws) = str_append w (str_append sep (join sep (v ∷ ws)))

-- No character of the text has the property.
abbrev pub Free : (ℕ → Bool) → String → Type 0
Free p String.[] = Unit
Free p (String.◌∷◌ c s) = (p (code c) ≡ false) × Free p s

split_words-block :
    (c : Char) (s t : String)
    → Free is_space (String.◌∷◌ c s)
    → ends t ≡ true
    → split_words (str_append (String.◌∷◌ c s) t) ≡ String.◌∷◌ c s ∷ split_words t
unfolding split_words grow
split_words-block c String.[] t h e = rw (cons-append, nil-append) (rw (h.0, e) refl)
split_words-block c (String.◌∷◌ d s) t h e =
    rw cons-append (rw (h.0, split_words-block d s t h.1 e) (rw cons-append (rw (h.1.0) refl)))

-- A word of an argument text: no spaces in it, and not empty.
abbrev pub IsWord : String → Type 0
IsWord w = Free is_space w × (w ≢ "")

split_words-word :
    (w t : String) → IsWord w → ends t ≡ true → split_words (str_append w t) ≡ w ∷ split_words t
split_words-word String.[] t h e = absurd (h.1 refl)
split_words-word (String.◌∷◌ c s) t h e = split_words-block c s t h.0 e

space-append :
    (t : String)
    → (ends (str_append " " t) ≡ true) × (split_words (str_append " " t) ≡ split_words t)
unfolding split_words is_space
space-append t =
    let shape : str_append " " t ≡ String.◌∷◌ " " t =
      cons-append " " "" t ∙ ap (String.◌∷◌ " ") (nil-append t) in
    (ap ends shape, ap split_words shape)

-- Words that are joined by spaces are split again.
pub split_words-join : (ws : List String) → All IsWord ws → split_words (join " " ws) ≡ ws
unfolding join
split_words-join [] h = unfold split_words in refl
split_words-join (w ∷ []) h =
    ap split_words (sym (append-nil w))
    ∙ split_words-word w "" h.0 (unfold is_space in refl)
    ∙ (unfold split_words in refl)
split_words-join (w ∷ v ∷ ws) h =
    split_words-word w (str_append " " (join " " (v ∷ ws))) h.0 (space-append _).0
    ∙ ap (◌∷◌ w) ((space-append _).1 ∙ split_words-join (v ∷ ws) h.1)
