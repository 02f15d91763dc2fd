-- ===== src/Text/Split.antt =====
-- `text.split(sep)` of pieces that `sep.join` has joined.
use Prim.Native.Char.{Char, code}
use Prim.Native.String.{◌++◌ as str_append}
use text.Mathlib.TextLemmas.{nil-append, cons-append}
use distributed_ml_training.Base.{
  ℕ, ◌≡◌, refl, ◌∙◌, ap, String, Bool, true, false, List, [], ◌∷◌, eqb, All, arith,
}
use distributed_ml_training.Text.Words.{Free, split_on, grow, join}

pub Free-append : (p : ℕ → Bool) (s t : String) → Free p s → Free p t → Free p (str_append s t)
Free-append p String.[] t h k = rw (nil-append t) k
Free-append p (String.◌∷◌ c s) t h k = rw (cons-append c s t) (h.0, Free-append p s t h.1 k)

-- What holds of no character that has `p`, if `q` only holds of characters that have it.
pub Free-imp :
    (p q : ℕ → Bool) → ((k : ℕ) → p k ≡ false → q k ≡ false) → (s : String) → Free p s → Free q s
Free-imp p q imp String.[] h = tt
Free-imp p q imp (String.◌∷◌ c s) h = (imp (code c) h.0, Free-imp p q imp s h.1)

module _ (c : Char) where
  -- The separator does not stand in the text.
  abbrev pub Whole : String → Type 0
  Whole = Free (λ k. eqb k (code c))

  split_on-Whole : (w : String) → Whole w → split_on (code c) w ≡ w ∷ []
  unfolding split_on grow
  split_on-Whole String.[] h = refl
  split_on-Whole (String.◌∷◌ d s) h = rw (h.0, split_on-Whole s h.1) refl

  same_char : eqb (code c) (code c) ≡ true
  same_char = ground arith

  split_on-append :
      (w t : String)
      → Whole w
      → split_on (code c) (str_append w (String.◌∷◌ c t)) ≡ w ∷ split_on (code c) t
  unfolding split_on grow
  split_on-append String.[] t h = rw (nil-append (String.◌∷◌ c t), same_char) refl
  split_on-append (String.◌∷◌ d s) t h =
      rw (cons-append d s (String.◌∷◌ c t), h.0, split_on-append s t h.1) refl

  -- Pieces without the separator, one at least, are split as they were joined.
  pub split_on-join :
      (w : String) (ws : List String)
      → All Whole (w ∷ ws)
      → split_on (code c) (join (String.◌∷◌ c "") (w ∷ ws)) ≡ w ∷ ws
  unfolding join
  split_on-join w [] h = split_on-Whole w h.0
  split_on-join w (v ∷ ws) h =
      let rest = join (String.◌∷◌ c "") (v ∷ ws) in
      let starts : str_append (String.◌∷◌ c "") rest ≡ String.◌∷◌ c rest =
        cons-append c "" rest ∙ ap (String.◌∷◌ c) (nil-append rest) in
      ap (λ (t : String). split_on (code c) (str_append w t)) starts
      ∙ split_on-append w rest h.0
      ∙ ap (◌∷◌ w) (split_on-join v ws h.1)
