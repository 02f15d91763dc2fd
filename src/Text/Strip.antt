-- ===== src/Text/Strip.antt =====
-- `text.strip()` on texts without spaces at their ends, and `int(str(n))`.
use Prim.Native.Nat.{◌/◌, ◌%◌}
use Prim.Native.Char.{Char, code}
use Prim.Native.String.{◌++◌ as str_append}
use text.Mathlib.TextLemmas.{nil-append, cons-append, cons≢nil}
use distributed_ml_training.Base.{
  ℕ, zero, suc, ◌+◌, ◌<◌, ◌≡◌, ◌≢◌, refl, sym, ◌∙◌, ap, subst, String, some, ℤ, pos, negsuc, Bool,
  false, eqb, arith, Bool-cases, inl, inr,
}
use distributed_ml_training.Text.{is_space, lstrip, rstrip, rstrip_cons, strip, codes}
use distributed_ml_training.Text.Words.{Free, IsWord}
use distributed_ml_training.Text.Numbers.{
  digit_char, show_digits, show_digits-shape, show_int, int_of, read_sign, read_sign-show_int,
  code-digit_char,
}

-- The text starts with a character that is no space.
abbrev pub StartsTight : String → Type 0
StartsTight String.[] = ⊥
StartsTight (String.◌∷◌ c s) = is_space (code c) ≡ false

-- The text ends with a character that is no space.
abbrev pub EndsTight : String → Type 0
EndsTight s = (rstrip s ≡ s) × (s ≢ "")

pub lstrip-StartsTight : (s : String) → StartsTight s → lstrip s ≡ s
unfolding lstrip
lstrip-StartsTight String.[] h = refl
lstrip-StartsTight (String.◌∷◌ c s) h = rw (h, lstrip) refl

-- A text that is tight at both ends is left as it is.
pub strip-tight : (s : String) → StartsTight s → EndsTight s → strip s ≡ s
unfolding strip
strip-tight s starts end = ap rstrip (lstrip-StartsTight s starts) ∙ end.0

rstrip_cons-shut : (c : ℕ) (whole s : String) → s ≢ "" → rstrip_cons c whole s ≡ whole
unfolding rstrip_cons
rstrip_cons-shut c whole String.[] h = absurd (h refl)
rstrip_cons-shut c whole (String.◌∷◌ d s) h = refl

EndsTight-cons : (c : Char) (s : String) → EndsTight s → EndsTight (String.◌∷◌ c s)
unfolding rstrip
EndsTight-cons c s (end, full) = (rw end (rstrip_cons-shut (code c) _ s full), cons≢nil)

pub EndsTight-append : (s t : String) → EndsTight t → EndsTight (str_append s t)
EndsTight-append String.[] t h = rw (nil-append t) h
EndsTight-append (String.◌∷◌ c s) t h =
    rw (cons-append c s t) (EndsTight-cons c (str_append s t) (EndsTight-append s t h))

pub StartsTight-append : (s t : String) → StartsTight s → StartsTight (str_append s t)
StartsTight-append String.[] t h = absurd h
StartsTight-append (String.◌∷◌ c s) t h = rw (cons-append c s t) h

pub EndsTight-word : (w : String) → IsWord w → EndsTight w
unfolding rstrip rstrip_cons
EndsTight-word String.[] h = absurd (h.1 refl)
EndsTight-word (String.◌∷◌ c String.[]) h = (rw (h.0.0) refl, h.1)
EndsTight-word (String.◌∷◌ c (String.◌∷◌ d s)) h =
    EndsTight-cons c (String.◌∷◌ d s) (EndsTight-word (String.◌∷◌ d s) (h.0.1, cons≢nil))

pub StartsTight-word : (w : String) → IsWord w → StartsTight w
StartsTight-word String.[] h = absurd (h.1 refl)
StartsTight-word (String.◌∷◌ c s) h = h.0.0

pub strip-word : (w : String) → IsWord w → strip w ≡ w
strip-word w h = strip-tight w (StartsTight-word w h) (EndsTight-word w h)

is_space-digit : (d : ℕ) → d < 10 → is_space (b'0' + d) ≡ false
unfolding is_space
is_space-digit d h = ground arith

module _ (p : ℕ → Bool) (digits : (d : ℕ) → d < 10 → p (b'0' + d) ≡ false) where
  show_digits-Free : (fuel n : ℕ) (rest : String) → Free p rest → Free p (show_digits fuel n rest)
  unfolding show_digits
  show_digits-Free zero n rest h = h
  show_digits-Free (suc fuel) n rest h =
      let longer = String.◌∷◌ (digit_char (n % 10)) rest in
      let free : Free p longer =
        (ap p (code-digit_char (n % 10) (omega arith)) ∙ digits (n % 10) (omega arith), h) in
      elim (Bool-cases (eqb (n / 10) 0)) [
        | inl last ↦ rw (last, show_digits) free
        | inr more ↦ rw (more, show_digits) (show_digits-Free fuel (n / 10) longer free)
      ]

  -- The text of a number has digits and the minus only.
  pub show_int-Free : (z : ℤ) → p b'-' ≡ false → Free p (show_int z)
  unfolding show_int
  show_int-Free (pos n) minus = show_digits-Free (suc n) n "" tt
  show_int-Free (negsuc n) minus =
      let shown = show_digits (suc (suc n)) (suc n) "" in
      let starts : str_append "-" shown ≡ String.◌∷◌ "-" shown =
        cons-append "-" "" shown ∙ ap (String.◌∷◌ "-") (nil-append shown) in
      subst (Free p) (sym starts) (minus, show_digits-Free (suc (suc n)) (suc n) "" tt)

-- The text of a number is one word.
pub show_int-IsWord : (z : ℤ) → IsWord (show_int z)
unfolding show_int
show_int-IsWord (pos n) =
    let (d, more, small, shape) = show_digits-shape (suc n) n "" (omega arith) in
    (
      show_int-Free is_space is_space-digit (pos n) (unfold is_space in refl),
      λ empty. cons≢nil (sym shape ∙ empty),
    )
show_int-IsWord (negsuc n) =
    let shown = show_digits (suc (suc n)) (suc n) "" in
    (
      show_int-Free is_space is_space-digit (negsuc n) (unfold is_space in refl),
      λ empty. cons≢nil (sym (cons-append "-" "" shown) ∙ empty),
    )

-- `int` reads the text of a number as the number.
pub int_of-show_int : (z : ℤ) → int_of (show_int z) ≡ some z
unfolding int_of
int_of-show_int z =
    ap (λ (s : String). read_sign (codes s)) (strip-word (show_int z) (show_int-IsWord z))
    ∙ read_sign-show_int z
