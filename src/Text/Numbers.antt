-- ===== src/Text/Numbers.antt =====
-- Python's `str(n)` and `int(text)` for an int, in decimal. `int` takes spaces round the number, a
-- sign, and single underscores between the digits; its digits are those of ASCII.
use Prim.Native.Nat.{◌/◌, ◌%◌}
use Prim.Native.Char.{Char, code}
use Prim.Native.String.{◌++◌ as str_append}
use text.Mathlib.TextLemmas.{nil-append, cons-append}
use distributed_ml_training.Base.{
  ℕ, zero, suc, ◌+◌, ◌-◌, ◌*◌, ◌<◌, ◌≡◌, refl, sym, ◌∙◌, ap, ℤ, pos, negsuc, String, Option, none,
  some, Bool, true, false, List, [], ◌∷◌, eqb, if◌then◌else◌, arith,
}
use distributed_ml_training.Text.{codes, is_digit, strip}

-- The character of a digit.
unfoldable pub digit_char : ℕ → Char
digit_char d =
    if eqb d 0
    then "0"
    else if eqb d 1
    then "1"
    else if eqb d 2
    then "2"
    else if eqb d 3
    then "3"
    else if eqb d 4
    then "4"
    else if eqb d 5
    then "5"
    else if eqb d 6
    then "6"
    else if eqb d 7
    then "7"
    else if eqb d 8
    then "8"
    else "9"

-- The digits of `n` in front of a text. The fuel bounds their number; `n + 1` is enough.
unfoldable pub show_digits : (fuel n : ℕ) → String → String
unfolding digit_char
show_digits zero n rest = rest
show_digits (suc fuel) n rest =
    let longer = String.◌∷◌ (digit_char (n % 10)) rest in
    elim (eqb (n / 10) 0) [ true ↦ longer | false ↦ show_digits fuel (n / 10) longer ]

-- str(n)
unfoldable pub show_int : ℤ → String
unfolding show_digits
show_int (pos n) = show_digits (suc n) n ""
show_int (negsuc n) = str_append "-" (show_digits (suc (suc n)) (suc n) "")

-- The digits that are left, behind some that were read. `ready` is false at the start and behind an
-- underscore, where a digit must follow.
unfoldable pub read_digits : (ready : Bool) → ℕ → List ℕ → Option ℕ
unfolding is_digit
read_digits ready n [] = if ready then some n else none
read_digits ready n (c ∷ cs) =
    let digit = read_digits true (n * 10 + (c - b'0')) cs in
    let underscore = read_digits false n cs in
    if is_digit c then digit else if ready then (if eqb c b'_' then underscore else none) else none

unfoldable pub read_sign : List ℕ → Option ℤ
unfolding read_digits
read_sign [] = none
read_sign (c ∷ cs) =
    if eqb c b'-'
    then (elim (read_digits false 0 cs) [
      | none ↦ none
      | some zero ↦ some (pos 0)
      | some (suc n) ↦ some (negsuc n)
    ])
    else (let digits = if eqb c b'+' then cs else c ∷ cs in
        elim (read_digits false 0 digits) [ none ↦ none | some n ↦ some (pos n) ])

-- int(text): `none` is ValueError.
unfoldable pub int_of : String → Option ℤ
unfolding read_sign strip
int_of text = read_sign (codes (strip text))

pub code-digit_char : (d : ℕ) → d < 10 → code (digit_char d) ≡ b'0' + d
unfolding digit_char
code-digit_char zero h = refl
code-digit_char (suc zero) h = refl
code-digit_char (suc (suc zero)) h = refl
code-digit_char (suc (suc (suc zero))) h = refl
code-digit_char (suc (suc (suc (suc zero)))) h = refl
code-digit_char (suc (suc (suc (suc (suc zero))))) h = refl
code-digit_char (suc (suc (suc (suc (suc (suc zero)))))) h = refl
code-digit_char (suc (suc (suc (suc (suc (suc (suc zero))))))) h = refl
code-digit_char (suc (suc (suc (suc (suc (suc (suc (suc zero)))))))) h = refl
code-digit_char (suc (suc (suc (suc (suc (suc (suc (suc (suc zero))))))))) h = refl
code-digit_char (suc (suc (suc (suc (suc (suc (suc (suc (suc (suc d)))))))))) h =
    absurd (omega arith)

is_digit-add : (d : ℕ) → d < 10 → is_digit (b'0' + d) ≡ true
unfolding is_digit
is_digit-add d h = ground arith

-- What is read of a digit's character.
read-digit_char :
    (d n : ℕ) (ready : Bool) (rest : String)
    → d < 10
    → read_digits ready n (codes (String.◌∷◌ (digit_char d) rest))
      ≡ read_digits true (n * 10 + d) (codes rest)
unfolding read_digits
read-digit_char d n ready rest h =
    rw (code-digit_char d h, is_digit-add d h)
      (ap (λ (k : ℕ). read_digits true (n * 10 + k) (codes rest)) (omega arith))

-- With enough fuel, what is read of a number's digits is the number.
read-show_digits :
    (fuel n : ℕ) (ready : Bool) (rest : String)
    → n < fuel
    → read_digits ready 0 (codes (show_digits fuel n rest)) ≡ read_digits true n (codes rest)
unfolding show_digits
read-show_digits zero n ready rest h = absurd (omega arith)
read-show_digits (suc fuel) n ready rest h =
    go (eqb (n / 10) 0) refl (λ p. read-show_digits fuel (n / 10) ready longer p)
  where
    longer : String
    longer = String.◌∷◌ (digit_char (n % 10)) rest

    go :
        (b : Bool)
        → eqb (n / 10) 0 ≡ b
        → (n / 10 < fuel
            → read_digits ready 0 (codes (show_digits fuel (n / 10) longer))
              ≡ read_digits true (n / 10) (codes longer))
        → read_digits ready 0
            (codes (elim b [ true ↦ longer | false ↦ show_digits fuel (n / 10) longer ]))
          ≡ read_digits true n (codes rest)
    go true e ih =
        read-digit_char (n % 10) 0 ready rest (omega arith)
        ∙ ap (λ (k : ℕ). read_digits true k (codes rest)) (ground arith)
    go false e ih =
        ih (ground arith)
        ∙ read-digit_char (n % 10) (n / 10) true rest (omega arith)
        ∙ ap (λ (k : ℕ). read_digits true k (codes rest)) (omega arith)

pub show_digits-shape :
    (fuel n : ℕ) (rest : String)
    → n < fuel
    → (d : ℕ) × (more : String) × (d < 10)
      × (show_digits fuel n rest ≡ String.◌∷◌ (digit_char d) more)
unfolding show_digits
show_digits-shape zero n rest h = absurd (omega arith)
show_digits-shape (suc fuel) n rest h =
    go (eqb (n / 10) 0) refl (λ p. show_digits-shape fuel (n / 10) longer p)
  where
    longer : String
    longer = String.◌∷◌ (digit_char (n % 10)) rest

    Shape : String → Type 0
    Shape s = (d : ℕ) × (more : String) × (d < 10) × (s ≡ String.◌∷◌ (digit_char d) more)

    go :
        (b : Bool)
        → eqb (n / 10) 0 ≡ b
        → (n / 10 < fuel → Shape (show_digits fuel (n / 10) longer))
        → Shape (elim b [ true ↦ longer | false ↦ show_digits fuel (n / 10) longer ])
    go true e ih = (n % 10, rest, omega arith, refl)
    go false e ih = ih (ground arith)

read_sign-digits :
    (d n : ℕ) (cs : List ℕ)
    → d < 10
    → read_digits false 0 ((b'0' + d) ∷ cs) ≡ some n
    → read_sign ((b'0' + d) ∷ cs) ≡ some (pos n)
unfolding read_sign
read_sign-digits d n cs h e =
    let minus : eqb (b'0' + d) b'-' ≡ false = ground arith in
    let plus : eqb (b'0' + d) b'+' ≡ false = ground arith in rw (minus, plus, e) refl

read_sign-minus :
    (n : ℕ) (s : String)
    → read_digits false 0 (codes s) ≡ some (suc n)
    → read_sign (codes (str_append "-" s)) ≡ some (negsuc n)
unfolding read_sign
read_sign-minus n s e =
    ap (λ (t : String). read_sign (codes t))
      (cons-append "-" "" s ∙ ap (String.◌∷◌ "-") (nil-append s))
    ∙ rw e refl

-- What is read of a number's text is the number.
pub read_sign-show_int : (z : ℤ) → read_sign (codes (show_int z)) ≡ some z
unfolding show_int
read_sign-show_int (pos n) =
    let (d, more, small, shape) = show_digits-shape (suc n) n "" (omega arith) in
    let starts : codes (show_digits (suc n) n "") ≡ (b'0' + d) ∷ codes more =
      ap codes shape ∙ ap (λ (c : ℕ). c ∷ codes more) (code-digit_char d small) in
    let read = read-show_digits (suc n) n false "" (omega arith) in
    ap read_sign starts
    ∙ read_sign-digits d n (codes more) small
        (ap (read_digits false 0) (sym starts) ∙ read ∙ (unfold read_digits in refl))
read_sign-show_int (negsuc n) =
    read_sign-minus n (show_digits (suc (suc n)) (suc n) "")
      (read-show_digits (suc (suc n)) (suc n) false "" (omega arith) ∙ (unfold read_digits in refl))
