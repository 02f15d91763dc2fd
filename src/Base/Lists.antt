-- ===== src/Base/Lists.antt =====
-- Lists measured by native numbers, Boolean searches, and predicates by recursion on a list.
use Prim.Native.Nat.{ℕ, zero, suc, min}
use mathlib.Core.Path.{◌≡◌, refl, ap, subst}
use mathlib.Core.Logic.{◌⊎◌, ◌≢◌, inl, inr}
use mathlib.Core.List.{List, [], ◌∷◌, ◌++◌, map}
use mathlib.Core.Bool.{Bool, true, false, ◌||◌}
use native.Mathlib.Omega.{arith}
use distributed_ml_training.Base.Tests.{if◌then◌else◌, Bool-cases}

module _ {ℓ} {A : Type ℓ} where
  abbrev pub length : List A → ℕ
  length [] = 0
  length (x ∷ xs) = suc (length xs)

  abbrev pub take : ℕ → List A → List A
  take zero xs = []
  take (suc n) [] = []
  take (suc n) (x ∷ xs) = x ∷ take n xs

  abbrev pub drop : ℕ → List A → List A
  drop zero xs = xs
  drop (suc n) [] = []
  drop (suc n) (x ∷ xs) = drop n xs

  -- [x for x in xs if p(x)]
  abbrev pub keep : (A → Bool) → List A → List A
  keep p [] = []
  keep p (x ∷ xs) = if p x then x ∷ keep p xs else keep p xs

  -- any(p(x) for x in xs)
  abbrev pub any : (A → Bool) → List A → Bool
  any p [] = false
  any p (x ∷ xs) = p x || any p xs

  -- Every element satisfies `P`.
  abbrev pub All {κ} : (A → Type κ) → List A → Type κ
  All P [] = Unit
  All P (x ∷ xs) = P x × All P xs

-- `x` stands in the list.
abbrev pub In : {A : Type 0} → A → List A → Type 0
In x [] = ⊥
In x (y ∷ ys) = (x ≡ y) ⊎ In x ys

-- No element stands twice.
abbrev pub Distinct : {A : Type 0} → List A → Type 0
Distinct [] = Unit
Distinct (x ∷ xs) = All (λ y. x ≢ y) xs × Distinct xs

module _ {A : Type 0} where
  pub All-at : (P : A → Type 0) {a : A} (xs : List A) → All P xs → In a xs → P a
  All-at P [] h m = elim m [ ]
  All-at P (x ∷ xs) h (inl e) = rw e h.0
  All-at P (x ∷ xs) h (inr m) = All-at P xs h.1 m

  pub All-of_In : (P : A → Type 0) (xs : List A) → ((a : A) → In a xs → P a) → All P xs
  All-of_In P [] h = tt
  All-of_In P (x ∷ xs) h = (h x (inl refl), All-of_In P xs (λ a m. h a (inr m)))

  pub In-append_left : (a : A) (xs ys : List A) → In a xs → In a (xs ++ ys)
  In-append_left a [] ys m = elim m [ ]
  In-append_left a (x ∷ xs) ys (inl e) = inl e
  In-append_left a (x ∷ xs) ys (inr m) = inr (In-append_left a xs ys m)

  pub In-append_right : (a : A) (xs ys : List A) → In a ys → In a (xs ++ ys)
  In-append_right a [] ys m = m
  In-append_right a (x ∷ xs) ys m = inr (In-append_right a xs ys m)

  pub In-append : (a : A) (xs ys : List A) → In a (xs ++ ys) → In a xs ⊎ In a ys
  In-append a [] ys m = inr m
  In-append a (x ∷ xs) ys (inl e) = inl (inl e)
  In-append a (x ∷ xs) ys (inr m) = elim (In-append a xs ys m) [
    | inl l ↦ inl (inr l)
    | inr r ↦ inr r
  ]

  pub In-keep : {a : A} (p : A → Bool) (xs : List A) → In a (keep p xs) → In a xs × (p a ≡ true)
  In-keep p [] m = elim m [ ]
  In-keep {a} p (x ∷ xs) m = elim (Bool-cases (p x)) [
    | inl e ↦ elim (subst (λ (b : Bool). In a (if b then x ∷ keep p xs else keep p xs)) e m) [
      | inl same ↦ (inl same, rw same e)
      | inr later ↦ let (k, h) = In-keep p xs later in (inr k, h)
    ]
    | inr e ↦
        let (k, h) =
          In-keep p xs (subst (λ (b : Bool). In a (if b then x ∷ keep p xs else keep p xs)) e m) in
        (inr k, h)
  ]

  pub In-keep_of : {a : A} (p : A → Bool) (xs : List A) → In a xs → p a ≡ true → In a (keep p xs)
  In-keep_of p [] m h = elim m [ ]
  In-keep_of p (x ∷ xs) (inl e) h = rw (← e, h) (inl refl)
  In-keep_of p (x ∷ xs) (inr m) h = elim (Bool-cases (p x)) [
    | inl e ↦ rw e (inr (In-keep_of p xs m h))
    | inr e ↦ rw e (In-keep_of p xs m h)
  ]

  pub All-append {κ} : (P : A → Type κ) (xs ys : List A) → All P xs → All P ys → All P (xs ++ ys)
  All-append P [] ys hx hy = hy
  All-append P (x ∷ xs) ys hx hy = (hx.0, All-append P xs ys hx.1 hy)

  pub Distinct-snoc :
      (a : A) (xs : List A) → Distinct xs → All (λ x. x ≢ a) xs → Distinct (xs ++ a ∷ [])
  Distinct-snoc a [] d h = (tt, tt)
  Distinct-snoc a (x ∷ xs) d h =
      (All-append (λ y. x ≢ y) xs (a ∷ []) d.0 (h.0, tt), Distinct-snoc a xs d.1 h.1)

module _ {A B : Type 0} where
  pub In-map : (a : A) (f : A → B) (xs : List A) → In a xs → In (f a) (map f xs)
  In-map a f [] m = elim m [ ]
  In-map a f (x ∷ xs) (inl e) = inl (ap f e)
  In-map a f (x ∷ xs) (inr m) = inr (In-map a f xs m)

  pub exists_of_In-map :
      {b : B} (f : A → B) (xs : List A) → In b (map f xs) → (a : A) × In a xs × (b ≡ f a)
  exists_of_In-map f [] m = elim m [ ]
  exists_of_In-map f (x ∷ xs) (inl e) = (x, inl refl, e)
  exists_of_In-map f (x ∷ xs) (inr m) = let (a, k, e) = exists_of_In-map f xs m in (a, inr k, e)

module _ {ℓ} {A : Type ℓ} where
  pub take-append-drop : (n : ℕ) (xs : List A) → take n xs ++ drop n xs ≡ xs
  take-append-drop zero xs = refl
  take-append-drop (suc n) [] = refl
  take-append-drop (suc n) (x ∷ xs) = ap (◌∷◌ x) (take-append-drop n xs)

  pub length-take : (n : ℕ) (xs : List A) → length (take n xs) ≡ min n (length xs)
  length-take zero xs = omega arith
  length-take (suc n) [] = omega arith
  length-take (suc n) (x ∷ xs) = omega (arith, length-take n xs)

module _ {ℓ} {A : Type ℓ} where
  pub length-snoc : (xs : List A) (a : A) → length (xs ++ a ∷ []) ≡ suc (length xs)
  length-snoc [] a = refl
  length-snoc (x ∷ xs) a = ap suc (length-snoc xs a)

module _ {A : Type 0} where
  pub In-take : (a : A) (n : ℕ) (xs : List A) → In a (take n xs) → In a xs
  In-take a zero xs m = elim m [ ]
  In-take a (suc n) [] m = elim m [ ]
  In-take a (suc n) (x ∷ xs) (inl e) = inl e
  In-take a (suc n) (x ∷ xs) (inr m) = inr (In-take a n xs m)

module _ {A : Type 0} where
  pub All-keep : (P : A → Type 0) (p : A → Bool) (xs : List A) → All P xs → All P (keep p xs)
  All-keep P p [] h = tt
  All-keep P p (x ∷ xs) h = elim (Bool-cases (p x)) [
    | inl e ↦ rw e (h.0, All-keep P p xs h.1)
    | inr e ↦ rw e (All-keep P p xs h.1)
  ]

  pub Distinct-keep : (p : A → Bool) (xs : List A) → Distinct xs → Distinct (keep p xs)
  Distinct-keep p [] h = tt
  Distinct-keep p (x ∷ xs) h = elim (Bool-cases (p x)) [
    | inl e ↦ rw e (All-keep (λ y. x ≢ y) p xs h.0, Distinct-keep p xs h.1)
    | inr e ↦ rw e (Distinct-keep p xs h.1)
  ]
