-- ===== src/Sort/Laws.antt =====
-- Laws of the descending sort: order, rearrangement, stability.
use mathlib.Core.List.{Perm}
use mathlib.Core.List.Perm
use distributed_ml_training.Base.{
  suc, ◌≡◌, refl, ap, ◌∙◌, List, [], ◌∷◌, ◌++◌, Bool, true, false, All, In, keep, if◌then◌else◌,
  length, inl, inr, arith, Bool-cases,
}
use distributed_ml_training.Sort.Defs.{insert_desc, sort_desc}

module _ {ℓ} {A : Type ℓ} (lt : A → A → Bool) where
  -- No element is below one that stands behind it.
  abbrev pub IsDesc : List A → Type 0
  IsDesc [] = Unit
  IsDesc (x ∷ xs) = All (λ y. lt x y ≡ false) xs × IsDesc xs

  insert_desc-perm : (x : A) (ys : List A) → Perm (insert_desc lt x ys) (x ∷ ys)
  unfolding insert_desc
  insert_desc-perm x [] = Perm.rfl
  insert_desc-perm x (y ∷ ys) = elim (Bool-cases (lt x y)) [
    | inl e ↦ rw e (Perm.trans (Perm.cons y (insert_desc-perm x ys)) (Perm.swap x y ys))
    | inr e ↦ rw e Perm.rfl
  ]

  -- The sort loses and invents nothing.
  pub sort_desc-perm : (xs : List A) → Perm (sort_desc lt xs) xs
  unfolding sort_desc
  sort_desc-perm [] = Perm.rfl
  sort_desc-perm (x ∷ xs) =
      Perm.trans (insert_desc-perm x (sort_desc lt xs)) (Perm.cons x (sort_desc-perm xs))

  insert_desc-length : (x : A) (ys : List A) → length (insert_desc lt x ys) ≡ suc (length ys)
  unfolding insert_desc
  insert_desc-length x [] = refl
  insert_desc-length x (y ∷ ys) = ground (arith, insert_desc-length x ys)

  pub length-sort_desc : (xs : List A) → length (sort_desc lt xs) ≡ length xs
  unfolding sort_desc
  length-sort_desc [] = refl
  length-sort_desc (x ∷ xs) = insert_desc-length x (sort_desc lt xs) ∙ ap suc (length-sort_desc xs)

  module _ {κ} (P : A → Type κ) where
    All-insert_desc : (x : A) (ys : List A) → P x → All P ys → All P (insert_desc lt x ys)
    unfolding insert_desc
    All-insert_desc x [] px h = (px, tt)
    All-insert_desc x (y ∷ ys) px h = elim (Bool-cases (lt x y)) [
      | inl e ↦ rw e (h.0, All-insert_desc x ys px h.1)
      | inr e ↦ rw e (px, h)
    ]

    pub All-sort_desc : (xs : List A) → All P xs → All P (sort_desc lt xs)
    unfolding sort_desc
    All-sort_desc [] h = tt
    All-sort_desc (x ∷ xs) h = All-insert_desc x (sort_desc lt xs) h.0 (All-sort_desc xs h.1)

  insert_desc_of_All :
      (x : A) (ys : List A) → All (λ y. lt x y ≡ false) ys → insert_desc lt x ys ≡ x ∷ ys
  unfolding insert_desc
  insert_desc_of_All x [] h = refl
  insert_desc_of_All x (y ∷ ys) h = rw h.0

  -- A list in order stays as it is.
  pub sort_desc_of_IsDesc : (xs : List A) → IsDesc xs → sort_desc lt xs ≡ xs
  unfolding sort_desc
  sort_desc_of_IsDesc [] h = refl
  sort_desc_of_IsDesc (x ∷ xs) h = rw (sort_desc_of_IsDesc xs h.1) (insert_desc_of_All x xs h.0)

-- The elements of a class with equal keys keep their order.
module _ {ℓ} {A : Type ℓ} (lt : A → A → Bool) (p : A → Bool)
    (equal : (x y : A) → p x ≡ true → p y ≡ true → lt x y ≡ false) where
  keep-insert_desc : (x : A) (ys : List A) → keep p (insert_desc lt x ys) ≡ keep p (x ∷ ys)
  unfolding insert_desc
  keep-insert_desc x [] = refl
  keep-insert_desc x (y ∷ ys) = ground (arith, equal x y, keep-insert_desc x ys)

  pub keep-sort_desc : (xs : List A) → keep p (sort_desc lt xs) ≡ keep p xs
  unfolding sort_desc
  keep-sort_desc [] = refl
  keep-sort_desc (x ∷ xs) = ground (arith, keep-insert_desc x (sort_desc lt xs), keep-sort_desc xs)

-- The hypotheses on the order: `<` holds in one direction, and its failure is transitive.
module _ {ℓ} {A : Type ℓ} (lt : A → A → Bool) (asym : (a b : A) → lt a b ≡ true → lt b a ≡ false)
    (step : (a b c : A) → lt a b ≡ false → lt b c ≡ false → lt a c ≡ false) where
  All-behind :
      (x y : A) (ys : List A)
      → lt x y ≡ false
      → All (λ z. lt y z ≡ false) ys
      → All (λ z. lt x z ≡ false) ys
  All-behind x y [] e h = tt
  All-behind x y (z ∷ zs) e h = (step x y z e h.0, All-behind x y zs e h.1)

  insert_desc-IsDesc : (x : A) (ys : List A) → IsDesc lt ys → IsDesc lt (insert_desc lt x ys)
  unfolding insert_desc
  insert_desc-IsDesc x [] h = (tt, tt)
  insert_desc-IsDesc x (y ∷ ys) h = elim (Bool-cases (lt x y)) [
    | inl e ↦ rw e (
      All-insert_desc lt (λ z. lt y z ≡ false) x ys (asym x y e) h.0,
      insert_desc-IsDesc x ys h.1,
    )
    | inr e ↦ rw e ((e, All-behind x y ys e h.0), h)
  ]

  pub sort_desc-IsDesc : (xs : List A) → IsDesc lt (sort_desc lt xs)
  unfolding sort_desc
  sort_desc-IsDesc [] = tt
  sort_desc-IsDesc (x ∷ xs) = insert_desc-IsDesc x (sort_desc lt xs) (sort_desc-IsDesc xs)

-- The list splits anywhere: what stands in the front part is not below what stands behind.
module _ {ℓ} {A : Type ℓ} (lt : A → A → Bool) where
  All-front :
      (x : A) (xs ys : List A) → All (λ y. lt x y ≡ false) (xs ++ ys) → All (λ y. lt x y ≡ false) ys
  All-front x [] ys h = h
  All-front x (z ∷ xs) ys h = All-front x xs ys h.1

  pub IsDesc-append :
      (xs ys : List A) → IsDesc lt (xs ++ ys) → All (λ x. All (λ y. lt x y ≡ false) ys) xs
  IsDesc-append [] ys h = tt
  IsDesc-append (x ∷ xs) ys h = (All-front x xs ys h.0, IsDesc-append xs ys h.1)

-- What stands in the sorted list stands in the list.
module _ {A : Type 0} (lt : A → A → Bool) where
  In-insert_desc : (a x : A) (ys : List A) → In a (insert_desc lt x ys) → In a (x ∷ ys)
  unfolding insert_desc
  In-insert_desc a x [] m = m
  In-insert_desc a x (y ∷ ys) m = go (lt x y) m (In-insert_desc a x ys)
    where
      go :
          (b : Bool)
          → In a (if b then y ∷ insert_desc lt x ys else x ∷ y ∷ ys)
          → (In a (insert_desc lt x ys) → In a (x ∷ ys))
          → In a (x ∷ y ∷ ys)
      go true (inl e) ih = inr (inl e)
      go true (inr k) ih = elim (ih k) [ inl e ↦ inl e | inr l ↦ inr (inr l) ]
      go false k ih = k

  pub In-sort_desc : (a : A) (xs : List A) → In a (sort_desc lt xs) → In a xs
  unfolding sort_desc
  In-sort_desc a [] m = m
  In-sort_desc a (x ∷ xs) m = elim (In-insert_desc a x (sort_desc lt xs) m) [
    | inl e ↦ inl e
    | inr k ↦ inr (In-sort_desc a xs k)
  ]
