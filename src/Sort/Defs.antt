-- ===== src/Sort/Defs.antt =====
-- The stable descending sort.
use distributed_ml_training.Base.{List, [], ◌∷◌, Bool, if◌then◌else◌}

module _ {ℓ} {A : Type ℓ} where
  -- `x` stood before all of the list, so it passes only elements with a greater key.
  unfoldable pub insert_desc : (A → A → Bool) → A → List A → List A
  insert_desc lt x [] = x ∷ []
  insert_desc lt x (y ∷ ys) = if lt x y then y ∷ insert_desc lt x ys else x ∷ y ∷ ys

  unfoldable pub sort_desc : (A → A → Bool) → List A → List A
  unfolding insert_desc
  sort_desc lt [] = []
  sort_desc lt (x ∷ xs) = insert_desc lt x (sort_desc lt xs)
