-- ===== src/Floats.antt =====
-- Python's floats, which the allocator and the autoscaler compute with: a type with the operations
-- that the code calls, taken as a parameter.
use distributed_ml_training.Base.{ℕ, ℤ, ◌≡◌, Bool, true, false, List}

pub record Floats : Type 1 where
  pub Float : Type 0
  -- float(n) for an int
  pub of_int : ℤ → Float
  -- float(text) for the code points of a decimal text
  pub of_text : List ℕ → Float
  pub plus : Float → Float → Float
  pub times : Float → Float → Float
  pub divide : Float → Float → Float
  -- a < b
  pub less : Float → Float → Bool

-- `<` orders the finite floats: it holds in one direction at most, and what is not less in two
-- steps is not less in one. (A NaN breaks the second law.)
pub record IsOrdered (fl : Floats) : Type 0 where
  pub asym : (a b : fl.Float) → fl.less a b ≡ true → fl.less b a ≡ false
  pub not_less_trans :
      (a b c : fl.Float) → fl.less a b ≡ false → fl.less b c ≡ false → fl.less a c ≡ false
