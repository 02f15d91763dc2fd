-- ===== src/Base/Assoc.antt =====
-- Python's `dict` with text keys, as a list of items. The program never iterates over one.
use Prim.Native.String.{String}
use mathlib.Core.Path.{◌≡◌, refl}
use mathlib.Core.Option.{Option, none, some}
use mathlib.Core.List.{List, [], ◌∷◌}
use native.Mathlib.Omega.{arith}
use text.Mathlib.Text.{◌==◌}
use text.Mathlib.TextEquality.{eq_iff}
use distributed_ml_training.Base.Tests.{if◌then◌else◌}

-- The items of a dict.
abbrev pub Dict {ℓ} : Type ℓ → Type ℓ
Dict V = List (String × V)

module _ {ℓ} {V : Type ℓ} where
  -- d.get(key)
  unfoldable pub lookup : String → Dict V → Option V
  lookup key [] = none
  lookup key (item ∷ d) = if key == item.0 then some item.1 else lookup key d

  -- d[key] = value: in place, or at the end.
  unfoldable pub insert : String → V → Dict V → Dict V
  insert key value [] = (key, value) ∷ []
  insert key value (item ∷ d) =
      if key == item.0 then (key, value) ∷ d else item ∷ insert key value d

  -- Every key has its old value, but the one that was set.
  pub lookup-insert :
      (d : Dict V) (key other : String) (value : V)
      → lookup other (insert key value d) ≡ (if other == key then some value else lookup other d)
  unfolding lookup insert
  lookup-insert [] key other value = refl
  lookup-insert (item ∷ d) key other value = ground (
    arith,
    lookup-insert d key other value,
    eq_iff other key,
    eq_iff key item.0,
    eq_iff other item.0,
  )
