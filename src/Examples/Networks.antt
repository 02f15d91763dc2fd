-- ===== src/Examples/Networks.antt =====
-- The network of train.py on tensors that are their shapes.
use Prim.Native.Nat.{◌/◌}
use distributed_ml_training.Base.{
  ℕ, ◌+◌, ◌-◌, ◌*◌, ◌≡◌, ◌≢◌, ◌⊎◌, refl, Option, none, some, List, [], ◌∷◌, int_eqb, pos,
  if◌then◌else◌, arith, true, false,
}
use distributed_ml_training.Training.Network.{Layers, new_simple_cnn, forward}
use distributed_ml_training.Training.Network.Shapes.{IsTorchNn, features, forward_shape}

unfoldable conv_shape : ℕ × ℕ → List ℕ → Option (List ℕ)
conv_shape (o, k) (n ∷ c ∷ h ∷ w ∷ []) = some (n ∷ o ∷ (h - k + 1) ∷ (w - k + 1) ∷ [])
conv_shape _ _ = none

unfoldable linear_shape : ℕ × ℕ → List ℕ → Option (List ℕ)
linear_shape (i, o) (n ∷ k ∷ []) = if int_eqb (pos k) (pos i) then some (n ∷ o ∷ []) else none
linear_shape _ _ = none

unfoldable pool_shape : ℕ → List ℕ → Option (List ℕ)
pool_shape k (n ∷ c ∷ h ∷ w ∷ []) = some (n ∷ c ∷ (h / k) ∷ (w / k) ∷ [])
pool_shape _ _ = none

unfoldable flat_shape : List ℕ → Option (List ℕ)
flat_shape (n ∷ c ∷ h ∷ w ∷ []) = some (n ∷ (c * h * w) ∷ [])
flat_shape _ = none

-- The layers by their shapes.
abbrev shapes : Layers
shapes = record {
  Tensor = List ℕ;
  Conv2d = ℕ × ℕ;
  Dropout = ℕ;
  Linear = ℕ × ℕ;
  Draw = ℕ;
  shape = λ x. x;
  new_conv2d = λ d i o k s. (o, k);
  new_dropout = λ p. p;
  new_linear = λ d i o. (i, o);
  conv2d = conv_shape;
  dropout = λ p d x. x;
  linear = linear_shape;
  relu = λ x. x;
  max_pool2d = pool_shape;
  flatten = λ start x. flat_shape x;
  log_softmax = λ dim x. some x;
}

fits : (k : ℕ) → int_eqb (pos k) (pos k) ≡ true
fits k = ground arith

misfits : (k i : ℕ) → k ≢ i → int_eqb (pos k) (pos i) ≡ false
misfits k i h = ground arith

shapes-IsTorchNn : IsTorchNn shapes
unfolding conv_shape linear_shape pool_shape flat_shape
shapes-IsTorchNn = record {
  conv2d_shape = λ d i o k n h w x e _ _. (_, rw e refl, refl);
  relu_shape = λ x. refl;
  dropout_shape = λ p d x. refl;
  max_pool2d_shape = λ n c h w x e _ _. (_, rw e refl, refl);
  flatten_shape = λ n c h w x e. (_, rw e refl, refl);
  linear_shape = λ d i o n x e. (n ∷ o ∷ [], rw (e, fits i) refl, refl);
  linear_raises = λ d i o n k x e h. rw (e, misfits k i h) refl;
  log_softmax_shape = λ n c x e. (x, refl, e);
}

forward_shape_example :
    ((features 28 28 ≡ 9216)
      × (y : List ℕ) × (forward shapes (new_simple_cnn shapes (λ n. n)) 0 1 (64 ∷ 1 ∷ 28 ∷ 28 ∷ [])
          ≡ some y)
      × (y ≡ 64 ∷ 10 ∷ []))
    ⊎ (features 28 28 ≢ 9216)
      × (forward shapes (new_simple_cnn shapes (λ n. n)) 0 1 (64 ∷ 1 ∷ 28 ∷ 28 ∷ []) ≡ none)
forward_shape_example =
    forward_shape shapes shapes-IsTorchNn (λ n. n) 0 1 64 28 28 (64 ∷ 1 ∷ 28 ∷ 28 ∷ []) refl
      (omega arith) (omega arith)
