-- ===== src/Training/Network/Shapes.antt =====
-- train.py: the shapes of the tensors in `SimpleCNN`.
use distributed_ml_training.Base.{
  ℕ, ◌+◌, ◌-◌, ◌*◌, ◌≤◌, ◌≡◌, ◌≢◌, refl, ◌∙◌, ap, none, some, [], ◌∷◌, arith, ◌>>=◌, ◌⊎◌, inl, inr,
  Bool-cases, eqb,
}
use Prim.Native.Nat.{◌/◌}
use distributed_ml_training.Training.Network.{Layers, SimpleCnn, new_simple_cnn, forward}

module _ (nn : Layers) where
  open nn use {Tensor, Draw, shape}

  -- What the documentation of torch.nn says of the shapes, for the layers that are used.
  pub record IsTorchNn : Type 0 where
    pub conv2d_shape :
        (d : Draw) (i o k n h w : ℕ) (x : Tensor)
        → shape x ≡ n ∷ i ∷ h ∷ w ∷ []
        → k ≤ h
        → k ≤ w
        → (y : Tensor) × (nn.conv2d (nn.new_conv2d d i o k 1) x ≡ some y)
          × (shape y ≡ n ∷ o ∷ (h - k + 1) ∷ (w - k + 1) ∷ [])
    pub relu_shape : (x : Tensor) → shape (nn.relu x) ≡ shape x
    pub dropout_shape :
        (percent : ℕ) (d : Draw) (x : Tensor)
        → shape (nn.dropout (nn.new_dropout percent) d x) ≡ shape x
    pub max_pool2d_shape :
        (n c h w : ℕ) (x : Tensor)
        → shape x ≡ n ∷ c ∷ h ∷ w ∷ []
        → 2 ≤ h
        → 2 ≤ w
        → (y : Tensor) × (nn.max_pool2d 2 x ≡ some y) × (shape y ≡ n ∷ c ∷ (h / 2) ∷ (w / 2) ∷ [])
    pub flatten_shape :
        (n c h w : ℕ) (x : Tensor)
        → shape x ≡ n ∷ c ∷ h ∷ w ∷ []
        → (y : Tensor) × (nn.flatten 1 x ≡ some y) × (shape y ≡ n ∷ (c * h * w) ∷ [])
    pub linear_shape :
        (d : Draw) (i o n : ℕ) (x : Tensor)
        → shape x ≡ n ∷ i ∷ []
        → (y : Tensor) × (nn.linear (nn.new_linear d i o) x ≡ some y) × (shape y ≡ n ∷ o ∷ [])
    pub linear_raises :
        (d : Draw) (i o n k : ℕ) (x : Tensor)
        → shape x ≡ n ∷ k ∷ []
        → k ≢ i
        → nn.linear (nn.new_linear d i o) x ≡ none
    pub log_softmax_shape :
        (n c : ℕ) (x : Tensor)
        → shape x ≡ n ∷ c ∷ []
        → (y : Tensor) × (nn.log_softmax 1 x ≡ some y) × (shape y ≡ n ∷ c ∷ [])

same_or_other : (a b : ℕ) → (a ≡ b) ⊎ (a ≢ b)
same_or_other a b = elim (Bool-cases (eqb a b)) [
  | inl e ↦ inl (ground arith)
  | inr e ↦ inr (λ h. ground arith)
]

-- The number of features of an image before the first linear layer.
abbrev pub features : (h w : ℕ) → ℕ
features h w = 64 * ((h - 4) / 2) * ((w - 4) / 2)

module _ (nn : Layers) (laws : IsTorchNn nn) (weights : ℕ → nn.Draw) (draw₁ draw₂ : nn.Draw) where
  open nn use {Tensor, Draw, shape}

  abbrev net : SimpleCnn nn
  net = new_simple_cnn nn weights

  two_less : (h : ℕ) → 6 ≤ h → h - 3 + 1 - 3 + 1 ≡ h - 4
  two_less h e = omega arith

  -- The part before the linear layers.
  flattened :
      (n h w : ℕ) (x : Tensor)
      → shape x ≡ n ∷ 1 ∷ h ∷ w ∷ []
      → 6 ≤ h
      → 6 ≤ w
      → (y : Tensor) × (shape y ≡ n ∷ features h w ∷ [])
        × (forward nn net draw₁ draw₂ x ≡ (do
          x₅ ← nn.linear (nn.new_linear (weights 2) 9216 128) y
          x₆ ←
              nn.linear
                (nn.new_linear (weights 3) 128 10)
                (nn.dropout (nn.new_dropout 50) draw₂ (nn.relu x₅))
          nn.log_softmax 1 x₆))
  unfolding forward new_simple_cnn
  flattened n h w x e eh ew =
      let (x₁, e₁, s₁) =
        laws.conv2d_shape (weights 0) 1 32 3 n h w x e (omega arith) (omega arith) in
      let (x₂, e₂, s₂) =
        laws.conv2d_shape (weights 1) 32 64 3 n (h - 3 + 1) (w - 3 + 1) (nn.relu x₁)
          (laws.relu_shape x₁ ∙ s₁) (omega arith) (omega arith) in
      let (x₃, e₃, s₃) =
        laws.max_pool2d_shape n 64 (h - 4) (w - 4) (nn.relu x₂)
          (laws.relu_shape x₂ ∙ s₂ ∙ (λ i. n ∷ 64 ∷ two_less h eh i ∷ two_less w ew i ∷ []))
          (omega arith) (omega arith) in
      let (x₄, e₄, s₄) =
        laws.flatten_shape n 64 ((h - 4) / 2) ((w - 4) / 2)
          (nn.dropout (nn.new_dropout 25) draw₁ x₃) (laws.dropout_shape 25 draw₁ x₃ ∙ s₃) in
      (x₄, s₄, rw (e₁, e₂, e₃, e₄) refl)

  -- Images of one channel and at least six rows and columns: either the first linear layer gets the
  -- 9216 features that it is made for, as for images of 28 rows and columns, and the network gives
  -- ten values for each image, or it gets another number, and the network raises.
  pub forward_shape :
      (n h w : ℕ) (x : Tensor)
      → shape x ≡ n ∷ 1 ∷ h ∷ w ∷ []
      → 6 ≤ h
      → 6 ≤ w
      → ((features h w ≡ 9216)
          × (y : Tensor) × (forward nn net draw₁ draw₂ x ≡ some y)
          × (shape y ≡ n ∷ 10 ∷ []))
        ⊎ (features h w ≢ 9216) × (forward nn net draw₁ draw₂ x ≡ none)
  forward_shape n h w x e eh ew =
      let (y, s, rest) = flattened n h w x e eh ew in
      elim (same_or_other (features h w) 9216) [
        | inl fits ↦
            let (x₅, e₅, s₅) =
              laws.linear_shape (weights 2) 9216 128 n y (s ∙ ap (λ (k : ℕ). n ∷ k ∷ []) fits) in
            let (x₆, e₆, s₆) =
              laws.linear_shape (weights 3) 128 10 n
                (nn.dropout (nn.new_dropout 50) draw₂ (nn.relu x₅))
                (laws.dropout_shape 50 draw₂ (nn.relu x₅) ∙ laws.relu_shape x₅ ∙ s₅) in
            let (z, e₇, s₇) = laws.log_softmax_shape n 10 x₆ s₆ in
            inl (fits, z, rest ∙ rw (e₅, e₆) e₇, s₇)
        | inr other ↦ inr (
          other,
          rest ∙ rw (laws.linear_raises (weights 2) 9216 128 n (features h w) y s other) refl,
        )
      ]
