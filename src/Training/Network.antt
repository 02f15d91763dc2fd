-- ===== src/Training/Network.antt =====
-- train.py: the network `SimpleCNN`. The layers of torch.nn are a parameter; a call that raises on a
-- tensor of the wrong shape is `none`.
pub mod Shapes
use distributed_ml_training.Base.{ℕ, Option, none, some, List, [], ◌∷◌, ◌>>=◌}

pub record Layers : Type 1 where
  pub Tensor : Type 0
  pub Conv2d : Type 0
  pub Dropout : Type 0
  pub Linear : Type 0
  -- What a random generator gives, for the weights of a layer or for a dropout.
  pub Draw : Type 0
  pub shape : Tensor → List ℕ
  pub new_conv2d : (weights : Draw) (in_channels out_channels kernel_size stride : ℕ) → Conv2d
  -- The probability is in hundredths.
  pub new_dropout : (percent : ℕ) → Dropout
  pub new_linear : (weights : Draw) (in_features out_features : ℕ) → Linear
  pub conv2d : Conv2d → Tensor → Option Tensor
  pub dropout : Dropout → Draw → Tensor → Tensor
  pub linear : Linear → Tensor → Option Tensor
  pub relu : Tensor → Tensor
  pub max_pool2d : (kernel_size : ℕ) → Tensor → Option Tensor
  pub flatten : (start_dim : ℕ) → Tensor → Option Tensor
  pub log_softmax : (dim : ℕ) → Tensor → Option Tensor

module _ (nn : Layers) where
  open nn use {Tensor, Conv2d, Dropout, Linear, Draw}

  pub record SimpleCnn : Type 0 where
    pub conv1 : Conv2d
    pub conv2 : Conv2d
    pub dropout1 : Dropout
    pub dropout2 : Dropout
    pub fc1 : Linear
    pub fc2 : Linear

  -- `__init__`
  unfoldable pub new_simple_cnn : (weights : ℕ → Draw) → SimpleCnn
  new_simple_cnn weights = record {
    conv1 = nn.new_conv2d (weights 0) 1 32 3 1;
    conv2 = nn.new_conv2d (weights 1) 32 64 3 1;
    dropout1 = nn.new_dropout 25;
    dropout2 = nn.new_dropout 50;
    fc1 = nn.new_linear (weights 2) 9216 128;
    fc2 = nn.new_linear (weights 3) 128 10;
  }

  unfoldable pub forward : SimpleCnn → (draw₁ draw₂ : Draw) → Tensor → Option Tensor
  forward net draw₁ draw₂ x = do
    x₁ ← nn.conv2d net.conv1 x
    x₂ ← nn.conv2d net.conv2 (nn.relu x₁)
    x₃ ← nn.max_pool2d 2 (nn.relu x₂)
    x₄ ← nn.flatten 1 (nn.dropout net.dropout1 draw₁ x₃)
    x₅ ← nn.linear net.fc1 x₄
    x₆ ← nn.linear net.fc2 (nn.dropout net.dropout2 draw₂ (nn.relu x₅))
    nn.log_softmax 1 x₆
