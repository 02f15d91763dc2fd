-- ===== src/Training/Distributed.antt =====
-- dmlf/distributed/init.py: `setup_distributed` and `cleanup_distributed`. The process group of torch
-- is a parameter; a process group call that raises gives `none`.
use distributed_ml_training.Base.{
  ℕ, ℤ, String, Option, none, some, Bool, not, ◌&&◌, ◌==◌, List, [], ◌∷◌, if◌then◌else◌, Dict,
  lookup, ◌⊎◌, inl, inr,
}
use distributed_ml_training.Text.Numbers.{int_of}

-- torch.distributed and torch.cuda
pub record ProcessGroups : Type 1 where
  pub Group : Type 0
  pub cuda_available : Bool
  pub init_process_group : (backend : String) (timeout_minutes : ℕ) → Group → Option Group
  pub set_device : ℤ → Group → Group
  pub is_initialized : Group → Bool
  pub destroy_process_group : Group → Group

-- What `setup_distributed` returns.
pub record Ranks : Type 0 where
  pub rank : ℤ
  pub local_rank : ℤ
  pub world_size : ℤ

-- What it raises: RuntimeError, ValueError, and an error of torch.
pub data SetupError : Type 0 where
  missing_variable invalid_number : (name : String) → SetupError
  init_failed : SetupError

abbrev pub required_env_vars : List String
required_env_vars = "RANK" ∷ "LOCAL_RANK" ∷ "WORLD_SIZE" ∷ "MASTER_ADDR" ∷ "MASTER_PORT" ∷ []

-- The first of the variables that the environment does not have.
unfoldable pub first_missing : List String → Dict String → Option String
unfolding lookup
first_missing [] env = none
first_missing (var ∷ vars) env = elim (lookup var env) [
  | none ↦ some var
  | some value ↦ first_missing vars env
]

-- int(os.environ[name])
unfoldable pub int_variable : String → Dict String → ℤ ⊎ SetupError
unfolding int_of lookup
int_variable name env = elim (lookup name env) [
  | none ↦ inr (missing_variable name)
  | some text ↦ elim (int_of text) [ none ↦ inr (invalid_number name) | some n ↦ inl n ]
]

-- The three numbers, in the order in which they are read.
unfoldable pub ranks_of : Dict String → Ranks ⊎ SetupError
unfolding int_variable
ranks_of env = elim (int_variable "RANK" env) [
  | inr e ↦ inr e
  | inl rank ↦ elim (int_variable "LOCAL_RANK" env) [
    | inr e ↦ inr e
    | inl local_rank ↦ elim (int_variable "WORLD_SIZE" env) [
      | inr e ↦ inr e
      | inl world_size ↦
          inl (record { rank = rank; local_rank = local_rank; world_size = world_size })
    ]
  ]
]

module _ (groups : ProcessGroups) where
  open groups use {Group}

  -- NCCL without CUDA falls back to Gloo.
  abbrev pub chosen_backend : String → String
  chosen_backend backend =
      if backend == "nccl" && not groups.cuda_available then "gloo" else backend

  -- The steps behind the environment.
  unfoldable pub init_ranks : String → ℕ → Ranks → Group → Group × (Ranks ⊎ SetupError)
  init_ranks backend minutes ranks g =
      elim (groups.init_process_group (chosen_backend backend) minutes g) [
        | none ↦ (g, inr init_failed)
        | some started ↦ (
          if groups.cuda_available then groups.set_device ranks.local_rank started else started,
          inl ranks,
        )
      ]

  unfoldable pub setup_distributed :
      (backend : String) (timeout_minutes : ℕ) → Dict String → Group → Group × (Ranks ⊎ SetupError)
  unfolding first_missing ranks_of init_ranks
  setup_distributed backend minutes env g = elim (first_missing required_env_vars env) [
    | some var ↦ (g, inr (missing_variable var))
    | none ↦ elim (ranks_of env) [
      | inr e ↦ (g, inr e)
      | inl ranks ↦ init_ranks backend minutes ranks g
    ]
  ]

  unfoldable pub cleanup_distributed : Group → Group
  cleanup_distributed g = if groups.is_initialized g then groups.destroy_process_group g else g
