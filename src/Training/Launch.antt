-- ===== src/Training/Launch.antt =====
-- dmlf/distributed/init.py: the set-up in a process that torchrun has started.
use distributed_ml_training.Base.{
  ℕ, ℤ, ◌≡◌, refl, ap, sym, ◌∙◌, String, Option, none, some, List, [], ◌∷◌, Dict, lookup, inl, inr,
  In,
}
use distributed_ml_training.Text.Numbers.{show_int}
use distributed_ml_training.Text.Strip.{int_of-show_int}
use distributed_ml_training.Training.Distributed.{
  ProcessGroups, Ranks, missing_variable, required_env_vars, first_missing, int_variable, ranks_of,
  init_ranks, setup_distributed,
}

-- The environment has what torchrun sets for a process of the job.
pub record IsTorchrun (env : Dict String) (ranks : Ranks) (address port : String) : Type 0 where
  pub rank : lookup "RANK" env ≡ some (show_int ranks.rank)
  pub local_rank : lookup "LOCAL_RANK" env ≡ some (show_int ranks.local_rank)
  pub world_size : lookup "WORLD_SIZE" env ≡ some (show_int ranks.world_size)
  pub master_addr : lookup "MASTER_ADDR" env ≡ some address
  pub master_port : lookup "MASTER_PORT" env ≡ some port

int_variable-show_int :
    (name : String) (z : ℤ) (env : Dict String)
    → lookup name env ≡ some (show_int z)
    → int_variable name env ≡ inl z
unfolding int_variable
int_variable-show_int name z env set = rw (set, int_variable, int_of-show_int z) refl

ranks_of-IsTorchrun :
    (env : Dict String) (ranks : Ranks) (address port : String)
    → IsTorchrun env ranks address port
    → ranks_of env ≡ inl ranks
unfolding ranks_of
ranks_of-IsTorchrun env ranks address port h =
    rw
      (
        int_variable-show_int "RANK" ranks.rank env h.rank,
        int_variable-show_int "LOCAL_RANK" ranks.local_rank env h.local_rank,
        int_variable-show_int "WORLD_SIZE" ranks.world_size env h.world_size,
        ranks_of,
      )
      refl

module _ (groups : ProcessGroups) where
  open groups use {Group}

  -- In a process that torchrun has started, the set-up joins the process group with the chosen
  -- backend and returns the ranks that torchrun has given, unless torch fails to join.
  pub setup_distributed-IsTorchrun :
      (backend : String) (minutes : ℕ) (env : Dict String) (ranks : Ranks) (address port : String)
      (g : Group)
      → IsTorchrun env ranks address port
      → setup_distributed groups backend minutes env g ≡ init_ranks groups backend minutes ranks g
  unfolding setup_distributed first_missing
  setup_distributed-IsTorchrun backend minutes env ranks address port g h =
      rw
        (
          h.rank,
          h.local_rank,
          h.world_size,
          h.master_addr,
          h.master_port,
          first_missing,
          setup_distributed,
          ranks_of-IsTorchrun env ranks address port h,
        )
        refl

-- The first missing variable is one that is missing.
first_missing-lookup :
    (vars : List String) (env : Dict String) (var : String)
    → In var vars
    → lookup var env ≡ none
    → (first : String) × (In first vars)
      × (lookup first env ≡ none)
      × (first_missing vars env ≡ some first)
unfolding first_missing
first_missing-lookup [] env var m missing = elim m [ ]
first_missing-lookup (v ∷ vars) env var m missing =
    go (lookup v env) refl (λ tail. first_missing-lookup vars env var tail missing) m
  where
    Missing : List String → Option String → Type 0
    Missing names found =
        (first : String) × (In first names) × (lookup first env ≡ none) × (found ≡ some first)

    go :
        (o : Option String)
        → lookup v env ≡ o
        → (In var vars → Missing vars (first_missing vars env))
        → In var (v ∷ vars)
        → Missing (v ∷ vars) (elim o [ none ↦ some v | some value ↦ first_missing vars env ])
    go none found ih m = (v, inl refl, found, refl)
    go (some value) found ih (inl e) =
        let unset : lookup v env ≡ none = ap (λ (n : String). lookup n env) (sym e) ∙ missing in
        absurd cc
    go (some value) found ih (inr tail) =
        let (first, stands, unset, is_first) = ih tail in (first, inr stands, unset, is_first)

-- The variables that torchrun sets for a process to find its group.
abbrev pub torchrun_variables : List String
torchrun_variables = "RANK" ∷ "LOCAL_RANK" ∷ "WORLD_SIZE" ∷ "MASTER_ADDR" ∷ "MASTER_PORT" ∷ []

-- Without one of the variables that torchrun sets, the set-up raises RuntimeError for a variable that
-- is missing, and leaves the process group alone.
pub setup_distributed-missing :
    (groups : ProcessGroups) (backend : String) (minutes : ℕ) (env : Dict String) (g : groups.Group)
    (var : String)
    → In var torchrun_variables
    → lookup var env ≡ none
    → (first : String) × (In first torchrun_variables)
      × (lookup first env ≡ none)
      × (setup_distributed groups backend minutes env g ≡ (g, inr (missing_variable first)))
unfolding setup_distributed
setup_distributed-missing groups backend minutes env g var m missing =
    let (first, stands, unset, is_first) =
      first_missing-lookup required_env_vars env var m missing in
    (first, stands, unset, rw (is_first, setup_distributed) refl)
