-- ===== src/Examples/Training.antt =====
-- A small torch over the natural numbers, and training on it.
use distributed_ml_training.Base.{
  ℕ, zero, suc, ◌+◌, List, length, ◌-◌, ◌≡◌, refl, ap, ℤ, pos, sub_ℕ, String, Option, ◌⊎◌, none,
  some, Bool, true, false, [], ◌∷◌, Dict, lookup, arith, inl, inr, In,
}
use distributed_ml_training.Text.Numbers.{show_int}
use distributed_ml_training.Training.Torch.{Torch}
use distributed_ml_training.Training.Trainer.{
  DdpTrainer, EpochClock, Checkpoint, checkpoint_path, checkpoint_of, train,
}
use distributed_ml_training.Training.Worlds.{world_epochs, train-final}
use distributed_ml_training.Training.Resume.{loaded_world}
use distributed_ml_training.Training.Ranks.{train-other_ranks, train-no_batches}
use distributed_ml_training.Training.Distributed.{
  ProcessGroups, Ranks, missing_variable, setup_distributed,
}
use distributed_ml_training.Training.Launch.{
  IsTorchrun, torchrun_variables, setup_distributed-missing,
}
use distributed_ml_training.Training.Main.{TrainArgs, import_failed, main}
use distributed_ml_training.Training.Restart.{IsJoinable, CompletedWith, final_path, main-resume}
use distributed_ml_training.Examples.Samples.{whole}

record World : Type 0 where
  net : ℕ
  optim : ℕ
  epoch : ℕ
  grad : ℕ

-- The batches of an epoch, by the sampler's epoch.
abbrev loaded : (epoch count : ℕ) → List ℕ
loaded epoch zero = []
loaded epoch (suc n) = (epoch + n) ∷ loaded epoch n

length-loaded : (epoch count : ℕ) → length (loaded epoch count) ≡ count
length-loaded epoch zero = refl
length-loaded epoch (suc n) = ap suc (length-loaded epoch n)

-- A step adds the gradient.
abbrev torch : ℕ → Torch whole
torch count = record {
  World = World;
  NetState = ℕ;
  OptimState = ℕ;
  Batch = ℕ;
  Output = ℕ;
  Loss = ℕ;
  set_epoch = λ e w. record w { epoch = e };
  train_mode = λ w. w;
  batches = λ w. (w, loaded w.epoch count);
  batch_count = count;
  length-batches = λ w. length-loaded w.epoch count;
  zero_grad = λ w. record w { grad = 0 };
  forward = λ b w. (w, b + 1);
  criterion = λ out b w. (w, out + b);
  backward = λ l w. record w { grad = l };
  step = λ w. record w { net = w.net + w.grad; optim = w.optim + 1 };
  item = λ l. l;
  net_state = λ w. w.net;
  optim_state = λ w. w.optim;
  load_net = λ s w. record w { net = s };
  load_optim = λ s w. record w { optim = s };
}

abbrev start : World
start = record { net = 0; optim = 0; epoch = 0; grad = 0 }

abbrev clock : ℕ → EpochClock
clock e = record { checked = e; saved = e }

abbrev trainer : (batch_count : ℕ) (rank : ℤ) → DdpTrainer whole (torch batch_count)
trainer count rank = record {
  world = start;
  epochs = 2;
  checkpoint_dir = "checkpoints";
  rank = rank;
  checkpoint_interval = 1;
  last_checkpoint_time = 0;
  current_epoch = 0;
  files = [];
  events = [];
}

train-final_example :
    ((train whole (torch 2) clock 9 (trainer 2 (pos 0))).1 ≡ true)
    × (lookup
          (checkpoint_path whole (torch 2) (trainer 2 (pos 0)) (sub_ℕ 2 1))
          (train whole (torch 2) clock 9 (trainer 2 (pos 0))).0.files
        ≡ some (
            checkpoint_of whole
              (torch 2)
              (sub_ℕ 2 1)
              (world_epochs whole (torch 2) (2 - 0) 0 start)))
train-final_example = train-final whole (torch 2) clock 9 (trainer 2 (pos 0)) refl refl

train-other_ranks_example :
    ((train whole (torch 2) clock 9 (trainer 2 (pos 1))).0.files ≡ [])
    × ((train whole (torch 2) clock 9 (trainer 2 (pos 1))).0.events ≡ [])
train-other_ranks_example = train-other_ranks whole (torch 2) clock 9 (trainer 2 (pos 1)) refl

train-no_batches_example :
    ((train whole (torch 0) clock 9 (trainer 0 (pos 0))).1 ≡ false)
    × ((train whole (torch 0) clock 9 (trainer 0 (pos 0))).0.files ≡ [])
train-no_batches_example =
    train-no_batches whole (torch 0) clock 9 (trainer 0 (pos 0)) refl (omega arith)

-- A process is in its group or not.
abbrev groups : ProcessGroups
groups = record {
  Group = Bool;
  cuda_available = false;
  init_process_group = λ backend minutes g. some true;
  set_device = λ r g. g;
  is_initialized = λ g. g;
  destroy_process_group = λ g. false;
}

groups-IsJoinable : IsJoinable groups "nccl" false
groups-IsJoinable = record {
  joined = true;
  joins = refl;
  initialized = refl;
  set_device-is_initialized = λ r. refl;
}

abbrev ranks : Ranks
ranks = record { rank = pos 0; local_rank = pos 0; world_size = pos 2 }

abbrev env : Dict String
env =
    ("RANK", "0")
    ∷ ("LOCAL_RANK", "0")
    ∷ ("WORLD_SIZE", "2")
    ∷ ("MASTER_ADDR", "10.0.0.1")
    ∷ ("MASTER_PORT", "29500")
    ∷ []

env-IsTorchrun : IsTorchrun env ranks "10.0.0.1" "29500"
unfolding lookup show_int
env-IsTorchrun = record {
  rank = refl;
  local_rank = refl;
  world_size = refl;
  master_addr = refl;
  master_port = refl;
}

abbrev no_env : Dict String
no_env = []

setup_distributed-missing_example :
    (first : String) × (In first torchrun_variables)
    × (lookup first no_env ≡ none)
    × (setup_distributed groups "nccl" 30 no_env false ≡ (false, inr (missing_variable first)))
unfolding lookup
setup_distributed-missing_example =
    setup_distributed-missing groups "nccl" 30 no_env false "RANK" (inl refl) refl

abbrev args : TrainArgs
args = record { epochs = 2; backend = "nccl"; resume = "first.pt" }

-- The checkpoint after the first epoch.
abbrev first : Checkpoint whole (torch 2)
first = checkpoint_of whole (torch 2) (pos 0) (world_epochs whole (torch 2) 1 0 start)

abbrev saved : Dict (Checkpoint whole (torch 2))
saved = ("first.pt", first) ∷ []

-- A model and an optimizer of their own.
abbrev make : Ranks → Option ℤ → World
make r device = record start { net = 77 }

main-resume_example :
    (some make ≡ none)
      × (main whole (torch 2) groups (some make) clock 5 9 args env saved false ≡ import_failed)
    ⊎ ((m : Ranks → Option ℤ → World) × (some make ≡ some m)
        × CompletedWith whole
            (torch 2)
            groups
            (final_path whole (torch 2) groups 2)
            (some (
              checkpoint_of whole (torch 2) (sub_ℕ 2 1) (
                world_epochs whole
                  (torch 2)
                  (2 - 1)
                  1
                  (loaded_world whole (torch 2) first (m ranks none)))))
            (main whole (torch 2) groups (some make) clock 5 9 args env saved false))
unfolding lookup
main-resume_example =
    main-resume whole (torch 2) groups (some make) clock 5 9 0 args env ranks "10.0.0.1" "29500"
      first saved false env-IsTorchrun groups-IsJoinable refl refl refl refl refl
