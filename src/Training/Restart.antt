-- ===== src/Training/Restart.antt =====
-- train.py: a main process that is started with `--resume` on a checkpoint.
use distributed_ml_training.Base.{
  ℕ, suc, ◌-◌, ◌≡◌, refl, sym, ap, subst, ◌∙◌, ℤ, pos, sub_ℕ, String, Option, none, some, true,
  false, ◌==◌, eqb, if◌then◌else◌, Bool-cases, Dict, lookup, ◌⊎◌, inl, inr,
}
use Prim.Native.String.{◌++◌ as str_append}
use distributed_ml_training.Text.Numbers.{show_int}
use distributed_ml_training.Text.Strip.{int_of-show_int}
use distributed_ml_training.Floats.{Floats}
use distributed_ml_training.Training.Torch.{Torch}
use distributed_ml_training.Training.Trainer.{
  DdpTrainer, EpochClock, Checkpoint, path_join, new_trainer, checkpoint_path, checkpoint_of,
  load_checkpoint, train,
}
use distributed_ml_training.Training.Worlds.{world_epochs}
use distributed_ml_training.Training.Resume.{loaded_world, train-resumed}
use distributed_ml_training.Training.Distributed.{
  ProcessGroups, Ranks, SetupError, chosen_backend, init_ranks,
}
use distributed_ml_training.Training.Launch.{IsTorchrun, setup_distributed-IsTorchrun}
use distributed_ml_training.Training.DdpModel.{local_rank_of, prepare_ddp_model}
use distributed_ml_training.Training.Main.{
  TrainArgs, Outcome, import_failed, completed, main_trainer, main,
}

-- What torch documents of a process group that a process has joined.
pub record IsJoinable (groups : ProcessGroups) (backend : String) (g : groups.Group) : Type 0 where
  pub joined : groups.Group
  pub joins : groups.init_process_group (chosen_backend groups backend) 30 g ≡ some joined
  pub initialized : groups.is_initialized joined ≡ true
  pub set_device-is_initialized :
      (r : ℤ) → groups.is_initialized (groups.set_device r joined) ≡ true

local_rank_of-IsTorchrun :
    (env : Dict String) (ranks : Ranks) (address port : String)
    → IsTorchrun env ranks address port
    → local_rank_of env ≡ inl ranks.local_rank
unfolding local_rank_of
local_rank_of-IsTorchrun env ranks address port h =
    rw (h.local_rank, local_rank_of, int_of-show_int ranks.local_rank) refl

module _ (groups : ProcessGroups) where
  prepare_ddp_model-IsTorchrun :
      (env : Dict String) (ranks : Ranks) (address port : String) (g : groups.Group)
      → IsTorchrun env ranks address port
      → groups.is_initialized g ≡ true
      → prepare_ddp_model groups env g
        ≡ inl (if groups.cuda_available then some ranks.local_rank else none)
  unfolding prepare_ddp_model
  prepare_ddp_model-IsTorchrun env ranks address port g set initialized =
      rw (initialized, prepare_ddp_model, local_rank_of-IsTorchrun env ranks address port set) refl

  -- The group and the result of a set-up that joins.
  joined_group :
      (backend : String) (ranks : Ranks) (g : groups.Group)
      → IsJoinable groups backend g
      → (after : groups.Group) × (groups.is_initialized after ≡ true)
        × (init_ranks groups backend 30 ranks g ≡ (after, inl ranks))
  unfolding init_ranks
  joined_group backend ranks g h = elim (Bool-cases groups.cuda_available) [
    | inl cuda ↦ (
      groups.set_device ranks.local_rank h.joined,
      h.set_device-is_initialized _,
      rw (h.joins, init_ranks, cuda) refl,
    )
    | inr cpu ↦ (h.joined, h.initialized, rw (h.joins, init_ranks, cpu) refl)
  ]

module _ (fl : Floats) (torch : Torch fl) (groups : ProcessGroups) where
  open torch use {World}

  -- The process has completed its training, with a file.
  abbrev pub CompletedWith :
      (path : String) → Option (Checkpoint fl torch) → Outcome fl torch groups → Type 0
  CompletedWith path file (completed trainer g) = lookup path trainer.files ≡ file
  CompletedWith path file _ = ⊥

  -- The final checkpoint of a job of `train.py`.
  unfoldable pub final_path : ℕ → String
  unfolding checkpoint_path new_trainer
  final_path epochs =
      path_join "dmlf/checkpoint"
        (str_append "checkpoint_epoch_" (str_append (show_int (sub_ℕ epochs 1)) ".pt"))

  -- A process of torchrun that can join its group trains, with the trainer of its rank.
  main-completed :
      (build : Ranks → Option ℤ → World) (clock : ℕ → EpochClock) (now end_time : ℕ)
      (args : TrainArgs) (env : Dict String) (ranks : Ranks) (address port : String)
      (files : Dict (Checkpoint fl torch)) (g : groups.Group) (path : String)
      (file : Option (Checkpoint fl torch))
      → IsTorchrun env ranks address port
      → IsJoinable groups args.backend g
      → (let v = build ranks (if groups.cuda_available then some ranks.local_rank else none) in
          let ended =
            train fl torch clock end_time
              (main_trainer fl torch groups args v ranks.rank now files) in
          (ended.1 ≡ true) × (lookup path ended.0.files ≡ file))
      → CompletedWith path file
          (main fl torch groups (some build) clock now end_time args env files g)
  unfolding main prepare_ddp_model
  main-completed build clock now end_time args env ranks address port files g path file set joins
        trains =
      let (after, initialized, joined) = joined_group groups args.backend ranks g joins in
      let ready =
        setup_distributed-IsTorchrun groups args.backend 30 env ranks address port g set ∙ joined in
      let prepared =
        prepare_ddp_model-IsTorchrun groups env ranks address port after set initialized in
      let (returns, written) = trains in
      let group = ap (λ (p : groups.Group × (Ranks ⊎ SetupError)). p.0) ready in
      let result = ap (λ (p : groups.Group × (Ranks ⊎ SetupError)). p.1) ready in
      rw (result, main, group, prepared, returns) written

  -- The trainer of a main process that resumes.
  main_trainer-resume :
      (args : TrainArgs) (v : World) (rank : ℤ) (now : ℕ) (files : Dict (Checkpoint fl torch))
      → rank ≡ pos 0
      → (args.resume == "") ≡ false
      → main_trainer fl torch groups args v rank now files
        ≡ load_checkpoint fl torch args.resume
            (new_trainer fl torch v args.epochs "dmlf/checkpoint" (pos 0) 5 now files)
  unfolding main_trainer
  main_trainer-resume args v rank now files main_rank resumes =
      ap (λ (r : ℤ). main_trainer fl torch groups args v r now files) main_rank
      ∙ rw (resumes, main_trainer) refl

  -- Of the main process of a job of torchrun with `--resume` and a checkpoint of epoch `e`: without the
  -- module that makes the data loader it ends at the import; with it, the process joins its group,
  -- completes, and leaves as the final checkpoint the states after the epochs from `e + 1` on, trained
  -- from the states that it has loaded into its own model and optimizer.
  pub main-resume :
      (build : Option (Ranks → Option ℤ → World)) (clock : ℕ → EpochClock) (now end_time e : ℕ)
      (args : TrainArgs) (env : Dict String) (ranks : Ranks) (address port : String)
      (c : Checkpoint fl torch) (files : Dict (Checkpoint fl torch)) (g : groups.Group)
      → IsTorchrun env ranks address port
      → IsJoinable groups args.backend g
      → ranks.rank ≡ pos 0
      → eqb torch.batch_count 0 ≡ false
      → (args.resume == "") ≡ false
      → lookup args.resume files ≡ some c
      → c.epoch ≡ pos e
      → (build ≡ none)
          × (main fl torch groups build clock now end_time args env files g ≡ import_failed)
        ⊎ ((make : Ranks → Option ℤ → World) × (build ≡ some make)
            × CompletedWith
                (final_path args.epochs)
                (some (
                  checkpoint_of fl torch (sub_ℕ args.epochs 1) (
                    world_epochs fl torch (args.epochs - suc e) (suc e) (
                      loaded_world fl torch c (
                        make ranks
                          (if groups.cuda_available then some ranks.local_rank else none))))))
                (main fl torch groups build clock now end_time args env files g))
  unfolding final_path checkpoint_path new_trainer main
  main-resume none clock now end_time e args env ranks address port c files g set joins main_rank
        some_batches resumes saved epoch =
      inl (refl, refl)
  main-resume (some make) clock now end_time e args env ranks address port c files g set joins
        main_rank some_batches resumes saved epoch =
      let v = make ranks (if groups.cuda_available then some ranks.local_rank else none) in
      inr (
        make,
        refl,
        main-completed make clock now end_time args env ranks address port files g
            (final_path args.epochs) _ set joins
            (subst Trains (sym (main_trainer-resume args v ranks.rank now files main_rank resumes))
              (train-resumed fl torch clock end_time now 5 args.resume "dmlf/checkpoint" args.epochs
                e c v files some_batches saved epoch)),
      )
    where
      Trains : DdpTrainer fl torch → Type 0
      Trains trainer =
          ((train fl torch clock end_time trainer).1 ≡ true)
          × (lookup (final_path args.epochs) (train fl torch clock end_time trainer).0.files
              ≡ some (
                  checkpoint_of fl torch (sub_ℕ args.epochs 1) (
                    world_epochs fl torch (args.epochs - suc e) (suc e) (
                      loaded_world fl torch c (
                        make ranks
                          (if groups.cuda_available then some ranks.local_rank else none))))))
