-- ===== src/Training/Main.antt =====
-- train.py: its imports and `main`. `build` makes the data loader, the model and the optimizer, by
-- torch and the module dmlf.data.distributed_loader. The repository does not have that module; a run
-- without it has no `build`.
use distributed_ml_training.Base.{
  ℕ, ℤ, String, Option, none, some, true, false, ◌==◌, if◌then◌else◌, Dict, inl, inr,
}
use distributed_ml_training.Floats.{Floats}
use distributed_ml_training.Training.Torch.{Torch}
use distributed_ml_training.Training.Trainer.{
  DdpTrainer, EpochClock, Checkpoint, new_trainer, load_checkpoint, train,
}
use distributed_ml_training.Training.Distributed.{
  ProcessGroups, Ranks, SetupError, setup_distributed, cleanup_distributed,
}
use distributed_ml_training.Training.DdpModel.{PrepareError, prepare_ddp_model}

-- The arguments of the command line that the program's own code looks at. An empty `resume` is none.
-- `--epochs` takes any int; a negative one is not modelled.
pub record TrainArgs : Type 0 where
  pub epochs : ℕ
  pub backend : String
  pub resume : String

module _ (fl : Floats) (torch : Torch fl) (groups : ProcessGroups) where
  open torch use {World}
  open groups use {Group}

  -- How the process ends.
  pub data Outcome : Type 0 where
    -- ModuleNotFoundError, before `main` is called
    import_failed : Outcome
    setup_failed : SetupError → Outcome
    prepare_failed : PrepareError → Outcome
    training_failed : DdpTrainer fl torch → Outcome
    completed : DdpTrainer fl torch → Group → Outcome

  -- The trainer of `main`, with the checkpoint that is asked for.
  unfoldable pub main_trainer :
      TrainArgs → World → (rank : ℤ) (now : ℕ) → Dict (Checkpoint fl torch) → DdpTrainer fl torch
  unfolding new_trainer load_checkpoint
  main_trainer args world rank now files =
      let trainer = new_trainer fl torch world args.epochs "dmlf/checkpoint" rank 5 now files in
      if args.resume == "" then trainer else load_checkpoint fl torch args.resume trainer

  unfoldable pub main :
      (build : Option (Ranks → (device_ids : Option ℤ) → World))
      → (clock : ℕ → EpochClock) (now end_time : ℕ) → TrainArgs
      → Dict String
      → Dict (Checkpoint fl torch)
      → Group
      → Outcome
  unfolding setup_distributed prepare_ddp_model main_trainer train cleanup_distributed
  main none clock now end_time args env files g = import_failed
  main (some build) clock now end_time args env files g =
      let (joined, result) = setup_distributed groups args.backend 30 env g in
      elim result [
        | inr e ↦ setup_failed e
        | inl ranks ↦ elim (prepare_ddp_model groups env joined) [
          | inr e ↦ prepare_failed e
          | inl device_ids ↦
              let trainer = main_trainer args (build ranks device_ids) ranks.rank now files in
              let (trained, done) = train fl torch clock end_time trainer in
              elim done [
                | true ↦ completed trained (cleanup_distributed groups joined)
                | false ↦ training_failed trained
              ]
        ]
      ]
