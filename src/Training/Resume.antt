-- ===== src/Training/Resume.antt =====
-- dmlf/training/trainer.py: training that goes on from a checkpoint.
use distributed_ml_training.Base.{
  ℕ, suc, ◌-◌, ◌≡◌, refl, ap, ◌∙◌, ℤ, pos, pos_part, sub_ℕ, ◌+ℤ◌, String, some, true, eqb, false,
  arith, lookup, Dict,
}
use distributed_ml_training.Floats.{Floats}
use distributed_ml_training.Training.Torch.{Torch}
use distributed_ml_training.Training.Trainer.{
  DdpTrainer, EpochClock, Checkpoint, new_trainer, checkpoint_path, checkpoint_of, load_checkpoint,
  train,
}
use distributed_ml_training.Training.Worlds.{world_epochs, train-final}

next_epoch : (e : ℕ) → pos_part (pos e +ℤ pos 1) ≡ suc e
unfolding ◌+ℤ◌
next_epoch e = ground arith

module _ (fl : Floats) (torch : Torch fl) where
  open torch use {World}

  -- The world of a process that has loaded the state dicts of a checkpoint, the model's first.
  abbrev pub loaded_world : Checkpoint fl torch → World → World
  loaded_world c w = torch.load_optim c.optimizer_state_dict (torch.load_net c.model_state_dict w)

  -- The trainer that has loaded a checkpoint goes on with the epoch after it.
  load_checkpoint-saved :
      (path : String) (e : ℕ) (c : Checkpoint fl torch) (t : DdpTrainer fl torch)
      → lookup path t.files ≡ some c
      → c.epoch ≡ pos e
      → load_checkpoint fl torch path t
        ≡ record t { world = loaded_world c t.world; current_epoch = suc e }
  unfolding load_checkpoint
  load_checkpoint-saved path e c t saved epoch =
      rw (saved, load_checkpoint)
        (ap
            (λ (n : ℤ). record t {
              world = loaded_world c t.world;
              current_epoch = pos_part (n +ℤ pos 1);
            })
            epoch
          ∙ ap (λ (n : ℕ). record t { world = loaded_world c t.world; current_epoch = n })
              (next_epoch e))

  -- A new main process that loads the checkpoint of an epoch returns from its training. The final
  -- checkpoint has the states after the epochs behind that one, from the states of the checkpoint.
  pub train-resumed :
      (clock : ℕ → EpochClock) (end_time now minutes : ℕ) (path directory : String) (epochs e : ℕ)
      (c : Checkpoint fl torch) (v : World) (files : Dict (Checkpoint fl torch))
      → eqb torch.batch_count 0 ≡ false
      → lookup path files ≡ some c
      → c.epoch ≡ pos e
      → let t = new_trainer fl torch v epochs directory (pos 0) minutes now files in
        let ended = train fl torch clock end_time (load_checkpoint fl torch path t) in
        (ended.1 ≡ true)
        × (lookup (checkpoint_path fl torch t (sub_ℕ epochs 1)) ended.0.files
            ≡ some (
                checkpoint_of fl torch
                  (sub_ℕ epochs 1)
                  (world_epochs fl torch (epochs - suc e) (suc e) (loaded_world c v))))
  unfolding new_trainer checkpoint_path
  train-resumed clock end_time now minutes path directory epochs e c v files some_batches saved
        epoch =
      let t = new_trainer fl torch v epochs directory (pos 0) minutes now files in
      let resumed : DdpTrainer fl torch = record t {
        world = loaded_world c v;
        current_epoch = suc e;
      } in
      rw (load_checkpoint-saved path e c t saved epoch)
        (train-final fl torch clock end_time resumed some_batches refl)
