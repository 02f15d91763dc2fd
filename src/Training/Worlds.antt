-- ===== src/Training/Worlds.antt =====
-- dmlf/training/trainer.py: what an epoch of `DDPTrainer` does to the model and the optimizer, apart
-- from files, logs and clocks.
use distributed_ml_training.Base.{
  ℕ, zero, suc, ◌+◌, ◌*◌, ◌-◌, sub_ℕ, ◌≡◌, refl, ap, subst, ◌∙◌, String, ℤ, pos, true, false, List,
  [], ◌∷◌, leb, eqb, int_eqb, Bool-cases, inl, inr, lookup, lookup-insert, eq_refl, some,
}
use Prim.Native.String.{◌++◌ as str_append}
use distributed_ml_training.Text.Numbers.{show_int}
use distributed_ml_training.Floats.{Floats}
use distributed_ml_training.Training.Torch.{Torch}
use distributed_ml_training.Training.Trainer.{
  DdpTrainer, EpochClock, path_join, checkpoint_path, checkpoint_of, save_checkpoint, train_batch,
  train_batches_of, log_epoch, checkpoint_if_due, train_batches, train_epoch, train_range, train,
}

module _ (fl : Floats) (torch : Torch fl) where
  open torch use {World, Batch}

  abbrev pub world_batches : List Batch → World → World
  world_batches [] w = w
  world_batches (batch ∷ rest) w = world_batches rest (train_batch fl torch batch w).0

  abbrev pub world_epoch : ℕ → World → World
  world_epoch epoch w =
      let (w', loaded) = torch.batches (torch.train_mode (torch.set_epoch epoch w)) in
      world_batches loaded w'

  abbrev pub world_epochs : (rounds first : ℕ) → World → World
  world_epochs zero first w = w
  world_epochs (suc rounds) first w = world_epochs rounds (suc first) (world_epoch first w)

  -- A trainer after some of its training: the job is the same, and the world is as given.
  pub record Trained (t : DdpTrainer fl torch) (w : World) (t' : DdpTrainer fl torch) : Type 0 where
    pub world : t'.world ≡ w
    pub rank : t'.rank ≡ t.rank
    pub checkpoint_dir : t'.checkpoint_dir ≡ t.checkpoint_dir
    pub epochs : t'.epochs ≡ t.epochs

  Trained-refl : (t : DdpTrainer fl torch) → Trained t t.world t
  Trained-refl t = record { world = refl; rank = refl; checkpoint_dir = refl; epochs = refl }

  pub Trained-trans :
      {t u v : DdpTrainer fl torch} {w : World} (f : World → World)
      → Trained t w u
      → Trained u (f u.world) v
      → Trained t (f w) v
  Trained-trans f a b = record {
    world = b.world ∙ ap f a.world;
    rank = b.rank ∙ a.rank;
    checkpoint_dir = b.checkpoint_dir ∙ a.checkpoint_dir;
    epochs = b.epochs ∙ a.epochs;
  }

  -- The batches change the world and the log, and nothing else.
  pub train_batches-frame :
      (i g : ℕ) (l : fl.Float) (bs : List Batch) (t : DdpTrainer fl torch)
      → (train_batches fl torch i g l bs t).0 ≡ record t {
        world = world_batches bs t.world;
        events = (train_batches fl torch i g l bs t).0.events;
      }
  unfolding train_batches
  train_batches-frame i g l [] t = refl
  train_batches-frame i g l (b ∷ bs) t = train_batches-frame (suc i) (suc g) _ bs _

  train_batches_of-Trained :
      (e : ℕ) (t : DdpTrainer fl torch)
      → Trained t (world_epoch e t.world) (train_batches_of fl torch e t).0
  unfolding train_batches_of
  train_batches_of-Trained e t =
      let frame = train_batches-frame 0 (e * torch.batch_count) _ _ _ in
      record {
        world = ap (λ (x : DdpTrainer fl torch). x.world) frame;
        rank = ap (λ (x : DdpTrainer fl torch). x.rank) frame;
        checkpoint_dir = ap (λ (x : DdpTrainer fl torch). x.checkpoint_dir) frame;
        epochs = ap (λ (x : DdpTrainer fl torch). x.epochs) frame;
      }

  pub save_checkpoint-Trained :
      (now : ℕ) (e : ℤ) (t : DdpTrainer fl torch)
      → Trained t t.world (save_checkpoint fl torch now e t)
  unfolding save_checkpoint
  save_checkpoint-Trained now e t = elim (Bool-cases (int_eqb t.rank (pos 0))) [
    | inl main ↦
        rw (main, save_checkpoint)
          (record { world = refl; rank = refl; checkpoint_dir = refl; epochs = refl })
    | inr other ↦ rw (other, save_checkpoint) (Trained-refl t)
  ]

  log_epoch-Trained :
      (l : fl.Float) (e : ℕ) (t : DdpTrainer fl torch)
      → Trained t t.world (log_epoch fl torch l e t)
  unfolding log_epoch
  log_epoch-Trained l e t = elim (Bool-cases (int_eqb t.rank (pos 0))) [
    | inl main ↦
        rw (main, log_epoch)
          (record { world = refl; rank = refl; checkpoint_dir = refl; epochs = refl })
    | inr other ↦ rw (other, log_epoch) (Trained-refl t)
  ]

  checkpoint_if_due-Trained :
      (c : EpochClock) (e : ℕ) (t : DdpTrainer fl torch)
      → Trained t t.world (checkpoint_if_due fl torch c e t)
  unfolding checkpoint_if_due
  checkpoint_if_due-Trained c e t =
      elim (Bool-cases (leb (t.last_checkpoint_time + t.checkpoint_interval) c.checked)) [
        | inl due ↦ rw (due, checkpoint_if_due) (save_checkpoint-Trained c.saved (pos e) t)
        | inr early ↦ rw (early, checkpoint_if_due) (Trained-refl t)
      ]

  -- An epoch with batches returns, and has moved the world on.
  train_epoch-Trained :
      (c : EpochClock) (e : ℕ) (t : DdpTrainer fl torch)
      → eqb torch.batch_count 0 ≡ false
      → ((train_epoch fl torch c e t).1 ≡ true)
        × Trained t (world_epoch e t.world) (train_epoch fl torch c e t).0
  unfolding train_epoch
  train_epoch-Trained c e t some_batches =
      let t₁ = (train_batches_of fl torch e t).0 in
      rw (some_batches, train_epoch)
        (
          refl,
          Trained-trans (λ w. w)
              (Trained-trans (λ w. w) (train_batches_of-Trained e t) (log_epoch-Trained _ e t₁))
              (checkpoint_if_due-Trained c e _),
        )

  train_range-Trained :
      (clock : ℕ → EpochClock) (n first : ℕ) (t : DdpTrainer fl torch)
      → eqb torch.batch_count 0 ≡ false
      → ((train_range fl torch clock n first t).1 ≡ true)
        × Trained t (world_epochs n first t.world) (train_range fl torch clock n first t).0
  unfolding train_range
  train_range-Trained clock zero first t some_batches = (refl, Trained-refl t)
  train_range-Trained clock (suc n) first t some_batches =
      let (done, epoch) = train_epoch-Trained (clock first) first t some_batches in
      let (returns, rest) =
        train_range-Trained clock n (suc first) (train_epoch fl torch (clock first) first t).0
          some_batches in
      rw (done, train_range) (returns, Trained-trans (world_epochs n (suc first)) epoch rest)

  save_checkpoint-final :
      (now : ℕ) (e : ℤ) (t : DdpTrainer fl torch)
      → t.rank ≡ pos 0
      → lookup (checkpoint_path fl torch t e) (save_checkpoint fl torch now e t).files
        ≡ some (checkpoint_of fl torch e t.world)
  unfolding save_checkpoint
  save_checkpoint-final now e t main =
      let is_main : int_eqb t.rank (pos 0) ≡ true = rw main refl in
      rw (is_main, save_checkpoint)
        (lookup-insert t.files (checkpoint_path fl torch t e) (checkpoint_path fl torch t e) _
          ∙ rw eq_refl refl)

  checkpoint_path-Trained :
      {t t' : DdpTrainer fl torch} {w : World} (e : ℤ)
      → Trained t w t'
      → checkpoint_path fl torch t' e ≡ checkpoint_path fl torch t e
  unfolding checkpoint_path
  checkpoint_path-Trained e h =
      ap
        (λ (d : String).
          path_join d (str_append "checkpoint_epoch_" (str_append (show_int e) ".pt")))
        h.checkpoint_dir

  save_checkpoint-Trained_final :
      (now : ℕ) (e : ℤ) (t t' : DdpTrainer fl torch) (w : World)
      → Trained t w t'
      → t.rank ≡ pos 0
      → lookup (checkpoint_path fl torch t e) (save_checkpoint fl torch now e t').files
        ≡ some (checkpoint_of fl torch e w)
  save_checkpoint-Trained_final now e t t' w h main =
      subst
        (λ (path : String).
          lookup path (save_checkpoint fl torch now e t').files ≡ some (checkpoint_of fl torch e w))
        (checkpoint_path-Trained e h)
        (save_checkpoint-final now e t' (h.rank ∙ main)
          ∙ ap (λ (v : World). some (checkpoint_of fl torch e v)) h.world)

  -- On the main process training with batches returns, and the last file that it writes is the
  -- checkpoint of the last epoch, with the world after all epochs.
  pub train-final :
      (clock : ℕ → EpochClock) (end_time : ℕ) (t : DdpTrainer fl torch)
      → eqb torch.batch_count 0 ≡ false
      → t.rank ≡ pos 0
      → ((train fl torch clock end_time t).1 ≡ true)
        × (lookup
              (checkpoint_path fl torch t (sub_ℕ t.epochs 1))
              (train fl torch clock end_time t).0.files
            ≡ some (
                checkpoint_of fl torch
                  (sub_ℕ t.epochs 1)
                  (world_epochs (t.epochs - t.current_epoch) t.current_epoch t.world)))
  unfolding train
  train-final clock end_time t some_batches main =
      let (returns, ranged) =
        train_range-Trained clock (t.epochs - t.current_epoch) t.current_epoch t some_batches in
      rw (returns, train)
        (refl, save_checkpoint-Trained_final end_time (sub_ℕ t.epochs 1) t _ _ ranged main)
