-- ===== src/Training/Ranks.antt =====
-- dmlf/training/trainer.py: what training leaves alone, on the other processes than the main one and
-- with a loader that has no batches.
use distributed_ml_training.Base.{
  ℕ, zero, suc, ◌+◌, ◌*◌, ◌-◌, ◌<◌, ◌≡◌, refl, ap, ◌∙◌, ℤ, pos, sub_ℕ, Bool, true, false, List, [],
  ◌∷◌, ◌++◌, leb, eqb, int_eqb, arith, Bool-cases, inl, inr,
}
use mathlib.Core.List.{append-nil}
use distributed_ml_training.Floats.{Floats}
use distributed_ml_training.Training.Torch.{Torch}
use distributed_ml_training.Training.Trainer.{
  DdpTrainer, EpochClock, save_checkpoint, train_batches_of, log_epoch, checkpoint_if_due,
  train_batches, train_epoch, train_range, train, batch_events, train_batch, Event,
}
use distributed_ml_training.Training.Worlds.{train_batches-frame}

module _ (fl : Floats) (torch : Torch fl) where
  open torch use {Batch}

  -- The second trainer is of the same process, and has written nothing more than the first.
  record Silent (t t' : DdpTrainer fl torch) : Type 0 where
    rank : t'.rank ≡ t.rank
    files : t'.files ≡ t.files
    events : t'.events ≡ t.events

  Silent-refl : (t : DdpTrainer fl torch) → Silent t t
  Silent-refl t = record { rank = refl; files = refl; events = refl }

  Silent-trans : {t u v : DdpTrainer fl torch} → Silent t u → Silent u v → Silent t v
  Silent-trans a b = record {
    rank = b.rank ∙ a.rank;
    files = b.files ∙ a.files;
    events = b.events ∙ a.events;
  }

  batch_events-other : (main : Bool) (i g : ℕ) → main ≡ false → batch_events fl torch main i g ≡ []
  unfolding batch_events
  batch_events-other main i g other = rw (other, batch_events) refl

  train_batches-Silent :
      (i g : ℕ) (l : fl.Float) (bs : List Batch) (t : DdpTrainer fl torch)
      → int_eqb t.rank (pos 0) ≡ false
      → Silent t (train_batches fl torch i g l bs t).0
  unfolding train_batches
  train_batches-Silent i g l [] t other = Silent-refl t
  train_batches-Silent i g l (b ∷ bs) t other =
      let next : DdpTrainer fl torch = record t {
        world = (train_batch fl torch b t.world).0;
        events = t.events ++ batch_events fl torch (int_eqb t.rank (pos 0)) i (suc g);
      } in
      let nothing : t.events ++ batch_events fl torch (int_eqb t.rank (pos 0)) i (suc g)
          ≡ t.events =
        ap (λ (es : List (Event fl torch)). t.events ++ es) (batch_events-other _ i (suc g) other)
        ∙ append-nil t.events in
      Silent-trans {t = t} {u = next} (record { rank = refl; files = refl; events = nothing })
        (train_batches-Silent (suc i) (suc g) _ bs next other)

  save_checkpoint-Silent :
      (now : ℕ) (e : ℤ) (t : DdpTrainer fl torch)
      → int_eqb t.rank (pos 0) ≡ false
      → Silent t (save_checkpoint fl torch now e t)
  unfolding save_checkpoint
  save_checkpoint-Silent now e t other = rw (other, save_checkpoint) (Silent-refl t)

  checkpoint_if_due-Silent :
      (c : EpochClock) (e : ℕ) (t : DdpTrainer fl torch)
      → int_eqb t.rank (pos 0) ≡ false
      → Silent t (checkpoint_if_due fl torch c e t)
  unfolding checkpoint_if_due
  checkpoint_if_due-Silent c e t other =
      elim (Bool-cases (leb (t.last_checkpoint_time + t.checkpoint_interval) c.checked)) [
        | inl due ↦ rw (due, checkpoint_if_due) (save_checkpoint-Silent c.saved (pos e) t other)
        | inr early ↦ rw (early, checkpoint_if_due) (Silent-refl t)
      ]

  log_epoch-Silent :
      (l : fl.Float) (e : ℕ) (t : DdpTrainer fl torch)
      → int_eqb t.rank (pos 0) ≡ false
      → Silent t (log_epoch fl torch l e t)
  unfolding log_epoch
  log_epoch-Silent l e t other = rw (other, log_epoch) (Silent-refl t)

  train_batches_of-Silent :
      (e : ℕ) (t : DdpTrainer fl torch)
      → int_eqb t.rank (pos 0) ≡ false
      → Silent t (train_batches_of fl torch e t).0
  unfolding train_batches_of
  train_batches_of-Silent e t other =
      let silent = train_batches-Silent 0 (e * torch.batch_count) _ _ _ other in
      record { rank = silent.rank; files = silent.files; events = silent.events }

  still_other :
      {t t' : DdpTrainer fl torch}
      → Silent t t'
      → int_eqb t.rank (pos 0) ≡ false
      → int_eqb t'.rank (pos 0) ≡ false
  still_other h other = ap (λ (r : ℤ). int_eqb r (pos 0)) h.rank ∙ other

  train_epoch-Silent :
      (c : EpochClock) (e : ℕ) (t : DdpTrainer fl torch)
      → int_eqb t.rank (pos 0) ≡ false
      → Silent t (train_epoch fl torch c e t).0
  unfolding train_epoch
  train_epoch-Silent c e t other =
      let batches = train_batches_of-Silent e t other in
      elim (Bool-cases (eqb torch.batch_count 0)) [
        | inl none ↦ rw (none, train_epoch) batches
        | inr some_batches ↦
            let logged = Silent-trans batches (
              log_epoch-Silent _ e (train_batches_of fl torch e t).0 (still_other batches other)) in
            rw (some_batches, train_epoch)
              (Silent-trans logged (checkpoint_if_due-Silent c e _ (still_other logged other)))
      ]

  train_range-Silent :
      (clock : ℕ → EpochClock) (n first : ℕ) (t : DdpTrainer fl torch)
      → int_eqb t.rank (pos 0) ≡ false
      → Silent t (train_range fl torch clock n first t).0
  unfolding train_range
  train_range-Silent clock zero first t other = Silent-refl t
  train_range-Silent clock (suc n) first t other =
      let epoch = train_epoch-Silent (clock first) first t other in
      let rest =
        train_range-Silent clock n (suc first) (train_epoch fl torch (clock first) first t).0
          (still_other epoch other) in
      elim (Bool-cases (train_epoch fl torch (clock first) first t).1) [
        | inl done ↦ rw (done, train_range) (Silent-trans epoch rest)
        | inr failed ↦ rw (failed, train_range) epoch
      ]

  -- A process other than the main one writes no file and no event by its training, whether or not
  -- the training returns.
  pub train-other_ranks :
      (clock : ℕ → EpochClock) (end_time : ℕ) (t : DdpTrainer fl torch)
      → int_eqb t.rank (pos 0) ≡ false
      → ((train fl torch clock end_time t).0.files ≡ t.files)
        × ((train fl torch clock end_time t).0.events ≡ t.events)
  unfolding train
  train-other_ranks clock end_time t other =
      let ranged = train_range-Silent clock (t.epochs - t.current_epoch) t.current_epoch t other in
      elim (Bool-cases
        (train_range fl torch clock (t.epochs - t.current_epoch) t.current_epoch t).1) [
          | inl done ↦
              let all =
                Silent-trans ranged (
                  save_checkpoint-Silent end_time (sub_ℕ t.epochs 1) _
                    (still_other ranged other)) in
              rw (done, train) (all.files, all.events)
          | inr failed ↦ rw (failed, train) (ranged.files, ranged.events)
        ]

  -- The training stopped at a ZeroDivisionError, before it wrote a file.
  abbrev Stopped : DdpTrainer fl torch → DdpTrainer fl torch × Bool → Type 0
  Stopped t (t', done) = (done ≡ false) × (t'.files ≡ t.files)

  train_epoch-no_batches :
      (c : EpochClock) (e : ℕ) (t : DdpTrainer fl torch)
      → eqb torch.batch_count 0 ≡ true
      → Stopped t (train_epoch fl torch c e t)
  unfolding train_epoch train_batches_of
  train_epoch-no_batches c e t no_batches =
      let frame = train_batches-frame fl torch 0 (e * torch.batch_count) _ _ _ in
      rw (no_batches, train_epoch) (refl, ap (λ (x : DdpTrainer fl torch). x.files) frame)

  train_range-no_batches :
      (clock : ℕ → EpochClock) (rounds n first : ℕ) (t : DdpTrainer fl torch)
      → eqb torch.batch_count 0 ≡ true
      → rounds ≡ suc n
      → Stopped t (train_range fl torch clock rounds first t)
  unfolding train_range
  train_range-no_batches clock zero n first t no_batches left = absurd (omega arith)
  train_range-no_batches clock (suc rounds) n first t no_batches left =
      let (failed, files) = train_epoch-no_batches (clock first) first t no_batches in
      rw (failed, train_range) (refl, files)

  -- Without batches, training that has an epoch left ends in the ZeroDivisionError of the first
  -- average, and leaves the files as they were: also the checkpoint at the end is not written.
  pub train-no_batches :
      (clock : ℕ → EpochClock) (end_time : ℕ) (t : DdpTrainer fl torch)
      → eqb torch.batch_count 0 ≡ true
      → t.current_epoch < t.epochs
      → ((train fl torch clock end_time t).1 ≡ false)
        × ((train fl torch clock end_time t).0.files ≡ t.files)
  unfolding train
  train-no_batches clock end_time t no_batches left =
      let (failed, files) =
        train_range-no_batches clock (t.epochs - t.current_epoch) (t.epochs - suc t.current_epoch)
          t.current_epoch t no_batches (omega arith) in
      rw (failed, train) (refl, files)
