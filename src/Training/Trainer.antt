-- ===== src/Training/Trainer.antt =====
-- dmlf/training/trainer.py: `DDPTrainer`.
--
-- Measured times and throughputs are left out of what is logged. The times at which the code reads
-- the clock for its checkpoints are arguments.
use Prim.Native.Nat.{◌%◌}
use Prim.Native.Char.{code}
use Prim.Native.String.{◌++◌ as str_append}
use distributed_ml_training.Base.{
  ℕ, zero, suc, ◌+◌, ◌-◌, ◌*◌, ℤ, pos, pos_part, sub_ℕ, ◌+ℤ◌, String, none, some, Bool, true, false,
  not, ◌&&◌, List, [], ◌∷◌, ◌++◌, leb, eqb, int_eqb, if◌then◌else◌, Dict, lookup, insert,
}
use distributed_ml_training.Text.Numbers.{show_int}
use distributed_ml_training.Floats.{Floats}
use distributed_ml_training.Training.Torch.{Torch}

-- The directory's text goes on to the file's name by a slash of its own.
unfoldable pub needs_slash : String → Bool
needs_slash String.[] = false
needs_slash (String.◌∷◌ c s) =
    let later = needs_slash s in
    elim s [ String.[] ↦ not (eqb (code c) b'/') | String.◌∷◌ d t ↦ later ]

-- os.path.join(directory, name), for a relative name
unfoldable pub path_join : String → String → String
unfolding needs_slash
path_join directory name =
    if needs_slash directory
    then str_append directory (str_append "/" name)
    else str_append directory name

-- The two readings of the clock round the save at the end of an epoch.
pub record EpochClock : Type 0 where
  pub checked : ℕ
  pub saved : ℕ

module _ (fl : Floats) (torch : Torch fl) where
  open fl use {Float, of_int, plus, divide}
  open torch use {World, NetState, OptimState, Batch}

  pub record Checkpoint : Type 0 where
    pub epoch : ℤ
    pub model_state_dict : NetState
    pub optimizer_state_dict : OptimState

  -- What the main process writes for TensorBoard, by the step or the epoch.
  pub data Event : Type 0 where
    throughput system_metrics : (global_step : ℕ) → Event
    loss : Float → (epoch : ℕ) → Event
    duration : (epoch : ℕ) → Event

  -- The trainer with the files that it can read and write. Times are in microseconds.
  pub record DdpTrainer : Type 0 where
    pub world : World
    pub epochs : ℕ
    pub checkpoint_dir : String
    pub rank : ℤ
    pub checkpoint_interval : ℕ
    pub last_checkpoint_time : ℕ
    pub current_epoch : ℕ
    pub files : Dict Checkpoint
    pub events : List Event

  -- `__init__`, on a machine with some files
  unfoldable pub new_trainer :
      World
      → (epochs : ℕ) (checkpoint_dir : String) (rank : ℤ) (interval_minutes now : ℕ)
      → Dict Checkpoint
      → DdpTrainer
  new_trainer world epochs directory rank minutes now files = record {
    world = world;
    epochs = epochs;
    checkpoint_dir = directory;
    rank = rank;
    checkpoint_interval = minutes * 60 * 1000000;
    last_checkpoint_time = now;
    current_epoch = 0;
    files = files;
    events = [];
  }

  abbrev pub is_main_process : DdpTrainer → Bool
  is_main_process t = int_eqb t.rank (pos 0)

  unfoldable pub checkpoint_path : DdpTrainer → ℤ → String
  unfolding path_join show_int
  checkpoint_path t epoch =
      path_join t.checkpoint_dir
        (str_append "checkpoint_epoch_" (str_append (show_int epoch) ".pt"))

  -- The dict that is saved.
  abbrev pub checkpoint_of : ℤ → World → Checkpoint
  checkpoint_of epoch w = record {
    epoch = epoch;
    model_state_dict = torch.net_state w;
    optimizer_state_dict = torch.optim_state w;
  }

  -- A path that does not exist is no error. An epoch is -1 at least.
  unfoldable pub load_checkpoint : String → DdpTrainer → DdpTrainer
  unfolding lookup
  load_checkpoint path t = elim (lookup path t.files) [
    | none ↦ t
    | some c ↦ record t {
      world = torch.load_optim c.optimizer_state_dict (torch.load_net c.model_state_dict t.world);
      current_epoch = pos_part (c.epoch +ℤ pos 1);
    }
  ]

  unfoldable pub save_checkpoint : (now : ℕ) (epoch : ℤ) → DdpTrainer → DdpTrainer
  unfolding insert checkpoint_path
  save_checkpoint now epoch t =
      if is_main_process t
      then record t {
        files = insert (checkpoint_path t epoch) (checkpoint_of epoch t.world) t.files;
        last_checkpoint_time = now;
      }
      else t

  -- The calls from `zero_grad` to `step` on a batch.
  unfoldable pub train_batch : Batch → World → World × Float
  train_batch batch w =
      let (w₁, outputs) = torch.forward batch (torch.zero_grad w) in
      let (w₂, batch_loss) = torch.criterion outputs batch w₁ in
      (torch.step (torch.backward batch_loss w₂), torch.item batch_loss)

  -- What the main process logs behind a batch.
  unfoldable pub batch_events : (main : Bool) (index global_step : ℕ) → List Event
  batch_events main index global_step =
      let system = if eqb (index % 50) 0 then system_metrics global_step ∷ [] else [] in
      if main && eqb (index % 10) 0 then throughput global_step ∷ system else []

  -- for batch_idx, … in enumerate(self.train_loader)
  unfoldable pub train_batches :
      (index global_step : ℕ) (running_loss : Float) → List Batch → DdpTrainer → DdpTrainer × Float
  train_batches index global_step running_loss [] t = (t, running_loss)
  train_batches index global_step running_loss (batch ∷ rest) t =
      let (w, value) = train_batch batch t.world in
      train_batches (suc index) (suc global_step) (plus running_loss value) rest (record t {
        world = w;
        events = t.events ++ batch_events (is_main_process t) index (suc global_step);
      })

  -- The loop over the batches of an epoch, with the sum of the losses.
  unfoldable pub train_batches_of : (epoch : ℕ) → DdpTrainer → DdpTrainer × Float
  train_batches_of epoch t =
      let (w, loaded) = torch.batches (torch.train_mode (torch.set_epoch epoch t.world)) in
      train_batches 0 (epoch * torch.batch_count) (of_int (pos 0)) loaded (record t { world = w })

  unfoldable pub log_epoch : Float → (epoch : ℕ) → DdpTrainer → DdpTrainer
  log_epoch avg_loss epoch t =
      if is_main_process t
      then record t { events = t.events ++ loss avg_loss epoch ∷ duration epoch ∷ [] }
      else t

  unfoldable pub checkpoint_if_due : EpochClock → (epoch : ℕ) → DdpTrainer → DdpTrainer
  checkpoint_if_due clock epoch t =
      if leb (t.last_checkpoint_time + t.checkpoint_interval) clock.checked
      then save_checkpoint clock.saved (pos epoch) t
      else t

  -- The body of the loop of `train`. `false`: the average raised ZeroDivisionError. Behind it at least
  -- one batch has come, by the length of the loader, so that the throughput that is printed is bound.
  unfoldable pub train_epoch : EpochClock → (epoch : ℕ) → DdpTrainer → DdpTrainer × Bool
  train_epoch clock epoch t =
      let (t', running_loss) = train_batches_of epoch t in
      let avg_loss = divide running_loss (of_int (pos torch.batch_count)) in
      if eqb torch.batch_count 0
      then (t', false)
      else (checkpoint_if_due clock epoch (log_epoch avg_loss epoch t'), true)

  -- for epoch in range(first, first + rounds)
  unfoldable pub train_range :
      (clock : ℕ → EpochClock) (rounds first : ℕ) → DdpTrainer → DdpTrainer × Bool
  train_range clock zero first t = (t, true)
  train_range clock (suc rounds) first t =
      let (t', done) = train_epoch (clock first) first t in
      elim done [ true ↦ train_range clock rounds (suc first) t' | false ↦ (t', false) ]

  unfoldable pub train : (clock : ℕ → EpochClock) (end_time : ℕ) → DdpTrainer → DdpTrainer × Bool
  train clock end_time t =
      let (t', done) = train_range clock (t.epochs - t.current_epoch) t.current_epoch t in
      elim done [
        | true ↦ (save_checkpoint end_time (sub_ℕ t.epochs 1) t', true)
        | false ↦ (t', false)
      ]
