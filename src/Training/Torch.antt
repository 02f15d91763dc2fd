-- ===== src/Training/Torch.antt =====
-- The calls of torch that dmlf/training/trainer.py makes.
use distributed_ml_training.Base.{ℕ, ◌≡◌, List, length}
use distributed_ml_training.Floats.{Floats}

pub record Torch (fl : Floats) : Type 1 where
  -- The model, the optimizer, the sampler, the gradients and the random generators.
  pub World : Type 0
  pub NetState : Type 0
  pub OptimState : Type 0
  pub Batch : Type 0
  pub Output : Type 0
  pub Loss : Type 0
  -- train_loader.sampler.set_epoch(epoch), if the sampler has it
  pub set_epoch : ℕ → World → World
  -- model.train()
  pub train_mode : World → World
  -- iter(train_loader), and len(train_loader), the number of these batches
  pub batches : World → World × List Batch
  pub batch_count : ℕ
  pub length-batches : (w : World) → length (batches w).1 ≡ batch_count
  -- One optimisation step, by its calls. A batch has inputs and targets.
  pub zero_grad : World → World
  pub forward : Batch → World → World × Output
  pub criterion : Output → Batch → World → World × Loss
  pub backward : Loss → World → World
  pub step : World → World
  pub item : Loss → fl.Float
  -- state_dict() and load_state_dict() of the model and of the optimizer
  pub net_state : World → NetState
  pub optim_state : World → OptimState
  pub load_net : NetState → World → World
  pub load_optim : OptimState → World → World
