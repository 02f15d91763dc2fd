-- ===== src/Training/DdpModel.antt =====
-- dmlf/training/ddp_model.py: `prepare_ddp_model`, as far as it chooses the device of the replica.
use distributed_ml_training.Base.{
  ℤ, pos, Option, none, some, String, if◌then◌else◌, Dict, lookup, ◌⊎◌, inl, inr,
}
use distributed_ml_training.Text.Numbers.{int_of}
use distributed_ml_training.Training.Distributed.{ProcessGroups}

-- RuntimeError and ValueError
pub data PrepareError : Type 0 where
  not_initialized invalid_local_rank : PrepareError

-- int(os.environ.get("LOCAL_RANK", "0"))
unfoldable pub local_rank_of : Dict String → ℤ ⊎ PrepareError
unfolding lookup int_of
local_rank_of env = elim (lookup "LOCAL_RANK" env) [
  | none ↦ inl (pos 0)
  | some text ↦ elim (int_of text) [ none ↦ inr invalid_local_rank | some n ↦ inl n ]
]

module _ (groups : ProcessGroups) where
  open groups use {Group}

  -- The `device_ids` of the replica: without CUDA it has none.
  unfoldable pub prepare_ddp_model : Dict String → Group → Option ℤ ⊎ PrepareError
  unfolding local_rank_of
  prepare_ddp_model env g =
      if groups.is_initialized g
      then (elim (local_rank_of env) [
        | inr e ↦ inr e
        | inl rank ↦ inl (if groups.cuda_available then some rank else none)
      ])
      else inr not_initialized
