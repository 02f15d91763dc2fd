-- ===== src/Manager/Steps.antt =====
-- The threads of the manager one access at a time: where a thread stands in the code, and what its
-- next access of the registry, the queue, the log, the gauges or the command queues does.
--
-- A method of the registry or the queue has one connection or takes the lock once, and is one step,
-- but for four: `get_available_nodes` and `get_all_nodes` of dmlf/manager/node_registry.py mark the
-- silent nodes first, with another connection, and `submit_job` and `retry_job` of
-- dmlf/manager/queue.py write the database before they take the lock. The halves of the last two are
-- here.
pub mod Scheduling
pub mod Reporting
pub mod Submitting
pub mod Monitoring
pub mod Goes
pub mod Alone
use distributed_ml_training.Base.{ℕ, ◌+◌, Option, none, some, List, [], ◌∷◌, ◌++◌}
use distributed_ml_training.Sort.{sort_desc}
use distributed_ml_training.Registry.JobState
use distributed_ml_training.Registry.Schema.{Job}
use distributed_ml_training.Registry.Jobs.{JobDict, dict_of_row, insert_job, update_job_retries}
use distributed_ml_training.Queue.{key_lt}
use distributed_ml_training.Queue.Order.{as_retried}
use distributed_ml_training.Manager.State.{Manager}

-- `retry_job` up to its lock: the row of the job that was read.
unfoldable pub write_retry : Job → Manager → Manager
unfolding update_job_retries
write_retry j m = record m {
  jobs = record m.jobs {
    registry = update_job_retries j.job_id JobState.pending (j.retries + 1) m.registry;
  };
}

-- The dict that `retry_job` makes of the job that was read.
abbrev pub retried_dict : Job → JobDict
retried_dict j = as_retried (dict_of_row j)

-- `submit_job` up to its lock: the row, if its key is new.
unfoldable pub write_row : ℕ → JobDict → Manager → Option Manager
unfolding insert_job
write_row now d m = elim (insert_job now d m.registry) [
  | none ↦ none
  | some r ↦ some (record m { jobs = record m.jobs { registry = r } })
]

-- Both under the lock: the job behind the others, and the order again.
unfoldable pub enqueue : JobDict → Manager → Manager
unfolding sort_desc key_lt
enqueue d m = record m { jobs = record m.jobs { queue = sort_desc key_lt (m.queue ++ d ∷ []) } }
