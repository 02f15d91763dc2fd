-- ===== src/Manager/Steps/Submitting.antt =====
-- dmlf/manager/cluster_manager.py: a thread in `SubmitJob`, one access at a time.
use distributed_ml_training.Base.{ℕ, String, Option, none, some, List, [], ◌∷◌}
use distributed_ml_training.Registry.Jobs.{JobDict}
use distributed_ml_training.Queue.Order.{as_pending}
use distributed_ml_training.Manager.State.{
  Manager, submitted, inc_jobs_queued, write_log, manager_entry,
}
use distributed_ml_training.Manager.Rpcs.{JobSubmitRequest, job_data}
use distributed_ml_training.Manager.Steps.{write_row, enqueue}

pub data SubmitAt : Type 0 where
  logging : (job_id : String) → JobSubmitRequest → SubmitAt
  inserting : (job_id : String) → JobSubmitRequest → SubmitAt
  enqueueing : JobDict → SubmitAt
  counting : SubmitAt

-- `none`: the handler has answered, or the insertion raised because the identifier is taken.
unfoldable pub submit_step : ℕ → SubmitAt → Manager → Manager × Option SubmitAt
unfolding job_data
submit_step now (logging id q) m =
    (write_log (manager_entry now id "INFO" (submitted q.nnodes)) m, some (inserting id q))
submit_step now (inserting id q) m =
    let d = as_pending (job_data id q) in
    elim (write_row now d m) [ none ↦ (m, none) | some m' ↦ (m', some (enqueueing d)) ]
submit_step now (enqueueing d) m = (enqueue d m, some counting)
submit_step now counting m = (record m { gauges = inc_jobs_queued m.gauges }, none)

-- A job whose row is written and that is not in the queue yet.
unfoldable pub submit_holds : SubmitAt → List JobDict
submit_holds (enqueueing d) = d ∷ []
submit_holds _ = []
