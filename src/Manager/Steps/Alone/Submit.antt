-- ===== src/Manager/Steps/Alone/Submit.antt =====
-- dmlf/manager/cluster_manager.py: the accesses of `SubmitJob` one after the other are the handler.
use distributed_ml_training.Base.{ℕ, String, ◌≡◌, refl, Option, none, some}
use distributed_ml_training.Registry.Schema.{Registry}
use distributed_ml_training.Registry.Jobs.{insert_job}
use distributed_ml_training.Queue.{submit_job}
use distributed_ml_training.Queue.Order.{as_pending}
use distributed_ml_training.Manager.State.{Manager, submitted, write_log, manager_entry}
use distributed_ml_training.Manager.Rpcs.{JobSubmitRequest, job_data, submit_job_rpc}
use distributed_ml_training.Manager.Steps.{write_row, enqueue}
use distributed_ml_training.Manager.Steps.Submitting.{logging, enqueueing, submit_step}
use distributed_ml_training.Manager.Steps.Alone.{Runs, over, go, go_as}

logged-Runs :
    (now : ℕ) (id : String) (q : JobSubmitRequest) (m : Manager) (o : Option Registry)
    → insert_job now (as_pending (job_data id q)) m.registry ≡ o
    → Runs (submit_step now) (submit_job_rpc now id q m).0 (some (logging id q)) m
unfolding submit_step submit_job_rpc submit_job write_row enqueue write_log
logged-Runs now id q m none e =
    rw (e, submit_job_rpc, submit_job)
      (go (
        go_as (write_log (manager_entry now id "INFO" (submitted q.nnodes)) m, none)
          (rw (e, submit_step, write_row, write_log) refl) over))
logged-Runs now id q m (some r) e =
    let d = as_pending (job_data id q) in
    let m₁ : Manager = write_log (manager_entry now id "INFO" (submitted q.nnodes)) m in
    rw (e, submit_job_rpc, submit_job)
      (go (
        go_as (record m₁ { jobs = record m₁.jobs { registry = r } }, some (enqueueing d))
          (rw (e, submit_step, write_row, write_log) refl) (go (go over))))

pub submit_job_rpc-Runs :
    (now : ℕ) (id : String) (q : JobSubmitRequest) (m : Manager)
    → Runs (submit_step now) (submit_job_rpc now id q m).0 (some (logging id q)) m
submit_job_rpc-Runs now id q m =
    logged-Runs now id q m (insert_job now (as_pending (job_data id q)) m.registry) refl
