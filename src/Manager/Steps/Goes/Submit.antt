-- ===== src/Manager/Steps/Goes/Submit.antt =====
-- dmlf/manager/cluster_manager.py: the accesses of `SubmitJob` and the jobs that wait.
use mathlib.Core.List.Perm
use distributed_ml_training.Base.{ℕ, ◌≡◌, refl, Option, none, some, List, ◌∷◌, String}
use distributed_ml_training.Registry.Schema.{Job, Registry}
use distributed_ml_training.Registry.Jobs.{insert_job}
use distributed_ml_training.Queue.Order.{as_pending}
use distributed_ml_training.Manager.State.{Manager, write_log}
use distributed_ml_training.Manager.Rpcs.{JobSubmitRequest, job_data}
use distributed_ml_training.Manager.Lifecycle.{view}
use distributed_ml_training.Manager.Lifecycle.Pool.{arrived, moved, hold}
use distributed_ml_training.Registry.Rows.{absent_key}
use distributed_ml_training.Manager.Refinement.Rpcs.{insert_job-eq-some}
use distributed_ml_training.Manager.Steps.{write_row}
use distributed_ml_training.Manager.Steps.Submitting.{
  SubmitAt, logging, inserting, enqueueing, counting, submit_step, submit_holds,
}
use distributed_ml_training.Manager.Steps.Goes.{Goes, next_holds, NextKnows, enqueue-Flow}

-- The thread needs to know nothing of the rows.
abbrev pub SubmitKnows : List Job → SubmitAt → Type 0
SubmitKnows js t = Unit

inserting-Goes :
    (now : ℕ) (id : String) (q : JobSubmitRequest) (m : Manager) (o : Option Registry)
    → insert_job now (as_pending (job_data id q)) m.registry ≡ o
    → Goes submit_holds SubmitKnows (view m.jobs) (submit_step now (inserting id q) m)
unfolding submit_step write_row job_data next_holds NextKnows submit_holds
inserting-Goes now id q m none e =
    rw (e, submit_step, write_row) (moved refl (Perm.refl m.queue), tt)
inserting-Goes now id q m (some r) e =
    let (absent, rows) = insert_job-eq-some now (as_pending (job_data id q)) m.registry r e in
    rw (e, submit_step, write_row)
      (
        arrived now (job_data id q) (absent_key id m.registry.jobs absent).1 refl rows
            (Perm.refl (as_pending (job_data id q) ∷ m.queue)),
        tt,
      )

pub submit_step-Goes :
    (now : ℕ) (t : SubmitAt) (m : Manager)
    → Goes submit_holds SubmitKnows (hold (submit_holds t) (view m.jobs)) (submit_step now t m)
unfolding submit_step next_holds NextKnows submit_holds write_log
submit_step-Goes now (logging id q) m = (moved refl (Perm.refl m.queue), tt)
submit_step-Goes now (inserting id q) m =
    inserting-Goes now id q m (insert_job now (as_pending (job_data id q)) m.registry) refl
submit_step-Goes now (enqueueing d) m = (enqueue-Flow d m, tt)
submit_step-Goes now counting m = (moved refl (Perm.refl m.queue), tt)
