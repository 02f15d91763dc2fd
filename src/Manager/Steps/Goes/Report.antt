-- ===== src/Manager/Steps/Goes/Report.antt =====
-- dmlf/manager/cluster_manager.py: the accesses of `ReportJobStatus` and the jobs that wait.
use mathlib.Core.List.Perm
use distributed_ml_training.Base.{
  ℕ, pos, int_ltb, ◌≡◌, refl, inl, inr, none, some, Option, List, [], ◌∷◌, true, sym, Bool-cases,
  subst, String,
}
use distributed_ml_training.Registry.JobState
use distributed_ml_training.Registry.Schema.{Job}
use distributed_ml_training.Registry.Nodes.{update_node_state}
use distributed_ml_training.Registry.Jobs.{update_job_status, update_job_retries, get_job, find_job}
use distributed_ml_training.Registry.Rows.{find_job-In}
use distributed_ml_training.Manager.State.{Manager, write_log}
use distributed_ml_training.Manager.Rpcs.{
  Report, failure, completion, other, classify, JobStatusRequest,
}
use distributed_ml_training.Manager.Lifecycle.{JobView, view}
use distributed_ml_training.Manager.Lifecycle.Pool.{Flow, moved, ended, returned, hold}
use distributed_ml_training.Manager.Lifecycle.Sound.{IsKnown, Flow-IsKnown}
use distributed_ml_training.Manager.Refinement.Rpcs.{jobs-observe_completion}
use distributed_ml_training.Manager.Steps.{write_retry, retried_dict}
use distributed_ml_training.Manager.Steps.Reporting.{
  ReportAt, reading, logging, freeing, retrying, enqueueing, counting_retry, failing, completing,
  releasing, leaving, counting, observing, report_step, report_holds,
}
use distributed_ml_training.Manager.Steps.Goes.{Goes, next_holds, NextKnows, enqueue-Flow}

-- The job that was read still has a row with its limit, and had retries left.
abbrev pub MayRetry : List Job → Job → Type 0
MayRetry js j = IsKnown js j × (int_ltb (pos j.retries) j.max_retries ≡ true)

unfoldable pub ReportKnows : List Job → ReportAt → Type 0
ReportKnows js (logging q j) = IsKnown js j
ReportKnows js (freeing q j) = MayRetry js j
ReportKnows js (retrying j) = MayRetry js j
ReportKnows js _ = Unit

-- What a thread knows stays true while others change the rows.
pub Flow-ReportKnows :
    {v w : JobView} (t : ReportAt) → Flow v w → ReportKnows v.rows t → ReportKnows w.rows t
unfolding ReportKnows
Flow-ReportKnows (logging q j) f k = Flow-IsKnown f j k
Flow-ReportKnows (freeing q j) f k = (Flow-IsKnown f j k.0, k.1)
Flow-ReportKnows (retrying j) f k = (Flow-IsKnown f j k.0, k.1)
Flow-ReportKnows (reading q) f k = tt
Flow-ReportKnows (enqueueing d) f k = tt
Flow-ReportKnows counting_retry f k = tt
Flow-ReportKnows (failing q) f k = tt
Flow-ReportKnows (releasing q) f k = tt
Flow-ReportKnows (completing q) f k = tt
Flow-ReportKnows (leaving q) f k = tt
Flow-ReportKnows (counting q) f k = tt
Flow-ReportKnows (observing q) f k = tt

-- The row of a job that was read is written before the job comes to the queue.
pub write_retry-Flow :
    (j : Job) (m : Manager)
    → MayRetry m.registry.jobs j
    → Flow (view m.jobs) (hold (retried_dict j ∷ []) (view (write_retry j m).jobs))
unfolding write_retry update_job_retries
write_retry-Flow j m ((x, found, same), room) =
    returned j x found same room refl (Perm.refl (retried_dict j ∷ m.queue))

reading-Goes :
    (now : ℕ) (q : JobStatusRequest) (m : Manager) (c : Report) (o : Option Job)
    → classify q.status ≡ c
    → get_job q.job_id m.registry ≡ o
    → Goes report_holds ReportKnows (view m.jobs) (report_step now (reading q) m)
unfolding report_step next_holds NextKnows ReportKnows report_holds get_job
reading-Goes now q m failure none e f = rw (e, f, report_step) (moved refl (Perm.refl m.queue), tt)
reading-Goes now q m failure (some j) e f =
    let named = (find_job-In q.job_id m.registry.jobs j f).1 in
    rw (e, f, report_step)
      (
        moved refl (Perm.refl m.queue),
        (j, subst (λ (k : String). find_job k m.registry.jobs ≡ some j) (sym named) f, refl),
      )
reading-Goes now q m completion o e f = rw (e, report_step) (moved refl (Perm.refl m.queue), tt)
reading-Goes now q m other o e f = rw (e, report_step) (moved refl (Perm.refl m.queue), tt)

pub report_step-Goes :
    (now : ℕ) (t : ReportAt) (m : Manager)
    → ReportKnows m.registry.jobs t
    → Goes report_holds ReportKnows (hold (report_holds t) (view m.jobs)) (report_step now t m)
unfolding report_step next_holds NextKnows ReportKnows report_holds write_log update_node_state
    update_job_status
report_step-Goes now (reading q) m k =
    reading-Goes now q m (classify q.status) (get_job q.job_id m.registry) refl refl
report_step-Goes now (logging q j) m k = elim (Bool-cases (int_ltb (pos j.retries) j.max_retries)) [
  | inl room ↦ rw (room, report_step) (moved refl (Perm.refl m.queue), (k, room))
  | inr full ↦ rw (full, report_step) (moved refl (Perm.refl m.queue), tt)
]
report_step-Goes now (freeing q j) m k = (moved refl (Perm.refl m.queue), k)
report_step-Goes now (retrying j) m k = (write_retry-Flow j m k, tt)
report_step-Goes now (enqueueing d) m k = (enqueue-Flow d m, tt)
report_step-Goes now counting_retry m k = (moved refl (Perm.refl m.queue), tt)
report_step-Goes now (failing q) m k =
    (ended now q.job_id JobState.failed (pos 1) (inr refl) refl (Perm.refl m.queue), tt)
report_step-Goes now (completing q) m k =
    (ended now q.job_id JobState.completed (pos 0) (inl refl) refl (Perm.refl m.queue), tt)
report_step-Goes now (releasing q) m k = (moved refl (Perm.refl m.queue), tt)
report_step-Goes now (leaving q) m k = (moved refl (Perm.refl m.queue), tt)
report_step-Goes now (counting q) m k = (moved refl (Perm.refl m.queue), tt)
report_step-Goes now (observing q) m k =
    (rw jobs-observe_completion (moved refl (Perm.refl m.queue)), tt)
