-- ===== src/Cluster/Reports.antt =====
-- dmlf/manager/cluster_manager.py: the row of a job after an agent has reported the end of its process.
use distributed_ml_training.Base.{
  ℕ, ◌+◌, ℤ, pos, int_eqb, int_ltb, ◌≡◌, refl, ap, ◌∙◌, String, none, some, true, ◌==◌, eq_refl,
  eq_iff, if◌then◌else◌, Bool-cases, inl, inr,
}
use distributed_ml_training.Text.{lower, same_text}
use distributed_ml_training.Registry.JobState
use distributed_ml_training.Registry.Schema.{Job}
use distributed_ml_training.Registry.Nodes.{update_node_state}
use distributed_ml_training.Registry.Jobs.{
  dict_of_row, set_status, update_job_status, update_job_retries, find_job, get_job,
}
use distributed_ml_training.Registry.Rows.{find_job-In, find_job-update_job}
use distributed_ml_training.Queue.{JobQueue, retry_job}
use distributed_ml_training.Manager.State.{Manager, write_log}
use distributed_ml_training.Manager.Lifecycle.{retried_row}
use distributed_ml_training.Manager.Lifecycle.Invariants.{retried_row-KeepsId, set_status-KeepsId}
use distributed_ml_training.Manager.Refinement.Crash.{crashed_row}
use distributed_ml_training.Manager.Refinement.Rpcs.{jobs-observe_completion}
use distributed_ml_training.Manager.Rpcs.{
  JobStatusRequest, classify, failure, completion, report_failure, report_completion,
  report_job_status,
}

-- The row of a job whose process ended with a code.
abbrev pub ended_row : ℕ → ℤ → Job → Job
ended_row now code j =
    if int_eqb code (pos 0)
    then set_status now JobState.completed none (some (pos 0)) j
    else crashed_row now j

-- The report of an agent on a process that ended with a code.
abbrev pub report_of : (node_id job_id : String) (code : ℤ) → JobStatusRequest
report_of node job code = record {
  node_id = node;
  job_id = job;
  status = if int_eqb code (pos 0) then "completed" else "failed";
}

classify-statuses : (classify "completed" ≡ completion) × (classify "failed" ≡ failure)
unfolding classify lower same_text
classify-statuses = (refl, refl)

completed_row :
    (now : ℕ) (q : JobStatusRequest) (j : Job) (m : Manager)
    → get_job q.job_id m.registry ≡ some j
    → get_job q.job_id (report_completion now q m).registry
      ≡ some (set_status now JobState.completed none (some (pos 0)) j)
unfolding report_completion get_job update_job_status update_node_state
completed_row now q j m found =
    ap (λ (s : JobQueue). find_job q.job_id s.registry.jobs) (jobs-observe_completion now _ _)
    ∙ find_job-update_job (set_status now JobState.completed none (some (pos 0)))
        (set_status-KeepsId now JobState.completed none (some (pos 0))) q.job_id q.job_id
        m.registry.jobs
    ∙ rw (found, eq_refl) refl

failed_row :
    (now : ℕ) (q : JobStatusRequest) (j : Job) (m : Manager)
    → get_job q.job_id m.registry ≡ some j
    → get_job q.job_id (report_failure now q j m).registry ≡ some (crashed_row now j)
unfolding report_failure get_job update_job_status update_job_retries retry_job update_node_state
    write_log dict_of_row
failed_row now q j m found =
    let named = (find_job-In q.job_id m.registry.jobs j found).1 in
    let same : (j.job_id == q.job_id) ≡ true = (eq_iff j.job_id q.job_id).1 named in
    let n = j.retries + 1 in
    let retry =
      find_job-update_job (retried_row n) (retried_row-KeepsId n) j.job_id q.job_id
        m.registry.jobs in
    let fail =
      find_job-update_job (set_status now JobState.failed none (some (pos 1)))
        (set_status-KeepsId now JobState.failed none (some (pos 1))) q.job_id q.job_id
        m.registry.jobs in
    elim (Bool-cases (int_ltb (pos j.retries) j.max_retries)) [
      | inl room ↦ rw (room, report_failure) (retry ∙ rw (same, found) refl)
      | inr full ↦ rw (full, report_failure) (rw (found, eq_refl) at fail)
    ]

-- The manager's row after the report of an agent.
pub report_of-ended :
    (now : ℕ) (node job : String) (code : ℤ) (j : Job) (m : Manager)
    → get_job job m.registry ≡ some j
    → get_job job (report_job_status now (report_of node job code) m).registry
      ≡ some (ended_row now code j)
unfolding report_job_status
report_of-ended now node job code j m found = elim (Bool-cases (int_eqb code (pos 0))) [
  | inl ok ↦
      rw (ok, classify-statuses.0, report_job_status)
        (completed_row now (report_of node job code) j m found)
  | inr not_ok ↦
      rw (not_ok, classify-statuses.1, report_job_status, found)
        (failed_row now (report_of node job code) j m found)
]
