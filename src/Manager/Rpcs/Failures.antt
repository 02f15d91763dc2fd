-- ===== src/Manager/Rpcs/Failures.antt =====
-- dmlf/manager/cluster_manager.py: `ReportJobStatus` when several nodes of a job report a failure.
use distributed_ml_training.Base.{
  ℕ, ◌+◌, ◌≡◌, refl, sym, ap, ◌∙◌, subst, pos, int_ltb, some, [], ◌∷◌, ◌++◌, length, arith, eq_iff,
  String, true, length-snoc,
}
use distributed_ml_training.Sort.Laws.{length-sort_desc}
use distributed_ml_training.Registry.NodeState
use distributed_ml_training.Registry.Schema.{Job}
use distributed_ml_training.Registry.Nodes.{update_node_state}
use distributed_ml_training.Registry.Jobs.{dict_of_row, get_job, update_job_retries}
use distributed_ml_training.Registry.Rows.{find_job-In, find_job-update_job}
use distributed_ml_training.Queue.{key_lt, retry_job}
use distributed_ml_training.Queue.Order.{as_retried}
use distributed_ml_training.Manager.State.{Manager, write_log, inc_job_retries}
use distributed_ml_training.Manager.Lifecycle.{retried_row}
use distributed_ml_training.Manager.Lifecycle.Invariants.{retried_row-KeepsId}
use distributed_ml_training.Manager.Rpcs.{
  JobStatusRequest, failure, classify, report_failure, report_job_status,
}

-- The manager after a failure report for a job with retries left.
report_job_status-room :
    (now : ℕ) (q : JobStatusRequest) (j : Job) (m : Manager)
    → classify q.status ≡ failure
    → get_job q.job_id m.registry ≡ some j
    → int_ltb (pos j.retries) j.max_retries ≡ true
    → ((report_job_status now q m).jobs
        ≡ retry_job
            (dict_of_row j)
            (record m.jobs { registry = update_node_state q.node_id NodeState.idle m.registry }))
      × ((report_job_status now q m).jobs_queued ≡ m.jobs_queued)
      × ((report_job_status now q m).jobs_running ≡ m.jobs_running)
unfolding report_job_status report_failure write_log inc_job_retries
report_job_status-room now q j m c found room = (
  rw (c, report_job_status, found, room) refl,
  rw (c, report_job_status, found, room) refl,
  rw (c, report_job_status, found, room) refl,
)

-- A failure report for a job with retries left: its row is PENDING with one retry more, the queue
-- has one entry more, and the gauges of queued and of running jobs stay.
pub report_job_status-retry :
    (now : ℕ) (q : JobStatusRequest) (j : Job) (m : Manager)
    → classify q.status ≡ failure
    → get_job q.job_id m.registry ≡ some j
    → int_ltb (pos j.retries) j.max_retries ≡ true
    → (get_job q.job_id (report_job_status now q m).registry ≡ some (retried_row (j.retries + 1) j))
      × (length (report_job_status now q m).queue ≡ length m.queue + 1)
      × ((report_job_status now q m).jobs_queued ≡ m.jobs_queued)
      × ((report_job_status now q m).jobs_running ≡ m.jobs_running)
unfolding get_job retry_job update_job_retries update_node_state dict_of_row
report_job_status-retry now q j m c found room =
    let (jobs, queued, running) = report_job_status-room now q j m c found room in
    let named = (find_job-In q.job_id m.registry.jobs j found).1 in
    let update =
      find_job-update_job (retried_row (j.retries + 1)) (retried_row-KeepsId (j.retries + 1))
        j.job_id q.job_id m.registry.jobs in
    (
      rw jobs (update ∙ ground (arith, eq_iff j.job_id q.job_id)),
      rw jobs (
          length-sort_desc key_lt (m.queue ++ as_retried (dict_of_row j) ∷ [])
          ∙ omega (arith, length-snoc m.queue (as_retried (dict_of_row j)))),
      queued,
      running,
    )

-- Two failure reports for one job with at least two retries left, one after the other: the job loses
-- two retries and is queued twice.
pub two_failures :
    (t u : ℕ) (p q : JobStatusRequest) (j : Job) (m : Manager)
    → classify p.status ≡ failure
    → classify q.status ≡ failure
    → p.job_id ≡ q.job_id
    → get_job p.job_id m.registry ≡ some j
    → int_ltb (pos (j.retries + 1)) j.max_retries ≡ true
    → (get_job p.job_id (report_job_status u q (report_job_status t p m)).registry
        ≡ some (retried_row (j.retries + 2) j))
      × (length (report_job_status u q (report_job_status t p m)).queue ≡ length m.queue + 2)
two_failures t u p q j m cp cq same found room =
    let m₁ = report_job_status t p m in
    let (row, len, _, _) = report_job_status-retry t p j m cp found (ground arith) in
    let (row', len', _, _) =
      report_job_status-retry u q (retried_row (j.retries + 1) j) m₁ cq
        (subst (λ (k : String). get_job k m₁.registry ≡ some (retried_row (j.retries + 1) j)) same
          row)
        room in
    (
      subst
          (λ (k : String).
            get_job k (report_job_status u q m₁).registry ≡ some (retried_row (j.retries + 2) j))
          (sym same) (row' ∙ ap (λ (n : ℕ). some (retried_row n j)) (omega arith)),
      omega (arith, len, len'),
    )
