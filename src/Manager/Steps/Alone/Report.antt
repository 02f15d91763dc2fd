-- ===== src/Manager/Steps/Alone/Report.antt =====
-- dmlf/manager/cluster_manager.py: the accesses of `ReportJobStatus` one after the other are the
-- handler.
use distributed_ml_training.Base.{
  ℕ, ◌+◌, pos, int_ltb, ◌≡◌, refl, inl, inr, Option, none, some, Bool-cases,
}
use distributed_ml_training.Registry.Schema.{Job}
use distributed_ml_training.Registry.Jobs.{dict_of_row, get_job}
use distributed_ml_training.Queue.{retry_job}
use distributed_ml_training.Manager.State.{Manager, requeueing, gave_up, write_log, manager_entry}
use distributed_ml_training.Manager.Rpcs.{
  JobStatusRequest, Report, failure, completion, other, classify, report_failure, report_completion,
  report_job_status,
}
use distributed_ml_training.Manager.Steps.{write_retry, enqueue}
use distributed_ml_training.Manager.Steps.Reporting.{
  ReportAt, reading, logging, freeing, failing, completing, report_step,
}
use distributed_ml_training.Manager.Steps.Alone.{Runs, over, go, go_as}

abbrev Handling : ℕ → Manager → ReportAt → Manager → Type 0
Handling now last t m = Runs (report_step now) last (some t) m

pub logging-Runs :
    (now : ℕ) (q : JobStatusRequest) (j : Job) (m : Manager)
    → Handling now (report_failure now q j m) (logging q j) m
unfolding report_step report_failure write_retry enqueue retry_job dict_of_row
logging-Runs now q j m = elim (Bool-cases (int_ltb (pos j.retries) j.max_retries)) [
  | inl room ↦
      rw (room, report_failure)
        (go_as
          (
            write_log
                (manager_entry now q.job_id "WARNING" (requeueing (j.retries + 1) j.max_retries)) m,
            some (freeing q j),
          )
          (rw (room, report_step) refl) (go (go (go (go over)))))
  | inr full ↦
      rw (full, report_failure)
        (go_as
          (
            write_log (manager_entry now q.job_id "ERROR" (gave_up j.max_retries)) m,
            some (failing q),
          )
          (rw (full, report_step) refl) (go (go over)))
]

pub completing-Runs :
    (now : ℕ) (q : JobStatusRequest) (m : Manager)
    → Handling now (report_completion now q m) (completing q) m
unfolding report_step report_completion
completing-Runs now q m = go (go (go (go over)))

reading-Runs :
    (now : ℕ) (q : JobStatusRequest) (m : Manager) (c : Report) (o : Option Job)
    → classify q.status ≡ c
    → get_job q.job_id m.registry ≡ o
    → Handling now (report_job_status now q m) (reading q) m
unfolding report_job_status report_step
reading-Runs now q m failure none e f =
    rw (e, f, report_job_status) (go_as (m, none) (rw (e, f, report_step) refl) over)
reading-Runs now q m failure (some j) e f =
    rw (e, f, report_job_status)
      (go_as (m, some (logging q j)) (rw (e, f, report_step) refl) (logging-Runs now q j m))
reading-Runs now q m completion o e f =
    rw (e, report_job_status)
      (go_as (m, some (completing q)) (rw (e, report_step) refl) (completing-Runs now q m))
reading-Runs now q m other o e f =
    rw (e, report_job_status) (go_as (m, none) (rw (e, report_step) refl) over)

pub report_job_status-Runs :
    (now : ℕ) (q : JobStatusRequest) (m : Manager)
    → Handling now (report_job_status now q m) (reading q) m
report_job_status-Runs now q m =
    reading-Runs now q m (classify q.status) (get_job q.job_id m.registry) refl refl
