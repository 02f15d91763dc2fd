-- ===== src/Manager/Steps/Reporting.antt =====
-- dmlf/manager/cluster_manager.py: a thread in `ReportJobStatus`, one access at a time.
use distributed_ml_training.Base.{
  ℕ, ◌+◌, pos, int_ltb, Option, none, some, List, [], ◌∷◌, if◌then◌else◌,
}
use distributed_ml_training.Registry.NodeState
use distributed_ml_training.Registry.JobState
use distributed_ml_training.Registry.Schema.{Job}
use distributed_ml_training.Registry.Nodes.{update_node_state}
use distributed_ml_training.Registry.Jobs.{JobDict, dict_of_row, update_job_status, get_job}
use distributed_ml_training.Manager.State.{
  Manager, requeueing, gave_up, dec_jobs_running, inc_job_retries, write_log, manager_entry,
}
use distributed_ml_training.Manager.Rpcs.{
  JobStatusRequest, failure, completion, other, classify, observe_completion, with_registry,
}
use distributed_ml_training.Manager.Steps.{write_retry, retried_dict, enqueue}

-- What the thread is about to do, with the job that it has read.
pub data ReportAt : Type 0 where
  reading : JobStatusRequest → ReportAt
  logging : JobStatusRequest → Job → ReportAt
  freeing : JobStatusRequest → Job → ReportAt
  retrying : Job → ReportAt
  enqueueing : JobDict → ReportAt
  counting_retry : ReportAt
  failing completing : JobStatusRequest → ReportAt
  releasing : JobStatusRequest → ReportAt
  leaving counting observing : JobStatusRequest → ReportAt

-- `none`: the handler has answered.
unfoldable pub report_step : ℕ → ReportAt → Manager → Manager × Option ReportAt
unfolding update_node_state update_job_status get_job dict_of_row
report_step now (reading q) m = elim (classify q.status) [
  | failure ↦ elim (get_job q.job_id m.registry) [
    | none ↦ (m, none)
    | some j ↦ (m, some (logging q j))
  ]
  | completion ↦ (m, some (completing q))
  | other ↦ (m, none)
]
report_step now (logging q j) m =
    if int_ltb (pos j.retries) j.max_retries
    then (
      write_log (manager_entry now q.job_id "WARNING" (requeueing (j.retries + 1) j.max_retries)) m,
      some (freeing q j),
    )
    else (
      write_log (manager_entry now q.job_id "ERROR" (gave_up j.max_retries)) m,
      some (failing q),
    )
report_step now (freeing q j) m =
    (with_registry (update_node_state q.node_id NodeState.idle) m, some (retrying j))
report_step now (retrying j) m = (write_retry j m, some (enqueueing (retried_dict j)))
report_step now (enqueueing d) m = (enqueue d m, some counting_retry)
report_step now counting_retry m = (record m { gauges = inc_job_retries m.gauges }, none)
report_step now (failing q) m = (
  with_registry (update_job_status now q.job_id JobState.failed none (some (pos 1))) m,
  some (releasing q),
)
report_step now (releasing q) m =
    (with_registry (update_node_state q.node_id NodeState.idle) m, none)
report_step now (completing q) m = (
  with_registry (update_job_status now q.job_id JobState.completed none (some (pos 0))) m,
  some (leaving q),
)
report_step now (leaving q) m =
    (with_registry (update_node_state q.node_id NodeState.idle) m, some (counting q))
report_step now (counting q) m =
    (record m { gauges = dec_jobs_running m.gauges }, some (observing q))
report_step now (observing q) m = (
  observe_completion now
      (elim (get_job q.job_id m.registry) [ none ↦ none | some j ↦ some (dict_of_row j) ]) m,
  none,
)

-- A job whose row is written and that is not in the queue yet.
unfoldable pub report_holds : ReportAt → List JobDict
report_holds (enqueueing d) = d ∷ []
report_holds _ = []
