-- ===== src/Manager/Steps/Monitoring.antt =====
-- dmlf/manager/cluster_manager.py: a round of `monitor_nodes`, one access at a time.
use distributed_ml_training.Base.{
  ℕ, ◌+◌, pos, int_ltb, String, Option, none, some, List, [], ◌∷◌, if◌then◌else◌,
}
use distributed_ml_training.Registry.NodeState
use distributed_ml_training.Registry.JobState
use distributed_ml_training.Registry.Schema.{Job}
use distributed_ml_training.Registry.Nodes.{mark_offline_nodes, offline_timeout}
use distributed_ml_training.Registry.Jobs.{JobDict, update_job_status, get_jobs}
use distributed_ml_training.Manager.State.{
  Manager, crashed, write_log, manager_entry, set_node_counts,
}
use distributed_ml_training.Manager.Rpcs.{with_registry}
use distributed_ml_training.Manager.Monitor.{offline_nodes, touches, count_nodes}
use distributed_ml_training.Manager.Steps.{write_retry, retried_dict, enqueue}

-- What the thread is about to do, with the silent nodes of its query and the jobs of its loop that
-- are left as it has read them.
pub data MonitorAt : Type 0 where
  querying : MonitorAt
  scanning : (offline : List String) → MonitorAt
  looping : (offline : List String) (left : List Job) → MonitorAt
  retrying : Job → (offline : List String) (left : List Job) → MonitorAt
  enqueueing : JobDict → (offline : List String) (left : List Job) → MonitorAt
  marking marking_again tallying : MonitorAt

-- `none`: the thread sleeps again.
unfoldable pub monitor_step : (now timeout : ℕ) → MonitorAt → Manager → Manager × Option MonitorAt
unfolding mark_offline_nodes update_job_status get_jobs
monitor_step now timeout querying m = elim (offline_nodes now timeout m.registry) [
  | [] ↦ (m, some marking)
  | o ∷ os ↦ (m, some (scanning (o ∷ os)))
]
monitor_step now timeout (scanning offline) m =
    (m, some (looping offline (get_jobs (some JobState.running) m.registry)))
monitor_step now timeout (looping offline []) m = (m, some marking)
monitor_step now timeout (looping offline (j ∷ js)) m =
    if touches offline j
    then (if int_ltb (pos j.retries) j.max_retries
        then (
          write_log (manager_entry now j.job_id "WARNING" (crashed (j.retries + 1) j.max_retries))
              m,
          some (retrying j offline js),
        )
        else (
          with_registry (update_job_status now j.job_id JobState.failed none (some (pos 1))) m,
          some (looping offline js),
        ))
    else (m, some (looping offline js))
monitor_step now timeout (retrying j offline js) m =
    (write_retry j m, some (enqueueing (retried_dict j) offline js))
monitor_step now timeout (enqueueing d offline js) m = (enqueue d m, some (looping offline js))
monitor_step now timeout marking m = (
  with_registry (λ r. record r { nodes = mark_offline_nodes now offline_timeout r.nodes }) m,
  some marking_again,
)
monitor_step now timeout marking_again m = (
  with_registry (λ r. record r { nodes = mark_offline_nodes now offline_timeout r.nodes }) m,
  some tallying,
)
monitor_step now timeout tallying m = (
  record m {
    gauges =
        set_node_counts (count_nodes NodeState.idle m.registry.nodes)
          (count_nodes NodeState.training m.registry.nodes)
          (count_nodes NodeState.disconnected m.registry.nodes) m.gauges;
  },
  none,
)

-- A job whose row is written and that is not in the queue yet.
unfoldable pub monitor_holds : MonitorAt → List JobDict
monitor_holds (enqueueing d offline js) = d ∷ []
monitor_holds _ = []
