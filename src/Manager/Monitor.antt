-- ===== src/Manager/Monitor.antt =====
-- dmlf/manager/cluster_manager.py: one round of `monitor_nodes`, the thread of `serve` that fails
-- the jobs of silent nodes and counts the nodes.
pub mod Blind
use distributed_ml_training.Base.{
  ℕ, ◌+◌, pos, int_ltb, String, none, some, Bool, List, [], ◌∷◌, keep, any, length, ◌==◌,
  if◌then◌else◌,
}
use distributed_ml_training.Registry.NodeState
use distributed_ml_training.Registry.JobState
use distributed_ml_training.Registry.Schema.{Node, Registry, Job}
use distributed_ml_training.Registry.Nodes.{
  is_stale, mark_offline_nodes, offline_timeout, get_all_nodes,
}
use distributed_ml_training.Registry.Jobs.{dict_of_row, update_job_status, get_jobs}
use distributed_ml_training.Queue.{retry_job}
use distributed_ml_training.Manager.State.{
  Manager, crashed, write_log, manager_entry, set_node_counts,
}
use distributed_ml_training.Manager.Dispatch.{node_ids}

-- The monitor's own query, with the configured `offline_timeout_sec`.
unfoldable pub offline_nodes : (now timeout : ℕ) → Registry → List String
offline_nodes now timeout r = node_ids (keep (is_stale now timeout) r.nodes)

-- any(node in assigned for node in offline_nodes)
unfoldable pub touches : List String → Job → Bool
touches offline j = any (λ node. any (λ a. node == a) j.assigned_nodes) offline

-- A running job on a silent node: retry, or fail.
unfoldable pub fail_job : ℕ → Job → Manager → Manager
fail_job now job m =
    if int_ltb (pos job.retries) job.max_retries
    then (let m₁ =
          write_log
            (manager_entry now job.job_id "WARNING" (crashed (job.retries + 1) job.max_retries))
            m in
        record m₁ { jobs = retry_job (dict_of_row job) m₁.jobs })
    else record m {
      jobs = record m.jobs {
        registry = update_job_status now job.job_id JobState.failed none (some (pos 1)) m.registry;
      };
    }

-- for job in running_jobs
unfoldable pub fail_jobs : ℕ → List String → List Job → Manager → Manager
fail_jobs now offline [] m = m
fail_jobs now offline (j ∷ js) m =
    fail_jobs now offline js (if touches offline j then fail_job now j m else m)

-- The counts of the last part of the round, which dmlf/manager/health.py takes too.
unfoldable pub count_nodes : String → List Node → ℕ
count_nodes status ns = length (keep (λ n. n.status == status) ns)

unfoldable pub update_gauges : ℕ → Manager → Manager
update_gauges now m =
    let (r, all_nodes) = get_all_nodes now m.registry in
    record m {
      jobs = record m.jobs { registry = r };
      gauges =
          set_node_counts (count_nodes NodeState.idle all_nodes)
            (count_nodes NodeState.training all_nodes)
            (count_nodes NodeState.disconnected all_nodes) m.gauges;
    }

-- `if offline_nodes:` guards a loop that does nothing when there is no such node.
unfoldable pub monitor_round : (now timeout : ℕ) → Manager → Manager
monitor_round now timeout m =
    let offline = offline_nodes now timeout m.registry in
    let failed : Manager = elim offline [
      | [] ↦ m
      | o ∷ os ↦ fail_jobs now (o ∷ os) (get_jobs (some JobState.running) m.registry) m
    ] in
    update_gauges now (record failed {
      jobs = record failed.jobs {
        registry = record failed.registry {
          nodes = mark_offline_nodes now offline_timeout failed.registry.nodes;
        };
      };
    })
