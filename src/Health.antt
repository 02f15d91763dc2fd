-- ===== src/Health.antt =====
-- dmlf/manager/health.py: the answers of the HTTP server.
pub mod Counts
use distributed_ml_training.Base.{
  ℕ, ltb, String, Option, none, some, Bool, true, false, length, ◌==◌, if◌then◌else◌,
}
use distributed_ml_training.Registry.NodeState
use distributed_ml_training.Registry.Schema.{Registry}
use distributed_ml_training.Registry.Nodes.{get_all_nodes}
use distributed_ml_training.Manager.Monitor.{count_nodes}

pub record ClusterStatus : Type 0 where
  pub total_nodes : ℕ
  pub idle_nodes : ℕ
  pub busy_nodes : ℕ
  pub offline_nodes : ℕ
  pub can_schedule : Bool

-- cluster_handler
unfoldable pub cluster_handler : ℕ → Registry → Registry × ClusterStatus
unfolding get_all_nodes count_nodes
cluster_handler now r =
    let (r', all_nodes) = get_all_nodes now r in
    (
      r',
      record {
        total_nodes = length all_nodes;
        idle_nodes = count_nodes NodeState.idle all_nodes;
        busy_nodes = count_nodes NodeState.training all_nodes;
        offline_nodes = count_nodes NodeState.disconnected all_nodes;
        can_schedule = ltb 0 (count_nodes NodeState.idle all_nodes);
      },
    )

-- An answer, by its JSON text. The readiness answer has the same value, `up`, under its three keys.
pub data Answer : Type 0 where
  alive : Answer
  readiness : (status_code : ℕ) (up : Bool) → Answer
  cluster : ClusterStatus → Answer
  cluster_error : (status_code : ℕ) → Answer
  prometheus_text : Answer
  not_found : (status_code : ℕ) → Answer

-- ready_handler: `none` is a database that cannot be read.
unfoldable pub ready_handler : ℕ → Option Registry → Option Registry × Answer
unfolding get_all_nodes
ready_handler now none = (none, readiness 503 false)
ready_handler now (some r) = (some (get_all_nodes now r).0, readiness 200 true)

-- cluster_handler, with its error answer
unfoldable pub cluster_answer : ℕ → Option Registry → Option Registry × Answer
unfolding cluster_handler
cluster_answer now none = (none, cluster_error 500)
cluster_answer now (some r) = let (r', status) = cluster_handler now r in (some r', cluster status)

-- A GET request to the application of `create_health_app`.
unfoldable pub health_app : (now : ℕ) (path : String) → Option Registry → Option Registry × Answer
unfolding ready_handler cluster_answer
health_app now path db =
    let ready = ready_handler now db in
    let status = cluster_answer now db in
    if path == "/health"
    then (db, alive)
    else if path == "/ready"
    then ready
    else if path == "/cluster"
    then status
    else if path == "/metrics"
    then (db, prometheus_text)
    else (db, not_found 404)
