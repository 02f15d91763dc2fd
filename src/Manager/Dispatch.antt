-- ===== src/Manager/Dispatch.antt =====
-- dmlf/manager/cluster_manager.py: `dispatch_allocated_job`.
pub mod Frame
pub mod Delivery
use distributed_ml_training.Base.{
  ℕ, suc, String, none, some, Bool, true, false, List, [], ◌∷◌, map, length,
}
use distributed_ml_training.Registry.JobState
use distributed_ml_training.Registry.Schema.{Node}
use distributed_ml_training.Registry.Jobs.{JobDict, update_job_status}
use distributed_ml_training.Manager.State.{
  Manager, launch_job, JobPayload, allocated, dec_jobs_queued, inc_jobs_running, write_log,
  manager_entry, send_command,
}

-- The payload for the node at one rank. All the optional keys of `job` are set where it comes from,
-- so the defaults of `job.get(…)` are never taken.
unfoldable pub payload : JobDict → (port : ℕ) (master : String) (rank : ℕ) → JobPayload
payload job port master rank = record {
  job_id = job.job_id;
  nnodes = job.required_nodes;
  node_rank = rank;
  master_addr = master;
  master_port = port;
  nproc_per_node = job.nproc_per_node;
  script_path = job.script_path;
  args = job.args;
  max_retries = job.max_retries;
  checkpoint_interval_minutes = job.checkpoint_interval_minutes;
  backend = job.backend;
}

-- `for rank, node in enumerate(nodes)`. `ids` gives the identifiers that `uuid4` draws.
unfoldable pub send_all :
    (ids : ℕ → String) (job : JobDict) (port : ℕ) (master : String) (rank : ℕ)
    → List Node
    → Manager
    → Manager
send_all ids job port master rank [] m = m
send_all ids job port master rank (n ∷ ns) m =
    let command = launch_job (ids rank) (payload job port master rank) in
    send_all ids job port master (suc rank) ns (send_command n.node_id command m)

abbrev pub node_ids : List Node → List String
node_ids ns = map (λ n. n.node_id) ns

-- The part before `nodes[0]` is read.
unfoldable pub log_allocation : ℕ → JobDict → List Node → Manager → Manager
log_allocation now job nodes m =
    write_log (manager_entry now job.job_id "INFO" (allocated (length nodes))) m

-- The registry and the gauges.
unfoldable pub start_job : ℕ → JobDict → List Node → Manager → Manager
start_job now job nodes m = record m {
  jobs = record m.jobs {
    registry =
        update_job_status now job.job_id JobState.running (some (node_ids nodes)) none m.registry;
  };
  gauges = inc_jobs_running (dec_jobs_queued m.gauges);
}

-- On no node `nodes[0]` raises IndexError: `false`, with what was written before it. The start time
-- is also stored in the dict `job`, which the queue has given up and nothing reads again.
unfoldable pub dispatch_allocated_job :
    (ids : ℕ → String) (now port : ℕ) → JobDict → List Node → Manager → Manager × Bool
dispatch_allocated_job ids now port job [] m = (log_allocation now job [] m, false)
dispatch_allocated_job ids now port job (n ∷ ns) m =
    let nodes = n ∷ ns in
    let started = start_job now job nodes (log_allocation now job nodes m) in
    (send_all ids job port n.ip_address 0 nodes started, true)
