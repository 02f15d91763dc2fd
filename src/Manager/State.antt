-- ===== src/Manager/State.antt =====
-- dmlf/manager/cluster_manager.py: the state of `ClusterManagerServicer`, and the metrics of
-- dmlf/monitoring/prometheus.py that the manager keeps.
use distributed_ml_training.Base.{
  ℕ, ◌+◌, ℤ, pos, ◌+ℤ◌, ◌-ℤ◌, String, none, some, List, [], ◌∷◌, ◌++◌, lookup, insert,
}
use distributed_ml_training.Registry.Schema.{init_db}
use distributed_ml_training.Queue.{JobQueue}

-- message JobPayload
pub record JobPayload : Type 0 where
  pub job_id : String
  pub nnodes : ℤ
  pub node_rank : ℕ
  pub master_addr : String
  pub master_port : ℕ
  pub nproc_per_node : ℤ
  pub script_path : String
  pub args : String
  pub max_retries : ℤ
  pub checkpoint_interval_minutes : ℤ
  pub backend : String

-- message Command, by its type. The manager never sends STOP_JOB or UNKNOWN.
pub data Command : Type 0 where
  launch_job : (command_id : String) → JobPayload → Command
  stop_job : (command_id : String) → Command

-- The texts of the log, with the values that are put into them.
pub data LogText : Type 0 where
  submitted : (nnodes : ℤ) → LogText
  allocated : (count : ℕ) → LogText
  requeueing crashed : (attempt : ℕ) (max_retries : ℤ) → LogText
  gave_up : (max_retries : ℤ) → LogText
  streamed : String → LogText

-- The manager formats its own time, and passes on the text that an agent sends.
pub data Timestamp : Type 0 where
  clock : ℕ → Timestamp
  sent : String → Timestamp

-- A line of cluster.log.
pub record LogEntry : Type 0 where
  pub timestamp : Timestamp
  pub node : String
  pub job : String
  pub level : String
  pub message : LogText

-- The gauges and counters of dmlf/monitoring/prometheus.py that the manager writes. A gauge may
-- fall below zero. `job_latency` holds the observations, the newest first.
pub record Gauges : Type 0 where
  pub jobs_queued : ℤ
  pub jobs_running : ℤ
  pub job_latency : List ℕ
  pub job_retries : ℕ
  pub nodes_idle : ℕ
  pub nodes_busy : ℕ
  pub nodes_offline : ℕ

pub record Manager : Type 0 where
  pub jobs : JobQueue
  pub open jobs use *
  pub command_queues : List (String × List Command)
  pub log_file : List LogEntry
  pub gauges : Gauges
  pub open gauges use *

-- A manager on a new database.
abbrev pub new_manager : Manager
new_manager = record {
  jobs = record { registry = init_db; queue = [] };
  command_queues = [];
  log_file = [];
  gauges = record {
    jobs_queued = pos 0;
    jobs_running = pos 0;
    job_latency = [];
    job_retries = 0;
    nodes_idle = 0;
    nodes_busy = 0;
    nodes_offline = 0;
  };
}

unfoldable pub inc_jobs_queued : Gauges → Gauges
unfolding ◌+ℤ◌
inc_jobs_queued g = record g { jobs_queued = g.jobs_queued +ℤ pos 1 }

unfoldable pub dec_jobs_queued : Gauges → Gauges
unfolding ◌-ℤ◌
dec_jobs_queued g = record g { jobs_queued = g.jobs_queued -ℤ pos 1 }

unfoldable pub inc_jobs_running : Gauges → Gauges
unfolding ◌+ℤ◌
inc_jobs_running g = record g { jobs_running = g.jobs_running +ℤ pos 1 }

unfoldable pub dec_jobs_running : Gauges → Gauges
unfolding ◌-ℤ◌
dec_jobs_running g = record g { jobs_running = g.jobs_running -ℤ pos 1 }

unfoldable pub observe_job_latency : ℕ → Gauges → Gauges
observe_job_latency t g = record g { job_latency = t ∷ g.job_latency }

unfoldable pub inc_job_retries : Gauges → Gauges
inc_job_retries g = record g { job_retries = g.job_retries + 1 }

-- set_nodes_idle, set_nodes_busy and set_nodes_offline, which are called together.
unfoldable pub set_node_counts : (idle busy offline : ℕ) → Gauges → Gauges
set_node_counts idle busy offline g = record g {
  nodes_idle = idle;
  nodes_busy = busy;
  nodes_offline = offline;
}

-- self.log_file.write(…)
unfoldable pub write_log : LogEntry → Manager → Manager
write_log e m = record m { log_file = m.log_file ++ e ∷ [] }

-- A log entry of the manager itself.
abbrev pub manager_entry : ℕ → String → String → LogText → LogEntry
manager_entry now job level text = record {
  timestamp = clock now;
  node = "Manager";
  job = job;
  level = level;
  message = text;
}

unfoldable pub send_command : String → Command → Manager → Manager
unfolding lookup insert
send_command node_id command m = elim (lookup node_id m.command_queues) [
  | none ↦ m
  | some q ↦ record m { command_queues = insert node_id (q ++ command ∷ []) m.command_queues }
]
