-- ===== src/Registry/Schema.antt =====
-- dmlf/manager/node_registry.py: the tables of `_init_db`.
use distributed_ml_training.Base.{ℕ, ℤ, String, Option, List, []}

-- A row of the table `nodes`.
pub record Node : Type 0 where
  pub node_id : String
  pub hostname : String
  pub ip_address : String
  pub cpu_count : ℤ
  pub gpu_model : String
  pub ram_total : String
  pub status : String
  pub last_heartbeat : ℕ
  pub node_secret : Option String

-- What a heartbeat measures, in millionths of the unit that the column is named after.
pub record Sample : Type 0 where
  pub cpu_percent : ℤ
  pub ram_percent : ℤ
  pub gpu_utilization : ℤ
  pub gpu_memory_mb : ℤ

-- A row of the table `metrics`. Its autoincremented `id` is its position.
pub record Metric : Type 0 where
  pub node_id : String
  pub timestamp : ℕ
  pub sample : Sample
  pub heartbeat_latency_ms : ℤ

-- A row of the table `jobs`. A column that may be NULL is an option. `assigned_nodes` holds the
-- list that its JSON text encodes.
pub record Job : Type 0 where
  pub job_id : String
  pub job_name : String
  pub status : String
  pub script_path : String
  pub config_path : String
  pub required_nodes : ℤ
  pub assigned_nodes : List String
  pub priority : ℤ
  pub created_at : ℕ
  pub started_at : Option ℕ
  pub completed_at : Option ℕ
  pub exit_code : Option ℤ
  pub experiment_id : String
  pub nproc_per_node : ℤ
  pub args : String
  pub retries : ℕ
  pub max_retries : ℤ
  pub checkpoint_interval_minutes : ℤ
  pub backend : String

-- The database of a NodeRegistry.
pub record Registry : Type 0 where
  pub nodes : List Node
  pub metrics : List Metric
  pub jobs : List Job

-- `_init_db` on a new file.
abbrev pub init_db : Registry
init_db = record { nodes = []; metrics = []; jobs = [] }
