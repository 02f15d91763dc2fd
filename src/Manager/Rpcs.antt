-- ===== src/Manager/Rpcs.antt =====
-- dmlf/manager/cluster_manager.py: the RPC handlers of `ClusterManagerServicer`.
--
-- A handler is one step. What it draws from outside (the time, `uuid4`, `token_urlsafe`) is an
-- argument; what it prints is left out.
pub mod Failures
pub mod Heartbeats
use distributed_ml_training.Base.{
  ℕ, ◌+◌, ◌-◌, ℤ, pos, sub_ℕ, int_scale, int_ltb, String, Option, none, some, Bool, true, false,
  ◌||◌, List, [], ◌∷◌, lookup, insert, ltb, if◌then◌else◌,
}
use distributed_ml_training.Text.{lower, same_text, strip}
use distributed_ml_training.Registry.NodeState
use distributed_ml_training.Registry.JobState
use distributed_ml_training.Registry.Schema.{Sample, Registry, Job}
use distributed_ml_training.Registry.Nodes.{register_node, update_heartbeat, update_node_state}
use distributed_ml_training.Registry.Jobs.{JobDict, dict_of_row, update_job_status, get_job}
use distributed_ml_training.Queue.{submit_job, retry_job}
use distributed_ml_training.Manager.State.{
  Manager, Command, sent, submitted, requeueing, gave_up, streamed, inc_jobs_queued,
  dec_jobs_running, observe_job_latency, inc_job_retries, write_log, manager_entry,
}

pub record RegistrationRequest : Type 0 where
  pub hostname : String
  pub ip_address : String
  pub cpu_count : ℤ
  pub gpu_model : String
  pub ram_total : String

pub record RegistrationResponse : Type 0 where
  pub success : Bool
  pub node_id : String
  pub node_secret : String

abbrev pub with_registry : (Registry → Registry) → Manager → Manager
with_registry f m = record m { jobs = record m.jobs { registry = f m.registry } }

unfoldable pub register_node_rpc :
    (now : ℕ) (node_id node_secret : String)
    → RegistrationRequest
    → Manager
    → Manager × RegistrationResponse
register_node_rpc now id secret q m =
    let (r, success) =
      register_node now id q.hostname q.ip_address q.cpu_count q.gpu_model q.ram_total (some secret)
        m.registry in
    (
      record m {
        jobs = record m.jobs { registry = r };
        command_queues = insert id [] m.command_queues;
      },
      record { success = success; node_id = id; node_secret = secret },
    )

pub record HeartbeatRequest : Type 0 where
  pub node_id : String
  pub sample : Sample
  pub current_status : String
  pub send_timestamp : ℕ

-- (current_time - send_timestamp) * 1000 if send_timestamp > 0 else 0.0
unfoldable pub latency_ms : (now start : ℕ) → ℤ
latency_ms now start = if ltb 0 start then int_scale (sub_ℕ now start) 1000 else pos 0

unfoldable pub send_heartbeat : ℕ → HeartbeatRequest → Manager → Manager
send_heartbeat now q m =
    with_registry
      (update_heartbeat now q.node_id q.current_status q.sample (latency_ms now q.send_timestamp)) m

-- The start of `ListenForCommands`: a queue for a node that has none.
unfoldable pub open_stream : String → Manager → Manager
open_stream id m = elim (lookup id m.command_queues) [
  | none ↦ record m { command_queues = insert id [] m.command_queues }
  | some q ↦ m
]

-- One round of its loop, `q.get(timeout=2.0)`: `none` is the timeout.
unfoldable pub next_command : String → Manager → Manager × Option Command
next_command id m = elim (lookup id m.command_queues) [
  | some (c ∷ cs) ↦ (record m { command_queues = insert id cs m.command_queues }, some c)
  | _ ↦ (m, none)
]

pub record JobStatusRequest : Type 0 where
  pub node_id : String
  pub job_id : String
  pub status : String

pub data Report : Type 0 where
  failure completion other : Report

-- The tests of `ReportJobStatus` on the status text.
unfoldable pub classify : String → Report
classify s =
    if same_text (lower s) (lower "failed") || same_text (lower s) (lower "error")
    then failure
    else if same_text (lower s) (lower "completed")
    then completion
    else other

-- A failure of a job that the registry knows: retry, or give up.
unfoldable pub report_failure : ℕ → JobStatusRequest → Job → Manager → Manager
report_failure now q job m =
    if int_ltb (pos job.retries) job.max_retries
    then (let m₁ =
          write_log
            (manager_entry now q.job_id "WARNING" (requeueing (job.retries + 1) job.max_retries))
            m in
        let m₂ = with_registry (update_node_state q.node_id NodeState.idle) m₁ in
        record m₂ {
          jobs = retry_job (dict_of_row job) m₂.jobs;
          gauges = inc_job_retries m₂.gauges;
        })
    else (let m₁ = write_log (manager_entry now q.job_id "ERROR" (gave_up job.max_retries)) m in
        with_registry
          (λ r.
            update_node_state q.node_id NodeState.idle
              (update_job_status now q.job_id JobState.failed none (some (pos 1)) r))
          m₁)

-- The latency is observed if the job's dict has `_submit_ts`.
unfoldable pub observe_completion : ℕ → Option JobDict → Manager → Manager
observe_completion now none m = m
observe_completion now (some d) m = elim d.submit_ts [
  | none ↦ m
  | some t ↦ record m { gauges = observe_job_latency (now - t) m.gauges }
]

unfoldable pub report_completion : ℕ → JobStatusRequest → Manager → Manager
report_completion now q m =
    let m₁ =
      with_registry
        (λ r.
          update_node_state q.node_id NodeState.idle
            (update_job_status now q.job_id JobState.completed none (some (pos 0)) r))
        m in
    let m₂ : Manager = record m₁ { gauges = dec_jobs_running m₁.gauges } in
    observe_completion now
      (elim (get_job q.job_id m₂.registry) [ none ↦ none | some j ↦ some (dict_of_row j) ]) m₂

unfoldable pub report_job_status : ℕ → JobStatusRequest → Manager → Manager
report_job_status now q m = elim (classify q.status) [
  | failure ↦ elim (get_job q.job_id m.registry) [ none ↦ m | some j ↦ report_failure now q j m ]
  | completion ↦ report_completion now q m
  | other ↦ m
]

-- message LogMessage
pub record LogMessage : Type 0 where
  pub timestamp : String
  pub node_id : String
  pub job_id : String
  pub level : String
  pub message : String

-- `StreamLogs`: every message is written in the order in which it comes, its text stripped.
unfoldable pub stream_logs : List LogMessage → Manager → Manager
stream_logs [] m = m
stream_logs (e ∷ es) m = stream_logs es (
    write_log
      (record {
        timestamp = sent e.timestamp;
        node = e.node_id;
        job = e.job_id;
        level = e.level;
        message = streamed (strip e.message);
      })
      m)

pub record JobSubmitRequest : Type 0 where
  pub script_path : String
  pub nnodes : ℤ
  pub nproc_per_node : ℤ
  pub args : String
  pub max_retries : ℤ
  pub checkpoint_interval_minutes : ℤ
  pub backend : String

-- The dict that `SubmitJob` builds. Its status is set by `JobQueue.submit_job`.
unfoldable pub job_data : String → JobSubmitRequest → JobDict
job_data id q = record {
  job_id = id;
  status = "";
  script_path = q.script_path;
  required_nodes = q.nnodes;
  nproc_per_node = q.nproc_per_node;
  args = q.args;
  max_retries = q.max_retries;
  checkpoint_interval_minutes = q.checkpoint_interval_minutes;
  backend = q.backend;
  job_name = none;
  config_path = none;
  assigned_nodes = none;
  priority = none;
  created_at = none;
  experiment_id = none;
  retries = none;
  submit_ts = none;
}

-- `false`: the insertion raised because the drawn identifier is taken. The log line stays.
unfoldable pub submit_job_rpc :
    (now : ℕ) (job_id : String) → JobSubmitRequest → Manager → Manager × Bool
submit_job_rpc now id q m =
    let m₁ = write_log (manager_entry now id "INFO" (submitted q.nnodes)) m in
    elim (submit_job now (job_data id q) m₁.jobs) [
      | none ↦ (m₁, false)
      | some jobs ↦ (record m₁ { jobs = jobs; gauges = inc_jobs_queued m₁.gauges }, true)
    ]
