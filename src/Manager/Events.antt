-- ===== src/Manager/Events.antt =====
-- The manager as a system of steps: the handlers, the scheduler, the monitor and the readers of
-- the registry run in threads, and a run is any sequence of their steps.
--
-- Each handler is one step here. `Interleave` has the threads that interleave inside a handler,
-- between its accesses of the registry and of the queue.
use distributed_ml_training.Base.{ℕ, String, List, [], ◌∷◌}
use distributed_ml_training.Floats.{Floats}
use distributed_ml_training.Registry.Nodes.{get_all_nodes}
use distributed_ml_training.Queue.{recover_pending_jobs}
use distributed_ml_training.Allocator.{NodeAllocator}
use distributed_ml_training.Manager.State.{Manager, new_manager}
use distributed_ml_training.Manager.Rpcs.{
  RegistrationRequest, HeartbeatRequest, JobStatusRequest, JobSubmitRequest, LogMessage,
  register_node_rpc, send_heartbeat, open_stream, next_command, report_job_status, stream_logs,
  submit_job_rpc,
}
use distributed_ml_training.Manager.Pass.{scheduler_round}
use distributed_ml_training.Manager.Monitor.{monitor_round}

pub data Event : Type 0 where
  register : (node_id node_secret : String) → RegistrationRequest → Event
  heartbeat : HeartbeatRequest → Event
  listen poll : (node_id : String) → Event
  report : JobStatusRequest → Event
  logs : List LogMessage → Event
  submit : (job_id : String) → JobSubmitRequest → Event
  schedule : (ids : ℕ → String) → Event
  monitor : Event
  -- /cluster, /ready and the autoscaler read the nodes, which marks the silent ones.
  read_nodes : Event
  -- The process ends, and `serve` starts again on the same database.
  restart : Event

-- The settings that the steps read.
pub record Config (fl : Floats) : Type 0 where
  pub alloc : NodeAllocator fl
  pub master_port : ℕ
  pub monitor_timeout : ℕ

module _ (fl : Floats) (cfg : Config fl) where
  unfoldable pub step : ℕ → Event → Manager → Manager
  step now (register id secret q) m = (register_node_rpc now id secret q m).0
  step now (heartbeat q) m = send_heartbeat now q m
  step now (listen id) m = open_stream id m
  step now (poll id) m = (next_command id m).0
  step now (report q) m = report_job_status now q m
  step now (logs es) m = stream_logs es m
  step now (submit id q) m = (submit_job_rpc now id q m).0
  step now (schedule ids) m = (scheduler_round fl cfg.alloc ids now cfg.master_port m).0
  step now monitor m = monitor_round now cfg.monitor_timeout m
  step now read_nodes m = record m {
    jobs = record m.jobs { registry = (get_all_nodes now m.registry).0 };
  }
  step now restart m = record new_manager {
    jobs = recover_pending_jobs m.registry;
    log_file = m.log_file;
  }

  -- A run, with the time of each step.
  unfoldable pub run : List (ℕ × Event) → Manager → Manager
  run [] m = m
  run ((now, e) ∷ es) m = run es (step now e m)
