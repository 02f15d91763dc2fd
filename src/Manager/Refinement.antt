-- ===== src/Manager/Refinement.antt =====
-- The steps of `Manager.Events` and the changes of `Manager.Lifecycle`: dmlf/manager/cluster_manager.py
-- against its specification.
pub mod Rpcs
mod Scheduler
mod Monitor
pub mod Latency
pub mod Crash
use distributed_ml_training.Base.{
  ℕ, ◌≡◌, ◌≤◌, ◌≢◌, refl, sym, String, none, some, List, [], ◌∷◌, Distinct, pos_part, arith,
}
use mathlib.Core.List.{Mem, not-mem-nil}
use distributed_ml_training.Floats.{Floats}
use distributed_ml_training.Registry.JobState
use distributed_ml_training.Registry.Schema.{Job}
use distributed_ml_training.Registry.Nodes.{get_all_nodes}
use distributed_ml_training.Registry.Jobs.{JobDict, find_job, get_job, get_jobs}
use distributed_ml_training.Registry.Rows.{job_ids}
use distributed_ml_training.Queue.{recover_pending_jobs}
use distributed_ml_training.Manager.State.{Manager, new_manager}
use distributed_ml_training.Manager.Events.{
  Event, register, heartbeat, listen, poll, report, logs, submit, schedule, monitor, read_nodes,
  restart, Config, step, run,
}
use distributed_ml_training.Manager.Lifecycle.{
  view, restarted, Changes, here, same-Changes, one-Change,
}
use distributed_ml_training.Manager.Lifecycle.Pool.{Changes-Flows}
use distributed_ml_training.Manager.Lifecycle.Durable.{queue_ids}
use distributed_ml_training.Manager.Lifecycle.Sound.{IsSound, Flows-IsSound}
use distributed_ml_training.Manager.Refinement.Rpcs.{
  view-register_node_rpc, view-send_heartbeat, view-open_stream, view-next_command,
  view-stream_logs, submit_job_rpc-Changes, report_job_status-Changes,
}
use distributed_ml_training.Manager.Refinement.Scheduler.{scheduler_round-Changes}
use distributed_ml_training.Manager.Refinement.Monitor.{monitor_round-Changes}

module _ (fl : Floats) (cfg : Config fl) where
  -- From a table with distinct keys, every step of the manager is a sequence of changes: a job is
  -- submitted, retried within its limit, ended, started from the head of the queue, or the queue
  -- is rebuilt from the PENDING rows; nothing else happens to the rows and the queue.
  pub step-Changes :
      (now : ℕ) (e : Event) (m : Manager)
      → Distinct (job_ids m.registry.jobs)
      → Changes (view (step fl cfg now e m).jobs) (view m.jobs)
  unfolding step get_all_nodes recover_pending_jobs get_jobs
  step-Changes now (register id secret q) m d =
      same-Changes (view-register_node_rpc now id secret q m)
  step-Changes now (heartbeat q) m d = same-Changes (view-send_heartbeat now q m)
  step-Changes now (listen id) m d = same-Changes (view-open_stream id m)
  step-Changes now (poll id) m d = same-Changes (view-next_command id m)
  step-Changes now (report q) m d = report_job_status-Changes now q m
  step-Changes now (logs es) m d = same-Changes (view-stream_logs es m)
  step-Changes now (submit id q) m d = submit_job_rpc-Changes now id q m
  step-Changes now (schedule ids) m d =
      scheduler_round-Changes fl cfg.alloc ids now cfg.master_port m
  step-Changes now monitor m d = monitor_round-Changes now cfg.monitor_timeout m d
  step-Changes now read_nodes m d = here
  step-Changes now restart m d = one-Change (restarted refl refl)

-- The empty database is sound.
pub new_manager-IsSound : IsSound (view new_manager.jobs)
unfolding find_job
new_manager-IsSound = record {
  distinct = tt;
  bounded = λ k j h. cc;
  durable = record {
    pending_queued = λ k j h p. cc;
    queued_stored = λ d m. absurd (not-mem-nil m);
  };
}

module _ (fl : Floats) (cfg : Config fl) where
  run-IsSound :
      (es : List (ℕ × Event)) (m : Manager)
      → IsSound (view m.jobs)
      → IsSound (view (run fl cfg es m).jobs)
  unfolding run
  run-IsSound [] m s = s
  run-IsSound ((now, e) ∷ es) m s =
      run-IsSound es (step fl cfg now e m)
        (Flows-IsSound (Changes-Flows (step-Changes fl cfg now e m s.distinct)) s)

  -- After any sequence of steps from an empty database, restarts included, a job whose row is
  -- PENDING is in the queue: no job that waits is lost.
  pub run-pending_queued :
      (es : List (ℕ × Event)) (k : String) (j : Job)
      → get_job k (run fl cfg es new_manager).registry ≡ some j
      → j.status ≡ JobState.pending
      → Mem k (queue_ids (run fl cfg es new_manager).queue)
  unfolding get_job
  run-pending_queued es = (run-IsSound es new_manager new_manager-IsSound).durable.pending_queued

  -- After any sequence of steps from an empty database, restarts included, a queued job has a row
  -- in the database.
  pub run-queued_stored :
      (es : List (ℕ × Event)) (d : JobDict)
      → Mem d (run fl cfg es new_manager).queue
      → get_job d.job_id (run fl cfg es new_manager).registry ≢ none
  unfolding get_job
  run-queued_stored es = (run-IsSound es new_manager new_manager-IsSound).durable.queued_stored

  -- After any sequence of steps from an empty database, no job was retried more often than its
  -- limit allows (never, where that is negative).
  pub run-retries_bounded :
      (es : List (ℕ × Event)) (k : String) (j : Job)
      → get_job k (run fl cfg es new_manager).registry ≡ some j
      → j.retries ≤ pos_part j.max_retries
  unfolding get_job
  run-retries_bounded es = (run-IsSound es new_manager new_manager-IsSound).bounded
