-- ===== src/Manager/Dispatch/Frame.antt =====
-- dmlf/manager/cluster_manager.py: what `dispatch_allocated_job` leaves alone.
use distributed_ml_training.Base.{ℕ, suc, ◌≡◌, refl, ◌∙◌, String, none, some, List, [], ◌∷◌, arith}
use distributed_ml_training.Registry.JobState
use distributed_ml_training.Registry.Schema.{Node}
use distributed_ml_training.Registry.Jobs.{JobDict, update_job, set_status, update_job_status}
use distributed_ml_training.Manager.State.{Manager, Command, launch_job, send_command, write_log}
use distributed_ml_training.Manager.Dispatch.{
  payload, send_all, node_ids, log_allocation, start_job, dispatch_allocated_job,
}

pub jobs-send_command :
    (id : String) (c : Command) (m : Manager) → (send_command id c m).jobs ≡ m.jobs
unfolding send_command
jobs-send_command id c m = ground arith

-- Sending commands changes neither the registry nor the queue.
pub jobs-send_all :
    (ids : ℕ → String) (job : JobDict) (port : ℕ) (master : String) (rank : ℕ) (ns : List Node)
    (m : Manager)
    → (send_all ids job port master rank ns m).jobs ≡ m.jobs
unfolding send_all
jobs-send_all ids job port master rank [] m = refl
jobs-send_all ids job port master rank (n ∷ ns) m =
    jobs-send_all ids job port master (suc rank) ns
      (send_command n.node_id (launch_job (ids rank) (payload job port master rank)) m)
    ∙ jobs-send_command n.node_id (launch_job (ids rank) (payload job port master rank)) m

-- A dispatch to some nodes sets the job's row to RUNNING on them, and leaves the queue.
pub jobs-dispatch_allocated_job :
    (ids : ℕ → String) (now port : ℕ) (job : JobDict) (n : Node) (ns : List Node) (m : Manager)
    → (dispatch_allocated_job ids now port job (n ∷ ns) m).0.jobs ≡ record m.jobs {
      registry = record m.registry {
        jobs =
            update_job job.job_id
              (set_status now JobState.running (some (node_ids (n ∷ ns))) none)
              m.registry.jobs;
      };
    }
unfolding dispatch_allocated_job start_job log_allocation update_job_status write_log
jobs-dispatch_allocated_job ids now port job n ns m =
    jobs-send_all ids job port n.ip_address 0 (n ∷ ns)
      (start_job now job (n ∷ ns) (log_allocation now job (n ∷ ns) m))
