-- ===== src/Manager/Steps/Goes/Scheduler.antt =====
-- dmlf/manager/schedulers/base.py: the accesses of the scheduler's thread and the jobs that wait.
use mathlib.Core.List.Perm
use mathlib.Core.List.{Perm}
use distributed_ml_training.Base.{
  ℕ, ◌≡◌, refl, sym, String, none, some, List, [], ◌∷◌, subst, arith,
}
use distributed_ml_training.Floats.{Floats}
use distributed_ml_training.Registry.Schema.{Job}
use distributed_ml_training.Registry.Nodes.{update_node_state, get_available_nodes}
use distributed_ml_training.Registry.Jobs.{JobDict, update_job_status}
use distributed_ml_training.Queue.{pop_top_job, requeue_job}
use distributed_ml_training.Allocator.{NodeAllocator}
use distributed_ml_training.Manager.State.{Manager, launch_job, write_log}
use distributed_ml_training.Manager.Dispatch.{node_ids, payload, log_allocation}
use distributed_ml_training.Manager.Dispatch.Frame.{jobs-send_command}
use distributed_ml_training.Manager.Pass.{select_nodes}
use distributed_ml_training.Manager.Lifecycle.{view}
use distributed_ml_training.Manager.Lifecycle.Pool.{moved, left, hold}
use distributed_ml_training.Manager.Steps.Scheduling.{
  SchedulerAt, popping, marking, selecting, placing, reserving, starting, counting, sending,
  scheduler_step, scheduler_holds,
}
use distributed_ml_training.Manager.Steps.Goes.{Goes, next_holds, NextKnows}

-- The thread needs to know nothing of the rows.
abbrev pub SchedulerKnows : List Job → SchedulerAt → Type 0
SchedulerKnows js t = Unit

module _ (fl : Floats) (alloc : NodeAllocator fl) (ids : ℕ → String) (now port : ℕ) where
  pub popping-empty :
      (m : Manager) → m.queue ≡ [] → scheduler_step fl alloc ids now port popping m ≡ (m, none)
  unfolding scheduler_step pop_top_job
  popping-empty m e = ground arith

  pub popping-cons :
      (m : Manager) (d : JobDict) (rest : List JobDict)
      → m.queue ≡ d ∷ rest
      → scheduler_step fl alloc ids now port popping m
        ≡ (record m { jobs = record m.jobs { queue = rest } }, some (marking d))
  unfolding scheduler_step pop_top_job
  popping-cons m d rest e = ground arith

  popping-Goes :
      (m : Manager) (q : List JobDict)
      → m.queue ≡ q
      → Goes scheduler_holds SchedulerKnows
          (view m.jobs)
          (scheduler_step fl alloc ids now port popping m)
  unfolding next_holds NextKnows scheduler_holds
  popping-Goes m [] e = rw (popping-empty m e) (moved refl (Perm.refl m.queue), tt)
  popping-Goes m (d ∷ rest) e = rw (popping-cons m d rest e) (
    moved refl (subst (λ (l : List JobDict). Perm (d ∷ rest) l) (sym e) (Perm.refl (d ∷ rest))),
    tt,
  )

  pub scheduler_step-Goes :
      (t : SchedulerAt) (m : Manager)
      → Goes scheduler_holds SchedulerKnows
          (hold (scheduler_holds t) (view m.jobs))
          (scheduler_step fl alloc ids now port t m)
  unfolding scheduler_step next_holds NextKnows scheduler_holds requeue_job select_nodes
      get_available_nodes update_node_state update_job_status log_allocation write_log
  scheduler_step-Goes popping m = popping-Goes m m.queue refl
  scheduler_step-Goes (marking d) m = (moved refl (Perm.refl (d ∷ m.queue)), tt)
  scheduler_step-Goes (selecting d) m = (moved refl (Perm.refl (d ∷ m.queue)), tt)
  scheduler_step-Goes (placing d []) m = (moved refl (Perm.refl (d ∷ m.queue)), tt)
  scheduler_step-Goes (placing d (n ∷ ns)) m = (moved refl (Perm.refl (d ∷ m.queue)), tt)
  scheduler_step-Goes (reserving d n ns []) m = (moved refl (Perm.refl (d ∷ m.queue)), tt)
  scheduler_step-Goes (reserving d n ns (x ∷ xs)) m = (moved refl (Perm.refl (d ∷ m.queue)), tt)
  scheduler_step-Goes (starting d n ns) m =
      (left now d (node_ids (n ∷ ns)) (λ h. cc) (Perm.refl (d ∷ m.queue)) refl, tt)
  scheduler_step-Goes (counting d n ns) m = (moved refl (Perm.refl m.queue), tt)
  scheduler_step-Goes (sending d master rank []) m = (moved refl (Perm.refl m.queue), tt)
  scheduler_step-Goes (sending d master rank (x ∷ xs)) m = (
    rw (jobs-send_command x.node_id (launch_job (ids rank) (payload d port master rank)) m)
        (moved refl (Perm.refl m.queue)),
    tt,
  )
