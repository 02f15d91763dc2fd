-- ===== src/Manager/Refinement/Scheduler.antt =====
-- dmlf/manager/schedulers/base.py: the changes that a round of the scheduler makes.
use distributed_ml_training.Base.{ℕ, ◌≡◌, refl, sym, ap, none, some, List, [], ◌∷◌, String}
use distributed_ml_training.Floats.{Floats}
use distributed_ml_training.Registry.JobState
use distributed_ml_training.Registry.Schema.{Registry, Node}
use distributed_ml_training.Registry.Nodes.{get_available_nodes}
use distributed_ml_training.Registry.Jobs.{JobDict, update_job, set_status}
use distributed_ml_training.Queue.{requeue_job}
use distributed_ml_training.Allocator.{NodeAllocator}
use distributed_ml_training.Manager.State.{Manager}
use distributed_ml_training.Manager.Dispatch.{node_ids}
use distributed_ml_training.Manager.Dispatch.Frame.{jobs-dispatch_allocated_job}
use distributed_ml_training.Manager.Pass.{select_nodes, place, scheduler_round}
use distributed_ml_training.Manager.Pass.Cases.{
  jobs-reserve, scheduler_round-empty, scheduler_round-cons,
}
use distributed_ml_training.Manager.Lifecycle.{
  JobView, view, started, Changes, here, same-Changes, one-Change,
}

-- A round of the scheduler: nothing, a job put back, or the head of the queue started.
place-Changes :
    (ids : ℕ → String) (now port : ℕ) (d : JobDict) (ns : List Node) (m : Manager) {v : JobView}
    → v ≡ record { rows = m.registry.jobs; queue = d ∷ m.queue }
    → Changes (view (place ids now port d ns m).0.jobs) v
unfolding place requeue_job
place-Changes ids now port d [] m e = same-Changes (sym e)
place-Changes ids now port d (n ∷ ns) m {v} e =
    rw (jobs-dispatch_allocated_job, jobs-reserve)
      (one-Change (
        started now d (node_ids (n ∷ ns)) (λ h. cc) (ap (λ (x : JobView). x.queue) e)
          (ap
            (λ (x : JobView).
              update_job d.job_id (set_status now JobState.running (some (node_ids (n ∷ ns))) none)
                x.rows)
            (sym e))))

jobs-select_nodes :
    (fl : Floats) (alloc : NodeAllocator fl) (now : ℕ) (d : JobDict) (r : Registry)
    → (select_nodes fl alloc now d r).0.jobs ≡ r.jobs
unfolding select_nodes get_available_nodes
jobs-select_nodes fl alloc now d r = refl

module _ (fl : Floats) (alloc : NodeAllocator fl) (ids : ℕ → String) (now port : ℕ)
    (m : Manager) where
  pub scheduler_round-Changes :
      Changes (view (scheduler_round fl alloc ids now port m).0.jobs) (view m.jobs)
  scheduler_round-Changes = go m.queue refl
    where
      go :
          (q : List JobDict)
          → m.queue ≡ q
          → Changes (view (scheduler_round fl alloc ids now port m).0.jobs) (view m.jobs)
      go [] e = rw (scheduler_round-empty fl alloc ids now port m e) here
      go (d ∷ rest) e =
          let rows = sym (jobs-select_nodes fl alloc now d m.registry) in
          rw (scheduler_round-cons fl alloc ids now port m d rest e) (
            place-Changes ids now port d (select_nodes fl alloc now d m.registry).1 _
              (λ i. record { rows = rows i; queue = e i }))
