-- ===== src/Manager/Pass/Older.antt =====
-- dmlf/manager/scheduler.py: the body of the loop of the older `Scheduler`, against the round of the
-- plug-ins.
use distributed_ml_training.Base.{ℕ, ◌≡◌, refl, sym, ◌∙◌, arith, String, none, some, List, [], ◌∷◌}
use distributed_ml_training.Floats.{Floats}
use distributed_ml_training.Registry.Schema.{Node}
use distributed_ml_training.Registry.Nodes.{get_available_nodes}
use distributed_ml_training.Registry.Jobs.{JobDict}
use distributed_ml_training.Queue.{pop_top_job, requeue_job}
use distributed_ml_training.Allocator.{NodeAllocator, allocate}
use distributed_ml_training.Manager.State.{Manager}
use distributed_ml_training.Manager.Rpcs.{with_registry}
use distributed_ml_training.Manager.Dispatch.{dispatch_allocated_job}
use distributed_ml_training.Manager.Pass.Cases.{scheduler_round-empty, scheduler_round-cons}
use distributed_ml_training.Manager.Pass.{
  reserve, no_job, requeued, dispatched, Outcome, place, select_nodes, scheduler_round,
}

-- The part after the allocation.
unfoldable pub older_place :
    (ids : ℕ → String) (now port : ℕ)
    → JobDict
    → (allocated : List Node) → Manager
    → Manager × Outcome
unfolding requeue_job reserve dispatch_allocated_job
older_place ids now port job [] m = (record m { jobs = requeue_job job m.jobs }, requeued)
older_place ids now port job (n ∷ ns) m = (
  (dispatch_allocated_job ids now port job (n ∷ ns) (with_registry (reserve (n ∷ ns)) m)).0,
  dispatched (n ∷ ns),
)

older_place-place :
    (ids : ℕ → String) (now port : ℕ) (job : JobDict) (allocated : List Node) (m : Manager)
    → older_place ids now port job allocated m ≡ place ids now port job allocated m
unfolding older_place place
older_place-place ids now port job [] m = refl
older_place-place ids now port job (n ∷ ns) m = refl

module _ (fl : Floats) (alloc : NodeAllocator fl) (ids : ℕ → String) (now port : ℕ) where
  unfoldable pub older_round : Manager → Manager × Outcome
  unfolding pop_top_job get_available_nodes allocate older_place
  older_round m =
      let (q, top) = pop_top_job m.jobs in
      elim top [
        | none ↦ (m, no_job)
        | some job ↦
            let (r, available_nodes) = get_available_nodes now q.registry in
            let allocated = allocate fl alloc available_nodes job.required_nodes in
            older_place ids now port job allocated (record m { jobs = record q { registry = r } })
      ]

  older_round-empty : (m : Manager) → m.queue ≡ [] → older_round m ≡ (m, no_job)
  unfolding older_round pop_top_job
  older_round-empty m e = ground arith

  older_round-cons :
      (m : Manager) (d : JobDict) (rest : List JobDict)
      → m.queue ≡ d ∷ rest
      → older_round m
        ≡ older_place ids now port d (select_nodes fl alloc now d m.registry).1 (record m {
          jobs = record { registry = (select_nodes fl alloc now d m.registry).0; queue = rest };
        })
  unfolding older_round pop_top_job select_nodes
  older_round-cons m d rest e = ground arith

  -- The round of the older scheduler is that of the builtin plug-in.
  pub older_round-scheduler_round :
      (m : Manager) → older_round m ≡ scheduler_round fl alloc ids now port m
  older_round-scheduler_round m = go m.queue refl
    where
      go :
          (q : List JobDict) → m.queue ≡ q → older_round m ≡ scheduler_round fl alloc ids now port m
      go [] e = older_round-empty m e ∙ sym (scheduler_round-empty fl alloc ids now port m e)
      go (d ∷ rest) e =
          older_round-cons m d rest e
          ∙ older_place-place ids now port d _ _
          ∙ sym (scheduler_round-cons fl alloc ids now port m d rest e)
