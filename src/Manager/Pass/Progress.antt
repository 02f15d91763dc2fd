-- ===== src/Manager/Pass/Progress.antt =====
-- dmlf/manager/schedulers/base.py: when a round of the scheduler starts a job, and when it waits.
use distributed_ml_training.Base.{
  ℕ, suc, ◌≡◌, ◌≤◌, ◌<◌, refl, sym, ap, ◌∙◌, String, pos, List, [], ◌∷◌, length, arith,
}
use distributed_ml_training.Floats.{Floats}
use distributed_ml_training.Registry.Schema.{Node}
use distributed_ml_training.Registry.Nodes.{get_available_nodes}
use distributed_ml_training.Registry.Jobs.{JobDict}
use distributed_ml_training.Queue.{requeue_job}
use distributed_ml_training.Allocator.{NodeAllocator, allocate}
use distributed_ml_training.Allocator.Best.{length-allocate}
use distributed_ml_training.Manager.State.{Manager}
use distributed_ml_training.Manager.Pass.{
  Outcome, requeued, dispatched, select_nodes, place, scheduler_round,
}
use distributed_ml_training.Manager.Pass.Cases.{scheduler_round-cons}

-- With nodes to run on, a job is dispatched to them.
place-some :
    (ids : ℕ → String) (now port : ℕ) (d : JobDict) (nodes : List Node) (k : ℕ) (m : Manager)
    → length nodes ≡ suc k
    → (place ids now port d nodes m).1 ≡ dispatched nodes
unfolding place
place-some ids now port d [] k m h = ground (arith, h)
place-some ids now port d (n ∷ ns) k m h = refl

place-none :
    (ids : ℕ → String) (now port : ℕ) (d : JobDict) (nodes : List Node) (m : Manager)
    → length nodes ≡ 0
    → place ids now port d nodes m ≡ (record m { jobs = requeue_job d m.jobs }, requeued)
unfolding place
place-none ids now port d [] m h = refl
place-none ids now port d (n ∷ ns) m h = ground (arith, h)

module _ (fl : Floats) (alloc : NodeAllocator fl) (ids : ℕ → String) (now port : ℕ) (m : Manager)
    (d : JobDict) (rest : List JobDict) where
  -- The nodes that the scheduler may choose from.
  abbrev available : List Node
  available = (get_available_nodes now m.registry).1

  -- If the job at the head of the queue asks for at least one node and so many are available, the
  -- round dispatches it to exactly so many.
  pub scheduler_round-dispatched :
      (k : ℕ)
      → m.queue ≡ d ∷ rest
      → d.required_nodes ≡ pos (suc k)
      → suc k ≤ length (get_available_nodes now m.registry).1
      → (ns : List Node) × ((scheduler_round fl alloc ids now port m).1 ≡ dispatched ns)
        × (length ns ≡ suc k)
  unfolding select_nodes
  scheduler_round-dispatched k e asks enough =
      let ns = allocate fl alloc available d.required_nodes in
      let count : length ns ≡ suc k =
        rw asks (ground (arith, length-allocate fl alloc available (pos (suc k)))) in
      (
        ns,
        ap (λ (p : Manager × Outcome). p.1) (scheduler_round-cons fl alloc ids now port m d rest e)
            ∙ place-some ids now port d ns k _ count,
        count,
      )

  -- If fewer are available, the round leaves the queue and the job rows as they are.
  pub scheduler_round-requeued :
      (k : ℕ)
      → m.queue ≡ d ∷ rest
      → d.required_nodes ≡ pos k
      → length (get_available_nodes now m.registry).1 < k
      → ((scheduler_round fl alloc ids now port m).1 ≡ requeued)
        × ((scheduler_round fl alloc ids now port m).0.queue ≡ m.queue)
        × ((scheduler_round fl alloc ids now port m).0.registry.jobs ≡ m.registry.jobs)
  unfolding select_nodes requeue_job get_available_nodes
  scheduler_round-requeued k e asks few =
      let count : length (allocate fl alloc available d.required_nodes) ≡ 0 =
        rw asks (ground (arith, length-allocate fl alloc available (pos k))) in
      let round =
        scheduler_round-cons fl alloc ids now port m d rest e
        ∙ place-none ids now port d _ _ count in
      (
        ap (λ (p : Manager × Outcome). p.1) round,
        ap (λ (p : Manager × Outcome). p.0.queue) round ∙ sym e,
        ap (λ (p : Manager × Outcome). p.0.registry.jobs) round,
      )
