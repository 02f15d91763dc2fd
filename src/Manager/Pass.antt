-- ===== src/Manager/Pass.antt =====
-- dmlf/manager/schedulers/base.py and builtin.py: one round of `_scheduler_loop` with the node
-- choice of `PriorityBinPackScheduler`. dmlf/manager/scheduler.py has the same round.
--
-- The loop sleeps, stops if it is told to, and runs a round; `Threads` has its start and stop.
pub mod Cases
pub mod Placement
pub mod Progress
pub mod Older
use distributed_ml_training.Base.{ℕ, String, none, some, List, [], ◌∷◌}
use distributed_ml_training.Floats.{Floats}
use distributed_ml_training.Registry.NodeState
use distributed_ml_training.Registry.Schema.{Node, Registry}
use distributed_ml_training.Registry.Nodes.{get_available_nodes, update_node_state}
use distributed_ml_training.Registry.Jobs.{JobDict}
use distributed_ml_training.Queue.{pop_top_job, requeue_job}
use distributed_ml_training.Allocator.{NodeAllocator, allocate}
use distributed_ml_training.Manager.State.{Manager}
use distributed_ml_training.Manager.Dispatch.{dispatch_allocated_job}

-- for node in nodes: registry.update_node_state(node["node_id"], RESERVED)
unfoldable pub reserve : List Node → Registry → Registry
reserve [] r = r
reserve (n ∷ ns) r = reserve ns (update_node_state n.node_id NodeState.reserved r)

-- What a round did.
pub data Outcome : Type 0 where
  no_job requeued : Outcome
  dispatched : List Node → Outcome

-- The round after a job was popped, with the chosen nodes.
unfoldable pub place :
    (ids : ℕ → String) (now port : ℕ) → JobDict → List Node → Manager → Manager × Outcome
place ids now port job [] m = (record m { jobs = requeue_job job m.jobs }, requeued)
place ids now port job (n ∷ ns) m =
    let nodes = n ∷ ns in
    let reserved : Manager = record m {
      jobs = record m.jobs { registry = reserve nodes m.registry };
    } in
    ((dispatch_allocated_job ids now port job nodes reserved).0, dispatched nodes)

module _ (fl : Floats) (alloc : NodeAllocator fl) where
  -- PriorityBinPackScheduler._select_nodes
  unfoldable pub select_nodes : ℕ → JobDict → Registry → Registry × List Node
  select_nodes now job r =
      let (r', available) = get_available_nodes now r in
      (r', allocate fl alloc available job.required_nodes)

  unfoldable pub scheduler_round : (ids : ℕ → String) (now port : ℕ) → Manager → Manager × Outcome
  scheduler_round ids now port m =
      let (q, top) = pop_top_job m.jobs in
      elim top [
        | none ↦ (m, no_job)
        | some job ↦
            let (r, nodes) = select_nodes now job q.registry in
            place ids now port job nodes (record m { jobs = record q { registry = r } })
      ]
