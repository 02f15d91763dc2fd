-- ===== src/Manager/Pass/Cases.antt =====
-- dmlf/manager/schedulers/base.py: the three ways in which a round of the scheduler ends.
use distributed_ml_training.Base.{ℕ, ◌≡◌, refl, String, List, [], ◌∷◌, arith}
use distributed_ml_training.Floats.{Floats}
use distributed_ml_training.Registry.NodeState
use distributed_ml_training.Registry.Schema.{Node, Registry}
use distributed_ml_training.Registry.Nodes.{update_node_state}
use distributed_ml_training.Registry.Jobs.{JobDict}
use distributed_ml_training.Queue.{pop_top_job}
use distributed_ml_training.Allocator.{NodeAllocator}
use distributed_ml_training.Manager.State.{Manager}
use distributed_ml_training.Manager.Pass.{reserve, no_job, select_nodes, place, scheduler_round}

pub jobs-reserve : (ns : List Node) (r : Registry) → (reserve ns r).jobs ≡ r.jobs
unfolding reserve update_node_state
jobs-reserve [] r = refl
jobs-reserve (n ∷ ns) r = jobs-reserve ns (update_node_state n.node_id NodeState.reserved r)

module _ (fl : Floats) (alloc : NodeAllocator fl) (ids : ℕ → String) (now port : ℕ)
    (m : Manager) where
  -- With an empty queue nothing happens.
  pub scheduler_round-empty : m.queue ≡ [] → scheduler_round fl alloc ids now port m ≡ (m, no_job)
  unfolding scheduler_round pop_top_job
  scheduler_round-empty e = ground arith

  -- Otherwise the head of the queue is placed on the nodes that are chosen for it.
  pub scheduler_round-cons :
      (d : JobDict) (rest : List JobDict)
      → m.queue ≡ d ∷ rest
      → scheduler_round fl alloc ids now port m
        ≡ place ids now port d (select_nodes fl alloc now d m.registry).1 (record m {
          jobs = record { registry = (select_nodes fl alloc now d m.registry).0; queue = rest };
        })
  unfolding scheduler_round pop_top_job
  scheduler_round-cons d rest e = ground arith
