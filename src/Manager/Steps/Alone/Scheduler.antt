-- ===== src/Manager/Steps/Alone/Scheduler.antt =====
-- dmlf/manager/schedulers/base.py: the accesses of a round one after the other are the round.
use distributed_ml_training.Base.{ℕ, suc, ◌≡◌, refl, String, none, some, List, [], ◌∷◌}
use distributed_ml_training.Floats.{Floats}
use distributed_ml_training.Registry.NodeState
use distributed_ml_training.Registry.Schema.{Node}
use distributed_ml_training.Registry.Nodes.{
  get_available_nodes, mark_offline_nodes, update_node_state,
}
use distributed_ml_training.Registry.Jobs.{JobDict}
use distributed_ml_training.Allocator.{NodeAllocator}
use distributed_ml_training.Manager.State.{Manager, launch_job, send_command}
use distributed_ml_training.Manager.Dispatch.{payload, send_all, dispatch_allocated_job, start_job}
use distributed_ml_training.Manager.Rpcs.{with_registry}
use distributed_ml_training.Manager.Pass.{reserve, place, select_nodes, scheduler_round}
use distributed_ml_training.Manager.Pass.Cases.{scheduler_round-empty, scheduler_round-cons}
use distributed_ml_training.Manager.Steps.Scheduling.{
  SchedulerAt, popping, marking, placing, reserving, sending, scheduler_step,
}
use distributed_ml_training.Manager.Steps.Goes.Scheduler.{popping-empty, popping-cons}
use distributed_ml_training.Manager.Steps.Alone.{Runs, over, go, go_as}

module _ (fl : Floats) (alloc : NodeAllocator fl) (ids : ℕ → String) (now port : ℕ) where
  abbrev Round : Manager → SchedulerAt → Manager → Type 0
  Round last t m = Runs (scheduler_step fl alloc ids now port) last (some t) m

  pub sending-Runs :
      (d : JobDict) (master : String) (rank : ℕ) (left : List Node) (m : Manager)
      → Round (send_all ids d port master rank left m) (sending d master rank left) m
  unfolding scheduler_step send_all
  sending-Runs d master rank [] m = go over
  sending-Runs d master rank (x ∷ xs) m = go (
      sending-Runs d master (suc rank) xs
        (send_command x.node_id (launch_job (ids rank) (payload d port master rank)) m))

  pub reserving-Runs :
      (d : JobDict) (n : Node) (ns left : List Node) (m : Manager)
      → Round
          (dispatch_allocated_job ids now port d (n ∷ ns) (with_registry (reserve left) m)).0
          (reserving d n ns left)
          m
  unfolding scheduler_step dispatch_allocated_job start_job reserve
  reserving-Runs d n ns [] m = go (go (go (sending-Runs d n.ip_address 0 (n ∷ ns) _)))
  reserving-Runs d n ns (x ∷ xs) m =
      go (
        reserving-Runs d n ns xs (with_registry (update_node_state x.node_id NodeState.reserved) m))

  pub placing-Runs :
      (d : JobDict) (nodes : List Node) (m : Manager)
      → Round (place ids now port d nodes m).0 (placing d nodes) m
  unfolding scheduler_step place
  placing-Runs d [] m = go over
  placing-Runs d (n ∷ ns) m = go (reserving-Runs d n ns (n ∷ ns) m)

  pub marking-Runs :
      (d : JobDict) (m : Manager)
      → Round
          (place ids now port d
            (select_nodes fl alloc now d m.registry).1
            (with_registry (λ r. (select_nodes fl alloc now d r).0) m)).0
          (marking d)
          m
  unfolding scheduler_step select_nodes get_available_nodes mark_offline_nodes
  marking-Runs d m = go (
      go (
        placing-Runs d (select_nodes fl alloc now d m.registry).1
          (with_registry (λ r. (select_nodes fl alloc now d r).0) m)))

  popping-Runs :
      (m : Manager) (q : List JobDict)
      → m.queue ≡ q
      → Round (scheduler_round fl alloc ids now port m).0 popping m
  popping-Runs m [] e =
      rw (scheduler_round-empty fl alloc ids now port m e)
        (go_as (m, none) (popping-empty fl alloc ids now port m e) over)
  popping-Runs m (d ∷ rest) e =
      let m' : Manager = record m { jobs = record m.jobs { queue = rest } } in
      rw (scheduler_round-cons fl alloc ids now port m d rest e) (
        go_as (m', some (marking d)) (popping-cons fl alloc ids now port m d rest e)
          (marking-Runs d m'))

  pub scheduler_round-Runs :
      (m : Manager) → Round (scheduler_round fl alloc ids now port m).0 popping m
  scheduler_round-Runs m = popping-Runs m m.queue refl
