-- ===== src/Manager/Steps/Scheduling.antt =====
-- dmlf/manager/schedulers/base.py and dmlf/manager/cluster_manager.py: a round of the scheduler's
-- thread, `dispatch_allocated_job` included, one access at a time. The nodes are those of
-- `PriorityBinPackScheduler`, read in a transaction after the one that marks the silent ones.
use distributed_ml_training.Base.{ℕ, suc, String, Option, none, some, List, [], ◌∷◌, keep}
use distributed_ml_training.Floats.{Floats}
use distributed_ml_training.Registry.NodeState
use distributed_ml_training.Registry.JobState
use distributed_ml_training.Registry.Schema.{Node}
use distributed_ml_training.Registry.Nodes.{
  offline_timeout, mark_offline_nodes, is_idle, update_node_state,
}
use distributed_ml_training.Registry.Jobs.{JobDict, update_job_status}
use distributed_ml_training.Queue.{pop_top_job, requeue_job}
use distributed_ml_training.Allocator.{NodeAllocator, allocate}
use distributed_ml_training.Manager.State.{
  Manager, launch_job, dec_jobs_queued, inc_jobs_running, send_command,
}
use distributed_ml_training.Manager.Rpcs.{with_registry}
use distributed_ml_training.Manager.Dispatch.{node_ids, payload, log_allocation}

-- What the thread is about to do, with its local variables: the popped job, the chosen nodes (the
-- first one and the others, where the code knows that there is one), and those that its loop has
-- left.
pub data SchedulerAt : Type 0 where
  popping : SchedulerAt
  marking selecting : JobDict → SchedulerAt
  placing : JobDict → (nodes : List Node) → SchedulerAt
  reserving : JobDict → (first : Node) (others left : List Node) → SchedulerAt
  starting counting : JobDict → (first : Node) (others : List Node) → SchedulerAt
  sending : JobDict → (master : String) (rank : ℕ) (left : List Node) → SchedulerAt

module _ (fl : Floats) (alloc : NodeAllocator fl) where
  -- `none`: the round is over.
  unfoldable pub scheduler_step :
      (ids : ℕ → String) (now port : ℕ) → SchedulerAt → Manager → Manager × Option SchedulerAt
  unfolding pop_top_job requeue_job update_node_state update_job_status mark_offline_nodes allocate
      send_command
  scheduler_step ids now port popping m =
      let (q, top) = pop_top_job m.jobs in
      elim top [ none ↦ (m, none) | some d ↦ (record m { jobs = q }, some (marking d)) ]
  scheduler_step ids now port (marking d) m = (
    with_registry (λ r. record r { nodes = mark_offline_nodes now offline_timeout r.nodes }) m,
    some (selecting d),
  )
  scheduler_step ids now port (selecting d) m =
      (m, some (placing d (allocate fl alloc (keep is_idle m.registry.nodes) d.required_nodes)))
  scheduler_step ids now port (placing d []) m = (record m { jobs = requeue_job d m.jobs }, none)
  scheduler_step ids now port (placing d (n ∷ ns)) m = (m, some (reserving d n ns (n ∷ ns)))
  scheduler_step ids now port (reserving d n ns []) m =
      (log_allocation now d (n ∷ ns) m, some (starting d n ns))
  scheduler_step ids now port (reserving d n ns (x ∷ xs)) m =
      (with_registry (update_node_state x.node_id NodeState.reserved) m, some (reserving d n ns xs))
  scheduler_step ids now port (starting d n ns) m = (
    with_registry (update_job_status now d.job_id JobState.running (some (node_ids (n ∷ ns))) none)
        m,
    some (counting d n ns),
  )
  scheduler_step ids now port (counting d n ns) m = (
    record m { gauges = inc_jobs_running (dec_jobs_queued m.gauges) },
    some (sending d n.ip_address 0 (n ∷ ns)),
  )
  scheduler_step ids now port (sending d master rank []) m = (m, none)
  scheduler_step ids now port (sending d master rank (x ∷ xs)) m = (
    send_command x.node_id (launch_job (ids rank) (payload d port master rank)) m,
    some (sending d master (suc rank) xs),
  )

-- The popped job, until its row says that it runs or it is back in the queue.
unfoldable pub scheduler_holds : SchedulerAt → List JobDict
scheduler_holds popping = []
scheduler_holds (marking d) = d ∷ []
scheduler_holds (selecting d) = d ∷ []
scheduler_holds (placing d nodes) = d ∷ []
scheduler_holds (reserving d n ns left) = d ∷ []
scheduler_holds (starting d n ns) = d ∷ []
scheduler_holds (counting d n ns) = []
scheduler_holds (sending d master rank left) = []
