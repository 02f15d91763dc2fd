-- ===== src/Manager/Pass/Placement.antt =====
-- dmlf/manager/schedulers/base.py: what a round of the scheduler does when it starts a job.
use distributed_ml_training.Base.{
  ℕ, ◌≡◌, ◌≢◌, refl, sym, ap, ◌∙◌, subst, ◌⊎◌, inl, inr, String, none, some, List, [], ◌∷◌, false,
  All, In, ◌==◌, Bool-cases, All-of_In,
}
use distributed_ml_training.Floats.{Floats}
use distributed_ml_training.Registry.NodeState
use distributed_ml_training.Registry.JobState
use distributed_ml_training.Registry.Schema.{Node, Registry}
use distributed_ml_training.Registry.Nodes.{update_node, update_node_state, get_available_nodes}
use distributed_ml_training.Registry.Jobs.{JobDict, update_job, set_status}
use distributed_ml_training.Registry.Availability.{IsAvailable, get_available_nodes_iff}
use distributed_ml_training.Queue.{JobQueue}
use distributed_ml_training.Allocator.{NodeAllocator}
use distributed_ml_training.Allocator.Best.{In-allocate}
use distributed_ml_training.Manager.State.{Manager}
use distributed_ml_training.Manager.Dispatch.{node_ids}
use distributed_ml_training.Manager.Dispatch.Frame.{jobs-dispatch_allocated_job}
use distributed_ml_training.Manager.Pass.{
  reserve, Outcome, dispatched, select_nodes, place, scheduler_round,
}
use distributed_ml_training.Manager.Pass.Cases.{
  jobs-reserve, scheduler_round-empty, scheduler_round-cons,
}

-- Every row of the node is RESERVED.
abbrev pub IsReserved : List Node → String → Type 0
IsReserved nodes id = All (λ x. ((x.node_id == id) ≡ false) ⊎ (x.status ≡ NodeState.reserved)) nodes

abbrev as_reserved : Node → Node
as_reserved n = record n { status = NodeState.reserved }

update_node-IsReserved :
    (id : String) (nodes : List Node) → IsReserved (update_node id as_reserved nodes) id
unfolding update_node
update_node-IsReserved id [] = tt
update_node-IsReserved id (n ∷ ns) = (
  elim (Bool-cases (n.node_id == id)) [ inl e ↦ rw e (inr refl) | inr e ↦ rw e (inl e) ],
  update_node-IsReserved id ns,
)

update_node-keeps :
    (id other : String) (nodes : List Node)
    → IsReserved nodes id
    → IsReserved (update_node other as_reserved nodes) id
unfolding update_node
update_node-keeps id other [] h = tt
update_node-keeps id other (n ∷ ns) h = (
  elim (Bool-cases (n.node_id == other)) [ inl e ↦ rw e (inr refl) | inr e ↦ rw e h.0 ],
  update_node-keeps id other ns h.1,
)

reserve-keeps :
    (id : String) (ns : List Node) (r : Registry)
    → IsReserved r.nodes id
    → IsReserved (reserve ns r).nodes id
unfolding reserve update_node_state
reserve-keeps id [] r h = h
reserve-keeps id (n ∷ ns) r h =
    reserve-keeps id ns (update_node_state n.node_id NodeState.reserved r)
      (update_node-keeps id n.node_id r.nodes h)

reserve-IsReserved :
    (ns : List Node) (r : Registry) → All (λ n. IsReserved (reserve ns r).nodes n.node_id) ns
unfolding reserve update_node_state
reserve-IsReserved [] r = tt
reserve-IsReserved (n ∷ ns) r = (
  reserve-keeps n.node_id ns (update_node_state n.node_id NodeState.reserved r)
      (update_node-IsReserved n.node_id r.nodes),
  reserve-IsReserved ns (update_node_state n.node_id NodeState.reserved r),
)

-- What a dispatch of a job to some nodes has done.
pub record Placed (now : ℕ) (ns : List Node) (d : JobDict) (m m' : Manager) : Type 0 where
  pub popped : m.queue ≡ d ∷ m'.queue
  pub some_nodes : ns ≢ []
  pub available : All (λ n. In n m.registry.nodes × IsAvailable now n) ns
  pub reserved : All (λ n. IsReserved m'.registry.nodes n.node_id) ns
  pub runs :
      m'.registry.jobs
      ≡ update_job d.job_id
          (set_status now JobState.running (some (node_ids ns)) none)
          m.registry.jobs

abbrev nodes_of : Outcome → List Node
nodes_of (dispatched ns) = ns
nodes_of _ = []

place-cons :
    (ids : ℕ → String) (now port : ℕ) (d : JobDict) (n : Node) (ns : List Node) (m : Manager)
    → ((place ids now port d (n ∷ ns) m).0.queue ≡ m.queue)
      × ((place ids now port d (n ∷ ns) m).0.registry.nodes ≡ (reserve (n ∷ ns) m.registry).nodes)
      × ((place ids now port d (n ∷ ns) m).0.registry.jobs
          ≡ update_job d.job_id
              (set_status now JobState.running (some (node_ids (n ∷ ns))) none)
              m.registry.jobs)
unfolding place
place-cons ids now port d n ns m =
    let reserved : Manager = record m {
      jobs = record m.jobs { registry = reserve (n ∷ ns) m.registry };
    } in
    let jobs = jobs-dispatch_allocated_job ids now port d n ns reserved in
    (
      ap (λ (q : JobQueue). q.queue) jobs,
      ap (λ (q : JobQueue). q.registry.nodes) jobs,
      ap (λ (q : JobQueue). q.registry.jobs) jobs
          ∙ ap
              (update_job d.job_id
                (set_status now JobState.running (some (node_ids (n ∷ ns))) none))
              (jobs-reserve (n ∷ ns) m.registry),
    )

place-dispatched :
    (ids : ℕ → String) (now port : ℕ) (d : JobDict) (nodes : List Node) (m m' : Manager)
    (ns : List Node)
    → place ids now port d nodes m ≡ (m', dispatched ns)
    → (nodes ≡ ns)
      × (ns ≢ [])
      × (m'.queue ≡ m.queue)
      × (m'.registry.nodes ≡ (reserve ns m.registry).nodes)
      × (m'.registry.jobs
          ≡ update_job d.job_id
              (set_status now JobState.running (some (node_ids ns)) none)
              m.registry.jobs)
place-dispatched ids now port d [] m m' ns h = unfold place in cc
place-dispatched ids now port d (n ∷ nodes) m m' ns h =
    let same : n ∷ nodes ≡ ns = unfold place in ap (λ (p : Manager × Outcome). nodes_of p.1) h in
    let after : (place ids now port d (n ∷ nodes) m).0 ≡ m' =
      ap (λ (p : Manager × Outcome). p.0) h in
    let (queue, rows, jobs) = place-cons ids now port d n nodes m in
    (
      same,
      λ e. cc,
      subst (λ (x : Manager). x.queue ≡ m.queue) after queue,
      subst (λ (l : List Node). m'.registry.nodes ≡ (reserve l m.registry).nodes) same
          (subst (λ (x : Manager). x.registry.nodes ≡ (reserve (n ∷ nodes) m.registry).nodes) after
            rows),
      subst
          (λ (l : List Node).
            m'.registry.jobs
            ≡ update_job d.job_id (set_status now JobState.running (some (node_ids l)) none)
                m.registry.jobs)
          same
          (subst
            (λ (x : Manager).
              x.registry.jobs
              ≡ update_job d.job_id
                  (set_status now JobState.running (some (node_ids (n ∷ nodes))) none)
                  m.registry.jobs)
            after jobs),
    )

module _ (fl : Floats) (alloc : NodeAllocator fl) where
  select_nodes-IsAvailable :
      (now : ℕ) (d : JobDict) (r : Registry)
      → All (λ n. In n r.nodes × IsAvailable now n) (select_nodes fl alloc now d r).1
  unfolding select_nodes
  select_nodes-IsAvailable now d r = All-of_In _ (select_nodes fl alloc now d r).1 (λ n m.
      (get_available_nodes_iff now r n).0
        (In-allocate fl alloc (get_available_nodes now r).1 d.required_nodes n m))

  jobs-select_nodes :
      (now : ℕ) (d : JobDict) (r : Registry) → (select_nodes fl alloc now d r).0.jobs ≡ r.jobs
  unfolding select_nodes get_available_nodes
  jobs-select_nodes now d r = refl

  -- A round that says that it dispatched a job to some nodes has taken the head of the queue, all
  -- the nodes are rows of the table that were idle and heard of in the last 15 seconds, they are
  -- RESERVED after it, and the job's row is RUNNING on them.
  pub scheduler_round-Placed :
      (ids : ℕ → String) (now port : ℕ) (m m' : Manager) (ns : List Node)
      → scheduler_round fl alloc ids now port m ≡ (m', dispatched ns)
      → (d : JobDict) × Placed now ns d m m'
  scheduler_round-Placed ids now port m m' ns h = go m.queue refl
    where
      go : (q : List JobDict) → m.queue ≡ q → (d : JobDict) × Placed now ns d m m'
      go [] e = cc (
          ap (λ (p : Manager × Outcome). p.1)
            (sym (scheduler_round-empty fl alloc ids now port m e) ∙ h))
      go (d ∷ rest) e =
          let (chosen, some_nodes, queue, rows, jobs) =
            place-dispatched ids now port d (select_nodes fl alloc now d m.registry).1 _ m' ns
              (sym (scheduler_round-cons fl alloc ids now port m d rest e) ∙ h) in
          (
            d,
            record {
              popped = e ∙ ap (◌∷◌ d) (sym queue);
              some_nodes = some_nodes;
              available =
                  subst (λ (l : List Node). All (λ n. In n m.registry.nodes × IsAvailable now n) l)
                    chosen (select_nodes-IsAvailable now d m.registry);
              reserved =
                  subst (λ (l : List Node). All (λ n. IsReserved l n.node_id) ns) (sym rows)
                    (reserve-IsReserved ns _);
              runs = jobs ∙ ap (update_job d.job_id _) (jobs-select_nodes now d m.registry);
            },
          )
