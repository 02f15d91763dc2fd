-- ===== src/Cluster/EndToEnd.antt =====
-- A job's way from its dispatch through an agent back to its row.
use distributed_ml_training.Base.{
  ℕ, ℤ, ◌≡◌, refl, ap, ◌∙◌, String, none, some, true, List, [], ◌∷◌, eq_refl, lookup, lookup-insert,
}
use distributed_ml_training.Registry.JobState
use distributed_ml_training.Registry.Schema.{Job, Node}
use distributed_ml_training.Registry.Jobs.{JobDict, set_status, get_job}
use distributed_ml_training.Registry.Rows.{find_job-update_job}
use distributed_ml_training.Queue.{JobQueue}
use distributed_ml_training.Manager.State.{Manager, JobPayload, launch_job}
use distributed_ml_training.Manager.Dispatch.{node_ids, payload, dispatch_allocated_job}
use distributed_ml_training.Manager.Dispatch.Frame.{jobs-dispatch_allocated_job}
use distributed_ml_training.Manager.Dispatch.Delivery.{commands_for, lookup-dispatch_allocated_job}
use distributed_ml_training.Manager.Lifecycle.Invariants.{set_status-KeepsId}
use distributed_ml_training.Manager.Rpcs.{next_command}
use distributed_ml_training.Agent.State.{
  NodeAgent, Process, absent, alive, exited, launch_torchrun, on_command, on_exit,
}
use distributed_ml_training.Cluster.Reports.{ended_row, report_of-ended}
use distributed_ml_training.Cluster.{Cluster, deliver, job_ends}

-- After a dispatch to a node that listens, and whose queue was empty, its next command is its launch.
next_command-dispatched :
    (ids : ℕ → String) (now port : ℕ) (job : JobDict) (n : Node) (ns : List Node) (m : Manager)
    → lookup n.node_id m.command_queues ≡ some []
    → ((next_command n.node_id (dispatch_allocated_job ids now port job (n ∷ ns) m).0).1
        ≡ some (launch_job (ids 0) (payload job port n.ip_address 0)))
      × ((next_command n.node_id (dispatch_allocated_job ids now port job (n ∷ ns) m).0).0.jobs
          ≡ (dispatch_allocated_job ids now port job (n ∷ ns) m).0.jobs)
unfolding next_command
next_command-dispatched ids now port job n ns m listens =
    let rest = commands_for ids job port n.ip_address n.node_id 1 ns in
    let queued : lookup n.node_id
          (dispatch_allocated_job ids now port job (n ∷ ns) m).0.command_queues
        ≡ some (launch_job (ids 0) (payload job port n.ip_address 0) ∷ rest) =
      lookup-dispatch_allocated_job ids now port job n ns n.node_id m
      ∙ rw (listens, eq_refl) refl in
    (rw (queued, next_command) refl, rw (queued, next_command) refl)

-- The row of a job after its dispatch.
dispatched_row :
    (now : ℕ) (job : JobDict) (n : Node) (ns : List Node) (j : Job) (m : Manager) (ids : ℕ → String)
    (port : ℕ)
    → get_job job.job_id m.registry ≡ some j
    → get_job job.job_id (dispatch_allocated_job ids now port job (n ∷ ns) m).0.registry
      ≡ some (set_status now JobState.running (some (node_ids (n ∷ ns))) none j)
unfolding get_job
dispatched_row now job n ns j m ids port found =
    ap (λ (q : JobQueue). get_job job.job_id q.registry)
      (jobs-dispatch_allocated_job ids now port job n ns m)
    ∙ find_job-update_job (set_status now JobState.running (some (node_ids (n ∷ ns))) none)
        (set_status-KeepsId now JobState.running (some (node_ids (n ∷ ns))) none) job.job_id
        job.job_id m.registry.jobs
    ∙ rw (found, eq_refl) refl

-- What an idle agent is after the launch command.
launched : NodeAgent → (job_id : String) → NodeAgent
launched a job = record a { status = "TRAINING"; process = alive job }

launch_torchrun-accepted :
    (job : String) (p : Process)
    → (launch_torchrun job p).1 ≡ true
    → (launch_torchrun job p).0 ≡ alive job
unfolding launch_torchrun
launch_torchrun-accepted job absent ok = refl
launch_torchrun-accepted job (alive running) ok = absurd cc
launch_torchrun-accepted job (exited before) ok = refl

on_command-launch :
    (id : String) (p : JobPayload) (a : NodeAgent)
    → (launch_torchrun p.job_id a.process).1 ≡ true
    → on_command (launch_job id p) a ≡ launched a p.job_id
unfolding on_command launched
on_command-launch id p a free =
    ap (λ (q : Process). record a { status = "TRAINING"; process = q })
      (launch_torchrun-accepted p.job_id a.process free)

-- The end of a node's process reaches the row of its job.
job_ends-alive :
    (now : ℕ) (id job : String) (code : ℤ) (a : NodeAgent) (j : Job) (c : Cluster)
    → lookup id c.agents ≡ some (launched a job)
    → a.node_id ≡ some id
    → get_job job c.manager.registry ≡ some j
    → get_job job (job_ends now id code c).manager.registry ≡ some (ended_row now code j)
unfolding job_ends on_exit launched
job_ends-alive now id job code a j c known named found =
    rw (known, job_ends, named) (report_of-ended now id job code j c.manager found)

-- The agent and the manager after a launch command was delivered.
deliver-launch :
    (id command : String) (p : JobPayload) (a : NodeAgent) (c : Cluster)
    → (next_command id c.manager).1 ≡ some (launch_job command p)
    → lookup id c.agents ≡ some a
    → (launch_torchrun p.job_id a.process).1 ≡ true
    → (lookup id (deliver id c).agents ≡ some (launched a p.job_id))
      × ((deliver id c).manager ≡ (next_command id c.manager).0)
unfolding deliver
deliver-launch id command p a c received known free = (
  rw (received, deliver, known)
      (lookup-insert c.agents id id (on_command (launch_job command p) a)
        ∙ rw (eq_refl, on_command-launch command p a free) refl),
  rw (received, deliver, known) refl,
)

-- Where the first node of a dispatched job listens, has no command waiting and runs no process,
-- its agent starts the job with its next command; and when the process ends, the row of the job,
-- which the dispatch has made RUNNING on its nodes, is COMPLETED for the code 0, and otherwise PENDING
-- with one retry more, or FAILED where no retry is left.
pub job_ends-dispatched :
    (ids : ℕ → String) (now later port : ℕ) (job : JobDict) (n : Node) (ns : List Node)
    (a : NodeAgent) (j : Job) (code : ℤ) (c : Cluster)
    → lookup n.node_id c.manager.command_queues ≡ some []
    → lookup n.node_id c.agents ≡ some a
    → a.node_id ≡ some n.node_id
    → (launch_torchrun job.job_id a.process).1 ≡ true
    → get_job job.job_id c.manager.registry ≡ some j
    → let sent =
        deliver n.node_id
          (record c { manager = (dispatch_allocated_job ids now port job (n ∷ ns) c.manager).0 }) in
      (lookup n.node_id sent.agents
        ≡ some (record a { status = "TRAINING"; process = alive job.job_id }))
      × (get_job job.job_id (job_ends later n.node_id code sent).manager.registry
          ≡ some (
              ended_row later code
                (set_status now JobState.running (some (node_ids (n ∷ ns))) none j)))
unfolding deliver job_ends launched payload
job_ends-dispatched ids now later port job n ns a j code c listens known named free found =
    let m₁ = (dispatch_allocated_job ids now port job (n ∷ ns) c.manager).0 in
    let c₁ : Cluster = record c { manager = m₁ } in
    let (received, kept) = next_command-dispatched ids now port job n ns c.manager listens in
    let (started, manager) =
      deliver-launch n.node_id (ids 0) (payload job port n.ip_address 0) a c₁ received known free in
    let row = dispatched_row now job n ns j c.manager ids port found in
    (
      started,
      job_ends-alive later n.node_id job.job_id code a _ (deliver n.node_id c₁) started named (
          ap (λ (m : Manager). get_job job.job_id m.registry) manager
          ∙ ap (λ (q : JobQueue). get_job job.job_id q.registry) kept
          ∙ row),
    )
