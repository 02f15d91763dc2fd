-- ===== src/Manager/Dispatch/Delivery.antt =====
-- dmlf/manager/cluster_manager.py: the commands that `dispatch_allocated_job` puts into the queues.
use mathlib.Core.List.{append-nil, append_assoc}
use distributed_ml_training.Base.{
  ℕ, suc, ◌≡◌, refl, sym, ap, ◌∙◌, String, Option, none, some, List, [], ◌∷◌, ◌++◌, ◌==◌, lookup,
  lookup-insert, eq_iff, Bool-cases, Option-cases, inl, inr, if◌then◌else◌,
}
use distributed_ml_training.Registry.Schema.{Node}
use distributed_ml_training.Registry.Jobs.{JobDict}
use distributed_ml_training.Manager.State.{Manager, Command, launch_job, send_command, write_log}
use distributed_ml_training.Manager.Dispatch.{
  payload, send_all, log_allocation, start_job, dispatch_allocated_job,
}

-- The launch commands for the node `id` among some nodes, the first of which has a rank: one for
-- each time that the node is listed, with the rank of its place.
abbrev pub commands_for :
    (ids : ℕ → String) (job : JobDict) (port : ℕ) (master id : String) (rank : ℕ)
    → List Node
    → List Command
commands_for ids job port master id rank [] = []
commands_for ids job port master id rank (n ∷ ns) =
    let rest = commands_for ids job port master id (suc rank) ns in
    if id == n.node_id then launch_job (ids rank) (payload job port master rank) ∷ rest else rest

-- A queue with some commands behind it.
abbrev pub queue_with : List Command → Option (List Command) → Option (List Command)
queue_with cs none = none
queue_with cs (some q) = some (q ++ cs)

queue_with-empty : (o : Option (List Command)) → queue_with [] o ≡ o
queue_with-empty none = refl
queue_with-empty (some q) = ap some (append-nil q)

queue_with-append :
    (cs ds : List Command) (o : Option (List Command))
    → queue_with ds (queue_with cs o) ≡ queue_with (cs ++ ds) o
queue_with-append cs ds none = refl
queue_with-append cs ds (some q) = ap some (append_assoc q cs ds)

-- One command: behind the queue of its node, if the node has one.
lookup-send_command :
    (id key : String) (c : Command) (m : Manager)
    → lookup key (send_command id c m).command_queues ≡ (
        if key == id
        then queue_with (c ∷ []) (lookup key m.command_queues)
        else lookup key m.command_queues)
unfolding send_command
lookup-send_command id key c m = elim (Option-cases (lookup id m.command_queues)) [
  | inl e ↦
      rw (e, send_command)
        (elim (Bool-cases (key == id)) [
          | inl same ↦
              let here : lookup key m.command_queues ≡ none = rw ((eq_iff key id).0 same) e in
              rw (same, here) refl
          | inr other ↦ rw other refl
        ])
  | inr (q, e) ↦
      rw (e, send_command)
        (lookup-insert m.command_queues id key (q ++ c ∷ []) ∙ elim (Bool-cases (key == id)) [
          | inl same ↦
              let here : lookup key m.command_queues ≡ some q = rw ((eq_iff key id).0 same) e in
              rw (same, here) refl
          | inr other ↦ rw other refl
        ])
]

-- After the commands for some nodes were sent, each node's queue has its own behind it, in order.
lookup-send_all :
    (ids : ℕ → String) (job : JobDict) (port : ℕ) (master key : String) (rank : ℕ) (ns : List Node)
    (m : Manager)
    → lookup key (send_all ids job port master rank ns m).command_queues
      ≡ queue_with (commands_for ids job port master key rank ns) (lookup key m.command_queues)
unfolding send_all
lookup-send_all ids job port master key rank [] m = sym (queue_with-empty _)
lookup-send_all ids job port master key rank (n ∷ ns) m =
    let c = launch_job (ids rank) (payload job port master rank) in
    lookup-send_all ids job port master key (suc rank) ns (send_command n.node_id c m)
    ∙ rw (lookup-send_command n.node_id key c m) (elim (Bool-cases (key == n.node_id)) [
      | inl same ↦ rw same (queue_with-append (c ∷ []) _ (lookup key m.command_queues))
      | inr other ↦ rw other refl
    ])

-- A dispatch appends to the queue of each node, if there is one, the launch command of each place
-- that the node has among the chosen ones, with that place as its rank and the first node's address
-- as the master's; no other queue changes.
pub lookup-dispatch_allocated_job :
    (ids : ℕ → String) (now port : ℕ) (job : JobDict) (n : Node) (ns : List Node) (key : String)
    (m : Manager)
    → lookup key (dispatch_allocated_job ids now port job (n ∷ ns) m).0.command_queues
      ≡ queue_with
          (commands_for ids job port n.ip_address key 0 (n ∷ ns))
          (lookup key m.command_queues)
unfolding dispatch_allocated_job start_job log_allocation write_log
lookup-dispatch_allocated_job ids now port job n ns key m =
    lookup-send_all ids job port n.ip_address key 0 (n ∷ ns)
      (start_job now job (n ∷ ns) (log_allocation now job (n ∷ ns) m))
