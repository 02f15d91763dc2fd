-- ===== src/Manager/Rpcs/Heartbeats.antt =====
-- dmlf/manager/cluster_manager.py: `SendHeartbeat`, and what the scheduler reads after it.
use distributed_ml_training.Base.{
  ℕ, ◌+◌, ◌≤◌, ◌≡◌, ap, subst, inl, inr, String, List, [], ◌∷◌, true, ◌==◌, In, eq_iff,
}
use distributed_ml_training.Registry.NodeState
use distributed_ml_training.Registry.Schema.{Node}
use distributed_ml_training.Registry.Nodes.{
  update_node, update_heartbeat, offline_timeout, get_available_nodes,
}
use distributed_ml_training.Registry.Availability.{get_available_nodes_iff}
use distributed_ml_training.Manager.State.{Manager}
use distributed_ml_training.Manager.Rpcs.{HeartbeatRequest, send_heartbeat}

In-update_node :
    (id : String) (f : Node → Node) (ns : List Node) (n : Node)
    → In n ns
    → n.node_id ≡ id
    → In (f n) (update_node id f ns)
unfolding update_node
In-update_node id f [] n m e = elim m [ ]
In-update_node id f (x ∷ ns) n (inl same) e =
    let hit : (x.node_id == id) ≡ true =
      (eq_iff x.node_id id).1 (subst (λ (y : Node). y.node_id ≡ id) same e) in
    rw hit (inl (ap f same))
In-update_node id f (x ∷ ns) n (inr later) e = inr (In-update_node id f ns n later e)

-- After a heartbeat that says IDLE, the row of its node is available for 15 seconds, whatever its
-- status was, RESERVED for a job that was just dispatched included.
pub send_heartbeat-IsAvailable :
    (now later : ℕ) (q : HeartbeatRequest) (m : Manager) (n : Node)
    → In n m.registry.nodes
    → n.node_id ≡ q.node_id
    → q.current_status ≡ NodeState.idle
    → later ≤ now + offline_timeout
    → In
        (record n { last_heartbeat = now; status = q.current_status })
        (get_available_nodes later (send_heartbeat now q m).registry).1
unfolding send_heartbeat update_heartbeat
send_heartbeat-IsAvailable now later q m n listed named says soon =
    (get_available_nodes_iff later _ _).1 (
      In-update_node q.node_id
          (λ (x : Node). record x { last_heartbeat = now; status = q.current_status })
          m.registry.nodes n listed named,
      record { idle = says; heard = soon },
    )
