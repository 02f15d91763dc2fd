-- ===== src/Manager/Monitor/Blind.antt =====
-- dmlf/manager/cluster_manager.py: the monitor after another reader of the nodes.
use distributed_ml_training.Base.{ℕ, ◌≤◌, ◌≡◌, refl, ap, []}
use distributed_ml_training.Registry.Schema.{Registry}
use distributed_ml_training.Registry.Nodes.{offline_timeout, get_all_nodes}
use distributed_ml_training.Registry.Availability.{keep-is_stale-mark_offline_nodes}
use distributed_ml_training.Manager.State.{Manager}
use distributed_ml_training.Manager.Dispatch.{node_ids}
use distributed_ml_training.Manager.Monitor.{offline_nodes, monitor_round, update_gauges}
use distributed_ml_training.Manager.Lifecycle.{view}

-- Any read of the nodes marks the silent ones, so the monitor's query finds none of them.
offline_nodes-get_all_nodes :
    (now timeout : ℕ) (r : Registry)
    → offline_timeout ≤ timeout
    → offline_nodes now timeout (get_all_nodes now r).0 ≡ []
unfolding offline_nodes get_all_nodes
offline_nodes-get_all_nodes now timeout r h =
    ap node_ids (keep-is_stale-mark_offline_nodes now offline_timeout timeout r.nodes h)

-- If some reader of the nodes (the scheduler, the autoscaler, a health probe) runs before the
-- monitor at one time, and the configured timeout is at least 15 seconds, the monitor fails and
-- retries no job, whatever nodes are silent.
pub monitor_round_blind :
    (now timeout : ℕ) (m : Manager)
    → offline_timeout ≤ timeout
    → view
        (monitor_round now timeout
          (record m { jobs = record m.jobs { registry = (get_all_nodes now m.registry).0 } })).jobs
      ≡ view m.jobs
unfolding monitor_round update_gauges
monitor_round_blind now timeout m h =
    rw (offline_nodes-get_all_nodes now timeout m.registry h, monitor_round)
      (unfold get_all_nodes in refl)
