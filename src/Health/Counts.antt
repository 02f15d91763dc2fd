-- ===== src/Health/Counts.antt =====
-- dmlf/manager/health.py: the counts of /cluster, against what the scheduler sees.
use distributed_ml_training.Base.{
  ℕ, ◌+◌, ◌≤◌, ◌<◌, ◌≡◌, ◌≢◌, ◌↔◌, refl, String, true, false, List, [], ◌∷◌, ◌==◌, eq_iff, ltb,
  length, arith,
}
use distributed_ml_training.Registry.NodeState
use distributed_ml_training.Registry.Schema.{Node, Registry}
use distributed_ml_training.Registry.Nodes.{get_available_nodes, get_all_nodes}
use distributed_ml_training.Manager.Monitor.{count_nodes}
use distributed_ml_training.Health.{cluster_handler}

-- Nodes of three states are counted once each.
count_nodes-bound :
    (a b c : String) (ns : List Node)
    → a ≢ b
    → a ≢ c
    → b ≢ c
    → count_nodes a ns + count_nodes b ns + count_nodes c ns ≤ length ns
unfolding count_nodes
count_nodes-bound a b c [] ab ac bc = omega arith
count_nodes-bound a b c (n ∷ ns) ab ac bc = ground (
  arith,
  count_nodes-bound a b c ns ab ac bc,
  eq_iff n.status a,
  eq_iff n.status b,
  eq_iff n.status c,
)

differs : (a b : String) → (a == b) ≡ false → a ≢ b
differs a b test e = let same : (a == b) ≡ true = (eq_iff a b).1 e in cc

some_iff : (n : ℕ) → (ltb 0 n ≡ true) ↔ (0 < n)
some_iff n = (λ h. ground (arith, h), λ h. ground (arith, h))

-- The counts of the idle, the training and the disconnected nodes are together at most the number
-- of nodes; the idle ones are those that a scheduler's read at the same time finds available; and
-- `can_schedule` says whether there is one of these.
pub cluster_handler-bounds :
    (now : ℕ) (r : Registry)
    → ((cluster_handler now r).1.idle_nodes
          + (cluster_handler now r).1.busy_nodes
          + (cluster_handler now r).1.offline_nodes
        ≤ (cluster_handler now r).1.total_nodes)
      × ((cluster_handler now r).1.idle_nodes ≡ length (get_available_nodes now r).1)
      × (((cluster_handler now r).1.can_schedule ≡ true)
          ↔ (0 < length (get_available_nodes now r).1))
unfolding cluster_handler get_available_nodes get_all_nodes count_nodes
cluster_handler-bounds now r =
    let nodes = (get_all_nodes now r).1 in
    (
      count_nodes-bound NodeState.idle NodeState.training NodeState.disconnected nodes
          (differs NodeState.idle NodeState.training refl)
          (differs NodeState.idle NodeState.disconnected refl)
          (differs NodeState.training NodeState.disconnected refl),
      refl,
      some_iff (count_nodes NodeState.idle nodes),
    )
