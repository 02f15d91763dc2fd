-- ===== src/Registry/Nodes.antt =====
-- dmlf/manager/node_registry.py: the methods of `NodeRegistry` on nodes.
use distributed_ml_training.Base.{
  ℕ, ◌-◌, ◌*◌, ℤ, String, Option, none, Bool, true, not, ◌&&◌, ◌||◌, List, [], ◌∷◌, ◌++◌, ◌==◌, ltb,
  keep, if◌then◌else◌,
}
use distributed_ml_training.Registry.NodeState
use distributed_ml_training.Registry.Schema.{Node, Sample, Registry}

-- INSERT … ON CONFLICT(node_id) DO UPDATE
unfoldable pub upsert_node : Node → List Node → List Node
upsert_node n [] = n ∷ []
upsert_node n (m ∷ ms) = if m.node_id == n.node_id then n ∷ ms else m ∷ upsert_node n ms

-- UPDATE nodes SET … WHERE node_id = ?
unfoldable pub update_node : String → (Node → Node) → List Node → List Node
update_node id f [] = []
update_node id f (n ∷ ns) = (if n.node_id == id then f n else n) ∷ update_node id f ns

unfoldable pub register_node :
    (now : ℕ) (node_id hostname ip_address : String) (cpu_count : ℤ) (gpu_model ram_total : String)
    (node_secret : Option String)
    → Registry
    → Registry × Bool
unfolding upsert_node
register_node now id host ip cpus gpu ram secret r =
    let row : Node = record {
      node_id = id;
      hostname = host;
      ip_address = ip;
      cpu_count = cpus;
      gpu_model = gpu;
      ram_total = ram;
      status = NodeState.idle;
      last_heartbeat = now;
      node_secret = secret;
    } in
    (record r { nodes = upsert_node row r.nodes }, true)

-- The heartbeat's status is written as it came, and a row of metrics is added for any node id.
unfoldable pub update_heartbeat :
    (now : ℕ) (node_id status : String) (metrics : Sample) (latency_ms : ℤ) → Registry → Registry
unfolding update_node
update_heartbeat now id status sample latency r = record r {
  nodes = update_node id (λ n. record n { last_heartbeat = now; status = status }) r.nodes;
  metrics =
      r.metrics
      ++ record { node_id = id; timestamp = now; sample = sample; heartbeat_latency_ms = latency }
        ∷ [];
}

-- `last_heartbeat < cutoff AND status NOT IN (DISCONNECTED, MAINTENANCE)`, for the cutoff
-- `now - timeout`. Before the time `timeout` the cutoff is negative, and nothing is below it;
-- subtraction that stops at 0 gives the same.
unfoldable pub is_stale : (now timeout : ℕ) → Node → Bool
is_stale now timeout n =
    ltb n.last_heartbeat (now - timeout)
    && not (n.status == NodeState.disconnected || n.status == NodeState.maintenance)

-- The default of `timeout_seconds`, 15.0. No caller passes another value.
abbrev pub offline_timeout : ℕ
offline_timeout = 15 * 1000000

unfoldable pub mark_offline_nodes : (now timeout : ℕ) → List Node → List Node
unfolding is_stale
mark_offline_nodes now timeout [] = []
mark_offline_nodes now timeout (n ∷ ns) =
    (if is_stale now timeout n then record n { status = NodeState.disconnected } else n)
    ∷ mark_offline_nodes now timeout ns

abbrev pub is_idle : Node → Bool
is_idle n = n.status == NodeState.idle

-- Both reads first write: a node that has gone silent is marked.
unfoldable pub get_available_nodes : ℕ → Registry → Registry × List Node
unfolding mark_offline_nodes
get_available_nodes now r =
    let nodes = mark_offline_nodes now offline_timeout r.nodes in
    (record r { nodes = nodes }, keep is_idle nodes)

unfoldable pub get_all_nodes : ℕ → Registry → Registry × List Node
unfolding mark_offline_nodes
get_all_nodes now r =
    let nodes = mark_offline_nodes now offline_timeout r.nodes in
    (record r { nodes = nodes }, nodes)

unfoldable pub update_node_state : String → String → Registry → Registry
unfolding update_node
update_node_state id new_state r = record r {
  nodes = update_node id (λ n. record n { status = new_state }) r.nodes;
}

-- `none` is no such row, or a row whose secret is NULL.
unfoldable pub secret_of : String → List Node → Option String
secret_of id [] = none
secret_of id (n ∷ ns) = if n.node_id == id then n.node_secret else secret_of id ns

unfoldable pub get_node_secret : String → Registry → Option String
unfolding secret_of
get_node_secret id r = secret_of id r.nodes
