-- ===== src/Registry/Availability.antt =====
-- dmlf/manager/node_registry.py: which nodes are available, and what marking silent nodes does.
use distributed_ml_training.Base.{
  ℕ, ◌+◌, ◌-◌, ◌≤◌, ◌≡◌, refl, ap, List, [], ◌∷◌, map, true, false, In, keep, arith, eq_iff, ltb,
  inl, inr, Bool-cases, if◌then◌else◌, In-keep, In-keep_of, In-map, exists_of_In-map, subst, ◌∙◌,
  ◌↔◌,
}
use distributed_ml_training.Registry.NodeState
use distributed_ml_training.Registry.Schema.{Node, Registry}
use distributed_ml_training.Registry.Nodes.{
  is_stale, is_idle, mark_offline_nodes, offline_timeout, get_available_nodes,
}

-- The node may be scheduled at the time `now`.
pub record IsAvailable (now : ℕ) (n : Node) : Type 0 where
  pub idle : n.status ≡ NodeState.idle
  pub heard : now ≤ n.last_heartbeat + offline_timeout

mark : ℕ → ℕ → Node → Node
mark now t n = if is_stale now t n then record n { status = NodeState.disconnected } else n

mark_offline_nodes-map :
    (now t : ℕ) (ns : List Node) → mark_offline_nodes now t ns ≡ map (mark now t) ns
unfolding mark_offline_nodes mark
mark_offline_nodes-map now t [] = refl
mark_offline_nodes-map now t (n ∷ ns) = ap (◌∷◌ (mark now t n)) (mark_offline_nodes-map now t ns)

-- The two cases of a mark.
mark-stale :
    (now t : ℕ) (n : Node)
    → is_stale now t n ≡ true
    → mark now t n ≡ record n { status = NodeState.disconnected }
unfolding mark
mark-stale now t n h = rw h

mark-fresh : (now t : ℕ) (n : Node) → is_stale now t n ≡ false → mark now t n ≡ n
unfolding mark
mark-fresh now t n h = rw h

is_stale-idle :
    (now t : ℕ) (n : Node)
    → n.status ≡ NodeState.idle
    → is_stale now t n ≡ ltb n.last_heartbeat (now - t)
unfolding is_stale
is_stale-idle now t n h = rw h (ground arith)

is_stale-disconnected :
    (now t : ℕ) (n : Node) → n.status ≡ NodeState.disconnected → is_stale now t n ≡ false
unfolding is_stale
is_stale-disconnected now t n h = rw h (ground arith)

is_stale_mono :
    (now t t' : ℕ) (n : Node) → t ≤ t' → is_stale now t n ≡ false → is_stale now t' n ≡ false
unfolding is_stale
is_stale_mono now t t' n h fresh = ground arith

-- A marked node that is still idle was left alone, and has been heard of.
mark-idle :
    (now : ℕ) (n : Node)
    → is_idle (mark now offline_timeout n) ≡ true
    → (mark now offline_timeout n ≡ n) × IsAvailable now n
mark-idle now n h = elim (Bool-cases (is_stale now offline_timeout n)) [
  | inl e ↦ cc (ap is_idle (mark-stale now offline_timeout n e))
  | inr e ↦
      let same = mark-fresh now offline_timeout n e in
      let idle = (eq_iff n.status NodeState.idle).0 (rw same at h) in
      (
        same,
        record { idle = idle; heard = ground (arith, is_stale-idle now offline_timeout n idle) },
      )
]

available-mark :
    (now : ℕ) (n : Node) → IsAvailable now n → (mark now offline_timeout n ≡ n) × (is_idle n ≡ true)
available-mark now n a = (
  mark-fresh now offline_timeout n
      (is_stale-idle now offline_timeout n a.idle ∙ (let heard = a.heard in ground arith)),
  (eq_iff n.status NodeState.idle).1 a.idle,
)

-- What is stale after marking: nothing, also under a longer timeout.
mark-not_stale : (now t t' : ℕ) (n : Node) → t ≤ t' → is_stale now t' (mark now t n) ≡ false
mark-not_stale now t t' n h = elim (Bool-cases (is_stale now t n)) [
  | inl e ↦
      rw (mark-stale now t n e)
        (is_stale-disconnected now t' (record n { status = NodeState.disconnected }) refl)
  | inr e ↦ rw (mark-fresh now t n e) (is_stale_mono now t t' n h e)
]

pub keep-is_stale-mark_offline_nodes :
    (now t t' : ℕ) (ns : List Node)
    → t ≤ t'
    → keep (is_stale now t') (mark_offline_nodes now t ns) ≡ []
keep-is_stale-mark_offline_nodes now t t' ns h = rw mark_offline_nodes-map (go ns)
  where
    go : (ms : List Node) → keep (is_stale now t') (map (mark now t) ms) ≡ []
    go [] = refl
    go (n ∷ ms) = rw (mark-not_stale now t t' n h) (go ms)

-- The nodes that `get_available_nodes` returns are those rows of the table that are idle and were
-- heard of in the last 15 seconds, each as it stands in the table.
pub get_available_nodes_iff :
    (now : ℕ) (r : Registry) (n : Node)
    → In n (get_available_nodes now r).1 ↔ (In n r.nodes × IsAvailable now n)
unfolding get_available_nodes
get_available_nodes_iff now r n = (rw mark_offline_nodes-map there, rw mark_offline_nodes-map back)
  where
    there :
        In n (keep is_idle (map (mark now offline_timeout) r.nodes))
        → In n r.nodes × IsAvailable now n
    there m =
        let (k, idle) = In-keep is_idle (map (mark now offline_timeout) r.nodes) m in
        let (a, listed, e) = exists_of_In-map (mark now offline_timeout) r.nodes k in
        let (same, available) = mark-idle now a (rw e at idle) in rw (e ∙ same) (listed, available)

    back :
        In n r.nodes × IsAvailable now n
        → In n (keep is_idle (map (mark now offline_timeout) r.nodes))
    back (listed, available) =
        let (same, idle) = available-mark now n available in
        In-keep_of is_idle (map (mark now offline_timeout) r.nodes)
          (subst (λ (x : Node). In x (map (mark now offline_timeout) r.nodes)) same
            (In-map n (mark now offline_timeout) r.nodes listed))
          idle
