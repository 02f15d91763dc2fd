-- ===== src/Examples/Edges.antt =====
-- Authentication, the autoscaler and the agent on small inputs.
use native.Mathlib.Nat.{zero-div}
use distributed_ml_training.Base.{suc, any, ◌==◌}
use distributed_ml_training.Autoscaler.Policy.{evaluate}
use distributed_ml_training.Monitoring.NodeGauges.{new_node_metrics}
use distributed_ml_training.Monitoring.NodeGauges.Unset.{HasZero, readings, evaluate-unset}
use distributed_ml_training.Manager.State.{new_manager}
use distributed_ml_training.Registry.Schema.{init_db}
use distributed_ml_training.Examples.Samples.{node}
use distributed_ml_training.Base.{
  ℕ, ◌≡◌, ◌≢◌, ◌↔◌, ◌⊎◌, refl, pos, String, none, some, Bool, true, false, List, [], ◌∷◌, arith,
  eq_iff,
}
use distributed_ml_training.Text.{is_space, lstrip, rstrip_cons, rstrip, strip}
use distributed_ml_training.Registry.Schema.{Registry}
use distributed_ml_training.Registry.Nodes.{
  get_node_secret, secret_of, get_available_nodes, get_all_nodes,
}
use distributed_ml_training.Auth.Client.{agent_metadata}
use distributed_ml_training.Auth.Server.{Call, proceed, authenticate}
use distributed_ml_training.Auth.Checks.{
  node_methods, CarriesToken, IsNode, authenticate_iff, agent_passes,
}
use distributed_ml_training.Autoscaler.Policy.{scale_in, Limits, wants_out, wants_in}
use distributed_ml_training.Autoscaler.Cooldown.{Round, Spaced, returned, run_loop, run_loop-Spaced}
use distributed_ml_training.Agent.State.{
  new_agent, command, disconnect, exit, agent_step, agent_run, heartbeat_status,
}
use distributed_ml_training.Agent.Status.{launched_never_idle}
use distributed_ml_training.Manager.State.{launch_job}
use distributed_ml_training.Examples.Samples.{whole, node, launch}

abbrev stored : Registry
stored = record { nodes = node "n1" (pos 4) ∷ []; metrics = []; jobs = [] }

abbrev heartbeat : Call
heartbeat = record {
  method = "/cml.ClusterManager/SendHeartbeat";
  invocation_metadata =
      some (("authorization", "Bearer token") ∷ ("node-id", "n1") ∷ ("node-secret", "s3cret") ∷ []);
}

authenticate_iff_example : (authenticate "token" stored heartbeat ≡ proceed) ↔ (
    CarriesToken "token" heartbeat
    × ((any (λ m. m == heartbeat.method) node_methods ≡ false) ⊎ IsNode stored heartbeat))
authenticate_iff_example = authenticate_iff "token" stored heartbeat

token_stripped : strip "token" ≡ "token"
unfolding strip lstrip rstrip rstrip_cons is_space
token_stripped = refl

secret_stored : get_node_secret "n1" stored ≡ some "s3cret"
unfolding get_node_secret secret_of
secret_stored = refl

n1_set : ◌≢◌ {A = String} "n1" ""
n1_set = ground (arith, eq_iff "n1" "")

s3cret_set : ◌≢◌ {A = String} "s3cret" ""
s3cret_set = ground (arith, eq_iff "s3cret" "")

agent_passes_example :
    authenticate "token" stored (record {
      method = "/cml.ClusterManager/SendHeartbeat";
      invocation_metadata = some (
          agent_metadata "token"
            (record { node_id = some "n1"; node_secret = some "s3cret" })
            none);
    })
    ≡ proceed
agent_passes_example =
    agent_passes "token" "n1" "s3cret" "/cml.ClusterManager/SendHeartbeat" none stored
      token_stripped n1_set s3cret_set secret_stored

abbrev limits : Limits whole
limits = record {
  queue_high = pos 5;
  cpu_high = 80;
  gpu_high = 80;
  queue_low = pos 0;
  cpu_low = 20;
  gpu_low = 20;
  cooldown = 300;
}

abbrev quiet : Bool → ℕ → Round whole
quiet returns now = record {
  now = now;
  readings = record { jobs_queued = pos 0; node_cpu = λ n. 1; node_gpu = λ n. 0 };
  registry = stored;
  returns = returns;
}

-- The call at 301 raises.
abbrev quiet_rounds : List (Round whole)
quiet_rounds = quiet false 301 ∷ quiet true 400 ∷ quiet true 700 ∷ quiet true 701 ∷ []

run_loop-Spaced_example : Spaced 300 0 (returned (run_loop whole limits 0 quiet_rounds))
run_loop-Spaced_example = run_loop-Spaced whole limits 0 quiet_rounds

-- The request of 301 is made again at 400, and the next one waits for the cooldown.
quiet_calls :
    run_loop whole limits 0 quiet_rounds
    ≡ (301, some scale_in, false)
      ∷ (400, some scale_in, true)
      ∷ (700, none, true)
      ∷ (701, some scale_in, true)
      ∷ []
unfolding run_loop evaluate wants_out wants_in get_available_nodes get_all_nodes
quiet_calls = refl

launched_never_idle_example :
    heartbeat_status (
      agent_run
        (exit (pos 0) ∷ disconnect ∷ [])
        (agent_step (command (launch_job "c" launch)) new_agent))
    ≢ some "IDLE"
launched_never_idle_example =
    launched_never_idle "c" launch (exit (pos 0) ∷ disconnect ∷ []) new_agent (tt, (tt, tt))

whole-HasZero : HasZero whole
whole-HasZero = record { plus_zero = refl; divide_zero = λ n. zero-div (suc n) }

-- A registry with a node, and one with none.
evaluate-unset_example :
    ((evaluate whole limits
        (readings whole new_manager.gauges (new_node_metrics whole))
        400
        0
        (record init_db { nodes = node "n1" (pos 8) ∷ [] })).1
      ≡ (evaluate whole limits
          (readings whole new_manager.gauges (new_node_metrics whole))
          400
          0
          init_db).1)
    × ((evaluate whole limits
          (readings whole new_manager.gauges (new_node_metrics whole))
          400
          0
          (record init_db { nodes = node "n1" (pos 8) ∷ [] })).2
        ≡ (evaluate whole limits
            (readings whole new_manager.gauges (new_node_metrics whole))
            400
            0
            init_db).2)
evaluate-unset_example =
    evaluate-unset whole whole-HasZero limits new_manager.gauges 400 0
      (record init_db { nodes = node "n1" (pos 8) ∷ [] }) init_db
