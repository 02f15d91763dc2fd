-- ===== src/Cluster.antt =====
-- The manager and its agents: dmlf/agent/agent.py and dmlf/agent/launcher.py as clients of
-- dmlf/manager/cluster_manager.py.
--
-- An agent's calls and the manager's handlers are one step each. The calls of an agent go through,
-- with valid credentials; agents that are offline take no step.
pub mod Output
pub mod Reports
pub mod EndToEnd
use distributed_ml_training.Base.{ℕ, ℤ, String, Option, none, some, Dict, lookup, insert}
use distributed_ml_training.Registry.Schema.{Sample}
use distributed_ml_training.Manager.State.{Manager}
use distributed_ml_training.Manager.Rpcs.{
  JobStatusRequest, HeartbeatRequest, open_stream, next_command, report_job_status, send_heartbeat,
}
use distributed_ml_training.Agent.State.{NodeAgent, on_command, on_exit, heartbeat_status}

-- The agents by the node id that they were given.
pub record Cluster : Type 0 where
  pub manager : Manager
  pub agents : Dict NodeAgent

-- A node starts to listen: the call of ListenForCommands.
unfoldable pub listen : String → Cluster → Cluster
unfolding open_stream
listen id c = record c { manager = open_stream id c.manager }

-- The manager sends the next command of a node's queue, and the agent handles it.
unfoldable pub deliver : String → Cluster → Cluster
unfolding next_command on_command lookup insert
deliver id c =
    let (m, command) = next_command id c.manager in
    elim command [
      | none ↦ record c { manager = m }
      | some received ↦ elim (lookup id c.agents) [
        | none ↦ record c { manager = m }
        | some a ↦ record c { manager = m; agents = insert id (on_command received a) c.agents }
      ]
    ]

-- The process of a node ends with a code, and the agent reports the end.
unfoldable pub job_ends : (now : ℕ) → String → (code : ℤ) → Cluster → Cluster
unfolding on_exit report_job_status lookup insert
job_ends now id code c = elim (lookup id c.agents) [
  | none ↦ c
  | some a ↦
      let (ended, request) = on_exit code a in
      let agents = insert id ended c.agents in
      elim request [
        | none ↦ record c { agents = agents }
        | some q ↦ record c { manager = report_job_status now q c.manager; agents = agents }
      ]
]

-- A heartbeat of a node, with what it measures.
unfoldable pub beat : (now : ℕ) → String → Sample → (sent : ℕ) → Cluster → Cluster
unfolding heartbeat_status send_heartbeat lookup
beat now id sample sent c = elim (lookup id c.agents) [
  | none ↦ c
  | some a ↦ elim (heartbeat_status a) [
    | none ↦ c
    | some status ↦ record c {
      manager =
          send_heartbeat now
            (record {
              node_id = id;
              sample = sample;
              current_status = status;
              send_timestamp = sent;
            })
            c.manager;
    }
  ]
]
