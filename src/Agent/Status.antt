-- ===== src/Agent/Status.antt =====
-- dmlf/agent/agent.py: the status that heartbeats carry after a job was launched.
use distributed_ml_training.Base.{
  ◌≡◌, ◌≢◌, refl, ◌⊎◌, inl, inr, String, some, List, [], ◌∷◌, arith, eq_iff, All,
}
use distributed_ml_training.Manager.State.{launch_job, stop_job, JobPayload}
use distributed_ml_training.Agent.State.{
  NodeAgent, on_command, on_disconnect, on_exit, heartbeat_status, AgentEvent, command, disconnect,
  exit, agent_step, agent_run,
}

-- The event is no STOP_JOB command. The manager sends none.
abbrev pub IsNoStop : AgentEvent → Type 0
IsNoStop (command (stop_job id)) = ⊥
IsNoStop _ = Unit

abbrev pub IsOccupied : NodeAgent → Type 0
IsOccupied a = (a.status ≡ "TRAINING") ⊎ (a.status ≡ "OFFLINE")

agent_step-IsOccupied :
    (e : AgentEvent) (a : NodeAgent) → IsNoStop e → IsOccupied a → IsOccupied (agent_step e a)
unfolding agent_step on_command on_disconnect on_exit
agent_step-IsOccupied (command (launch_job id p)) a h o = inl refl
agent_step-IsOccupied (command (stop_job id)) a h o = absurd h
agent_step-IsOccupied disconnect a h o = inr refl
agent_step-IsOccupied (exit code) a h o = ground arith

agent_run-IsOccupied :
    (es : List AgentEvent) (a : NodeAgent)
    → All IsNoStop es
    → IsOccupied a
    → IsOccupied (agent_run es a)
unfolding agent_run
agent_run-IsOccupied [] a h o = o
agent_run-IsOccupied (e ∷ es) a h o =
    agent_run-IsOccupied es (agent_step e a) h.1 (agent_step-IsOccupied e a h.0 o)

pub occupied-status : (a : NodeAgent) → IsOccupied a → heartbeat_status a ≢ some "IDLE"
unfolding heartbeat_status
occupied-status a (inl o) h = ground (arith, eq_iff "TRAINING" "IDLE")
occupied-status a (inr o) h = ground (arith, eq_iff "OFFLINE" "IDLE")

-- After a launch no heartbeat says IDLE again until a STOP_JOB command comes, whatever else
-- happens: more commands, the end of the job, a lost stream.
pub launched_never_idle :
    (id : String) (p : JobPayload) (es : List AgentEvent) (a : NodeAgent)
    → All IsNoStop es
    → heartbeat_status (agent_run es (agent_step (command (launch_job id p)) a)) ≢ some "IDLE"
unfolding agent_step on_command
launched_never_idle id p es a h =
    occupied-status _ (agent_run-IsOccupied es (on_command (launch_job id p) a) h (inl refl))
