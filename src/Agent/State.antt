-- ===== src/Agent/State.antt =====
-- dmlf/agent/agent.py: the status of `NodeAgent`; dmlf/agent/launcher.py: the process of
-- `JobLauncher`. The process itself runs outside: that it ends is a step.
use distributed_ml_training.Base.{
  ℤ, pos, int_eqb, String, Option, none, some, Bool, true, false, List, [], ◌∷◌, if◌then◌else◌,
}
use distributed_ml_training.Manager.State.{Command, launch_job, stop_job}
use distributed_ml_training.Manager.Rpcs.{JobStatusRequest, RegistrationResponse}
use distributed_ml_training.Auth.Client.{Credentials, no_credentials, set_credentials}

-- `current_process`, by what `poll()` says of it, with the job that it was started for.
pub data Process : Type 0 where
  absent : Process
  alive exited : (job_id : String) → Process

pub record NodeAgent : Type 0 where
  pub node_id : Option String
  pub credentials : Credentials
  pub status : String
  pub process : Process

abbrev pub new_agent : NodeAgent
new_agent = record {
  node_id = none;
  credentials = no_credentials;
  status = "IDLE";
  process = absent;
}

-- `register`, by the response or the failure of its call.
unfoldable pub register : Option RegistrationResponse → NodeAgent → NodeAgent × Bool
unfolding set_credentials
register none a = (a, false)
register (some resp) a =
    if resp.success
    then (
      record a {
        node_id = some resp.node_id;
        credentials = set_credentials resp.node_id resp.node_secret a.credentials;
      },
      true,
    )
    else (a, false)

-- launch_torchrun: refused while a process is alive.
unfoldable pub launch_torchrun : String → Process → Process × Bool
launch_torchrun job (alive running) = (alive running, false)
launch_torchrun job absent = (alive job, true)
launch_torchrun job (exited before) = (alive job, true)

-- stop_current_job. The log generator of the process that it ends may still report to the manager,
-- or fail on the cleared field; that report is not modelled.
unfoldable pub stop_current_job : Process → Process × Bool
stop_current_job (alive job) = (absent, true)
stop_current_job absent = (absent, false)
stop_current_job (exited job) = (exited job, false)

-- The body of the loop of `listen_for_commands`. The result of the launch is not looked at.
unfoldable pub on_command : Command → NodeAgent → NodeAgent
unfolding launch_torchrun stop_current_job
on_command (launch_job id p) a = record a {
  status = "TRAINING";
  process = (launch_torchrun p.job_id a.process).0;
}
on_command (stop_job id) a = record a { status = "IDLE"; process = (stop_current_job a.process).0 }

-- `except grpc.RpcError` of `listen_for_commands`.
unfoldable pub on_disconnect : NodeAgent → NodeAgent
on_disconnect a = record a { status = "OFFLINE" }

-- The end of `log_generator`: the process has ended with a code, and the agent reports it. The
-- status of the agent is not set.
unfoldable pub on_exit : ℤ → NodeAgent → NodeAgent × Option JobStatusRequest
on_exit code a = elim a.process [
  | alive job ↦ (
    record a { process = exited job },
    elim a.node_id [
      | none ↦ none
      | some id ↦ some (record {
        node_id = id;
        job_id = job;
        status = if int_eqb code (pos 0) then "completed" else "failed";
      })
    ],
  )
  | absent ↦ (a, none)
  | exited job ↦ (a, none)
]

-- The status that the next heartbeat carries; none is sent before the registration.
unfoldable pub heartbeat_status : NodeAgent → Option String
heartbeat_status a = elim a.node_id [ none ↦ none | some id ↦ some a.status ]

pub data AgentEvent : Type 0 where
  command : Command → AgentEvent
  disconnect : AgentEvent
  exit : (code : ℤ) → AgentEvent

unfoldable pub agent_step : AgentEvent → NodeAgent → NodeAgent
unfolding on_command on_disconnect on_exit
agent_step (command c) a = on_command c a
agent_step disconnect a = on_disconnect a
agent_step (exit code) a = (on_exit code a).0

unfoldable pub agent_run : List AgentEvent → NodeAgent → NodeAgent
unfolding agent_step
agent_run [] a = a
agent_run (e ∷ es) a = agent_run es (agent_step e a)
