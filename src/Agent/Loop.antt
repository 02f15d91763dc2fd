-- ===== src/Agent/Loop.antt =====
-- dmlf/agent/agent.py: `listen_for_commands` and the loop of `start`, one stream after the other.
pub mod Delays
use Prim.Native.Nat.{min}
use distributed_ml_training.Base.{ℕ, ◌*◌, Option, none, some, Bool, true, false, List, [], ◌∷◌}
use distributed_ml_training.Manager.State.{Command}
use distributed_ml_training.Manager.Rpcs.{RegistrationResponse}
use distributed_ml_training.Agent.State.{NodeAgent, register, on_command, on_disconnect}

-- How the iteration over a stream ends: with grpc.RpcError, or without an exception.
pub data StreamEnd : Type 0 where
  lost closed : StreamEnd

-- The commands that come over a stream.
pub record Stream : Type 0 where
  pub commands : List Command
  pub ending : StreamEnd

unfoldable pub on_commands : List Command → NodeAgent → NodeAgent
unfolding on_command
on_commands [] a = a
on_commands (c ∷ cs) a = on_commands cs (on_command c a)

-- A node that is not registered does not listen.
unfoldable pub listen_for_commands : Stream → NodeAgent → NodeAgent
unfolding on_disconnect
listen_for_commands s a = elim a.node_id [
  | none ↦ a
  | some id ↦ elim s.ending [
    | lost ↦ on_disconnect (on_commands s.commands a)
    | closed ↦ on_commands s.commands a
  ]
]

-- The loop of `start`, for the streams that it gets, with the delays that it sleeps.
unfoldable pub reconnect : (limit backoff : ℕ) → List Stream → NodeAgent → NodeAgent × List ℕ
reconnect limit backoff [] a = (a, [])
reconnect limit backoff (s ∷ ss) a =
    let (a', delays) = reconnect limit (min (backoff * 2) limit) ss (listen_for_commands s a) in
    (a', backoff ∷ delays)

-- `start`, by the response or the failure of the registration.
unfoldable pub start_agent :
    (base limit : ℕ) → Option RegistrationResponse → List Stream → NodeAgent → NodeAgent × List ℕ
start_agent base limit resp streams a =
    let (a', registered) = register resp a in
    elim registered [ true ↦ reconnect limit base streams a' | false ↦ (a', []) ]
