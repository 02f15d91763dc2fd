-- ===== src/Agent/Loop/Delays.antt =====
-- dmlf/agent/agent.py: the delays and the status of an agent that reconnects.
use Prim.Native.Nat.{min, ◌^◌}
use distributed_ml_training.Base.{
  ℕ, suc, ◌*◌, ◌≤◌, ◌≡◌, ◌≢◌, refl, ap, ◌∙◌, Option, none, some, String, Bool, true, false, List,
  [], ◌∷◌, All, inl, inr,
}
use distributed_ml_training.Manager.State.{Command, launch_job, stop_job}
use distributed_ml_training.Manager.Rpcs.{RegistrationResponse}
use distributed_ml_training.Auth.Client.{set_credentials}
use distributed_ml_training.Agent.Backoff.{backoff, backoff_lem}
use distributed_ml_training.Agent.State.{
  NodeAgent, register, on_command, on_disconnect, heartbeat_status,
}
use distributed_ml_training.Agent.Status.{IsOccupied, occupied-status}
use distributed_ml_training.Agent.Loop.{
  Stream, StreamEnd, lost, closed, on_commands, listen_for_commands, reconnect, start_agent,
}

-- The smaller of base * 2 ^ n and the cap, for the numbers from `first` on.
unfoldable pub capped_powers : (base limit first : ℕ) → List Stream → List ℕ
capped_powers base limit first [] = []
capped_powers base limit first (s ∷ ss) =
    min (base * 2 ^ first) limit ∷ capped_powers base limit (suc first) ss

reconnect-delays :
    (base limit n delay : ℕ) (ss : List Stream) (a : NodeAgent)
    → base ≤ limit
    → delay ≡ backoff base limit n
    → (reconnect limit delay ss a).1 ≡ capped_powers base limit n ss
unfolding reconnect capped_powers backoff
reconnect-delays base limit n delay [] a h e = refl
reconnect-delays base limit n delay (s ∷ ss) a h e = λ i.
    (e ∙ backoff_lem base limit n h) i
    ∷ reconnect-delays base limit (suc n) (min (delay * 2) limit) ss (listen_for_commands s a) h
        (ap (λ (d : ℕ). min (d * 2) limit) e) i

-- The manager sends no STOP_JOB.
abbrev pub IsNoStopCommand : Command → Type 0
IsNoStopCommand (stop_job id) = ⊥
IsNoStopCommand (launch_job id p) = Unit

abbrev pub NoStops : Stream → Type 0
NoStops s = All IsNoStopCommand s.commands

on_commands-IsOccupied :
    (cs : List Command) (a : NodeAgent)
    → All IsNoStopCommand cs
    → IsOccupied a
    → IsOccupied (on_commands cs a)
unfolding on_commands on_command
on_commands-IsOccupied [] a h o = o
on_commands-IsOccupied (launch_job id p ∷ cs) a h o =
    on_commands-IsOccupied cs (on_command (launch_job id p) a) h.1 (inl refl)
on_commands-IsOccupied (stop_job id ∷ cs) a h o = absurd h.0

listen-IsOccupied :
    (s : Stream) (a : NodeAgent) → NoStops s → IsOccupied a → IsOccupied (listen_for_commands s a)
unfolding listen_for_commands on_disconnect
listen-IsOccupied s a h o = go a.node_id s.ending
  where
    after : NodeAgent
    after = on_commands s.commands a

    go :
        (id : Option String) (ending : StreamEnd)
        → IsOccupied (elim id [
          | none ↦ a
          | some i ↦ elim ending [ lost ↦ on_disconnect after | closed ↦ after ]
        ])
    go none ending = o
    go (some i) lost = inr refl
    go (some i) closed = on_commands-IsOccupied s.commands a h o

reconnect-IsOccupied :
    (limit delay : ℕ) (ss : List Stream) (a : NodeAgent)
    → All NoStops ss
    → IsOccupied a
    → IsOccupied (reconnect limit delay ss a).0
unfolding reconnect
reconnect-IsOccupied limit delay [] a h o = o
reconnect-IsOccupied limit delay (s ∷ ss) a h o =
    reconnect-IsOccupied limit (min (delay * 2) limit) ss (listen_for_commands s a) h.1
      (listen-IsOccupied s a h.0 o)

-- The agent that the response makes.
abbrev registered : RegistrationResponse → NodeAgent → NodeAgent
registered resp a = record a {
  node_id = some resp.node_id;
  credentials = set_credentials resp.node_id resp.node_secret a.credentials;
}

register-ok :
    (resp : RegistrationResponse) (a : NodeAgent)
    → resp.success ≡ true
    → register (some resp) a ≡ (registered resp a, true)
unfolding register
register-ok resp a ok = rw (ok, register) refl

start_agent-registered :
    (base limit : ℕ) (resp : RegistrationResponse) (ss : List Stream) (a : NodeAgent)
    → resp.success ≡ true
    → start_agent base limit (some resp) ss a ≡ reconnect limit base ss (registered resp a)
unfolding start_agent
start_agent-registered base limit resp ss a ok =
    ap
      (λ (r : NodeAgent × Bool). elim r.1 as (λ _. NodeAgent × List ℕ) [
        | true ↦ reconnect limit base ss r.0
        | false ↦ (r.0, [])
      ])
      (register-ok resp a ok)

-- A lost stream of a registered agent makes it OFFLINE.
lost-IsOccupied :
    (resp : RegistrationResponse) (s : Stream) (a : NodeAgent)
    → s.ending ≡ lost
    → IsOccupied (listen_for_commands s (registered resp a))
unfolding listen_for_commands on_disconnect
lost-IsOccupied resp s a first =
    let after = on_commands s.commands (registered resp a) in
    inr (
      ap
        (λ (k : StreamEnd).
          (elim k as (λ _. NodeAgent) [ lost ↦ on_disconnect after | closed ↦ after ]).status)
        first)

-- An agent whose base delay is at most the cap, that registers and loses its first stream,
-- sleeps before each later one the smaller of base * 2 ^ n and the cap, n the number of streams
-- it has had since the first, however long they were; and as long as no STOP_JOB comes, none of
-- its heartbeats then says IDLE, though it has connected again.
pub start_agent-lost :
    (base limit : ℕ) (resp : RegistrationResponse) (s : Stream) (ss : List Stream) (a : NodeAgent)
    → base ≤ limit
    → resp.success ≡ true
    → s.ending ≡ lost
    → All NoStops ss
    → ((start_agent base limit (some resp) (s ∷ ss) a).1 ≡ capped_powers base limit 0 (s ∷ ss))
      × (heartbeat_status (start_agent base limit (some resp) (s ∷ ss) a).0 ≢ some "IDLE")
unfolding reconnect backoff
start_agent-lost base limit resp s ss a h ok first more =
    let a' = registered resp a in
    rw (start_agent-registered base limit resp (s ∷ ss) a ok) (
      reconnect-delays base limit 0 base (s ∷ ss) a' h refl,
      occupied-status _ (
          reconnect-IsOccupied limit (min (base * 2) limit) ss (listen_for_commands s a') more
            (lost-IsOccupied resp s a first)),
    )
