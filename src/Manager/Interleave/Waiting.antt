-- ===== src/Manager/Interleave/Waiting.antt =====
-- What holds of the jobs in every interleaving of the threads.
use mathlib.Core.List.Perm
use mathlib.Core.List.{Mem, not-mem-nil}
use distributed_ml_training.Base.{ℕ, String, ◌≤◌, ◌≡◌, refl, some, List, [], ◌∷◌, All, pos_part}
use distributed_ml_training.Floats.{Floats}
use distributed_ml_training.Registry.JobState
use distributed_ml_training.Registry.Schema.{Job}
use distributed_ml_training.Registry.Jobs.{get_job, get_jobs}
use distributed_ml_training.Queue.{recover_pending_jobs}
use distributed_ml_training.Manager.State.{new_manager}
use distributed_ml_training.Manager.Events.{
  Event, register, heartbeat, listen, poll, report, logs, submit, schedule, monitor, read_nodes,
  restart, Config, step,
}
use distributed_ml_training.Manager.Lifecycle.Pool.{
  recovered, Flows, stay, go_on, Changes-Flows, Flows-append,
}
use distributed_ml_training.Manager.Lifecycle.Durable.{queue_ids}
use distributed_ml_training.Manager.Lifecycle.Sound.{IsSound, Flows-IsSound}
use distributed_ml_training.Manager.Refinement.{step-Changes, new_manager-IsSound}
use distributed_ml_training.Manager.Steps.Scheduling.{scheduler_holds}
use distributed_ml_training.Manager.Steps.Reporting.{report_holds}
use distributed_ml_training.Manager.Steps.Submitting.{submit_holds}
use distributed_ml_training.Manager.Steps.Monitoring.{monitor_holds}
use distributed_ml_training.Manager.Interleave.{
  System, holds, waiting, Action, arrive, resume, arrive_step, action_step, interleave,
}
use distributed_ml_training.Manager.Interleave.Flows.{
  Knows, pool, Flows-All-Knows, Flows-waiting, resume_at-Resumed,
}

-- The rows and the waiting jobs are sound, and the threads know what they should.
pub record IsConsistent (s : System) : Type 0 where
  pub sound : IsSound (pool s)
  pub knows : All (Knows s.manager.registry.jobs) s.threads

-- The manager of an empty database, with no call in progress.
abbrev pub new_system : System
new_system = record { manager = new_manager; threads = [] }

module _ (fl : Floats) (cfg : Config fl) where
  -- A step is a sequence of flows after which the threads know what they should.
  abbrev Steps : System → System → Type 0
  Steps s s' = Flows (pool s') (pool s) × All (Knows s'.manager.registry.jobs) s'.threads

  whole_step-Steps :
      (now : ℕ) (e : Event) (s : System)
      → IsConsistent s
      → Steps s (record s { manager = step fl cfg now e s.manager })
  whole_step-Steps now e s c =
      let fs = Changes-Flows (step-Changes fl cfg now e s.manager c.sound.distinct) in
      (Flows-waiting s.threads fs, Flows-All-Knows s.threads fs c.knows)

  arrive_step-Steps :
      (now : ℕ) (e : Event) (s : System) → IsConsistent s → Steps s (arrive_step fl cfg now e s)
  unfolding arrive_step waiting holds scheduler_holds report_holds submit_holds monitor_holds Knows
      step recover_pending_jobs get_jobs
  arrive_step-Steps now (report q) s c = (stay, (tt, c.knows))
  arrive_step-Steps now (submit id q) s c = (stay, (tt, c.knows))
  arrive_step-Steps now (schedule ids) s c = (stay, (tt, c.knows))
  arrive_step-Steps now monitor s c = (stay, (tt, c.knows))
  arrive_step-Steps now restart s c =
      (go_on (recovered [] (λ d m. absurd (not-mem-nil m)) refl (Perm.refl _)) stay, tt)
  arrive_step-Steps now (register id secret q) s c = whole_step-Steps now (register id secret q) s c
  arrive_step-Steps now (heartbeat q) s c = whole_step-Steps now (heartbeat q) s c
  arrive_step-Steps now (listen id) s c = whole_step-Steps now (listen id) s c
  arrive_step-Steps now (poll id) s c = whole_step-Steps now (poll id) s c
  arrive_step-Steps now (logs es) s c = whole_step-Steps now (logs es) s c
  arrive_step-Steps now read_nodes s c = whole_step-Steps now read_nodes s c

  action_step-Steps :
      (now : ℕ) (a : Action) (s : System) → IsConsistent s → Steps s (action_step fl cfg now a s)
  unfolding action_step
  action_step-Steps now (arrive e) s c = arrive_step-Steps now e s c
  action_step-Steps now (resume i ids) s c =
      let (f, ks) =
        resume_at-Resumed fl cfg ids now i s.threads s.manager c.sound.distinct c.knows in
      (go_on f stay, ks)

  interleave-Flows :
      (acts : List (ℕ × Action)) (s : System)
      → IsConsistent s
      → Flows (pool (interleave fl cfg acts s)) (pool s)
  unfolding interleave
  interleave-Flows [] s c = stay
  interleave-Flows ((now, a) ∷ more) s c =
      let (fs, ks) = action_step-Steps now a s c in
      Flows-append
        (interleave-Flows more (action_step fl cfg now a s)
          (record { sound = Flows-IsSound fs c.sound; knows = ks }))
        fs

  new_system-IsConsistent : IsConsistent new_system
  unfolding waiting
  new_system-IsConsistent = record { sound = new_manager-IsSound; knows = tt }

  -- In every interleaving of the threads from an empty database, restarts included, what happens to
  -- the rows and to the waiting jobs, whether they are in the queue or in the hands of a thread, is
  -- a sequence of flows: a new job arrives, a job that was read with retries left waits again, a
  -- job ends, a waiting job starts, a job passes between the queue and a thread, or the queue is
  -- built again.
  pub interleave-new_system :
      (acts : List (ℕ × Action))
      → Flows (pool (interleave fl cfg acts new_system)) (pool new_system)
  interleave-new_system acts = interleave-Flows acts new_system new_system-IsConsistent

  interleave-IsSound :
      (acts : List (ℕ × Action)) → IsSound (pool (interleave fl cfg acts new_system))
  interleave-IsSound acts = Flows-IsSound (interleave-new_system acts) new_system-IsConsistent.sound

  -- In every interleaving of the threads from an empty database, restarts included, a job whose row
  -- is PENDING is in the queue or in the hands of a thread: no job that waits is lost.
  pub interleave-pending_waits :
      (acts : List (ℕ × Action)) (k : String) (j : Job)
      → get_job k (interleave fl cfg acts new_system).manager.registry ≡ some j
      → j.status ≡ JobState.pending
      → Mem k (
          queue_ids (
            waiting
              (interleave fl cfg acts new_system).threads
              (interleave fl cfg acts new_system).manager.queue))
  unfolding get_job
  interleave-pending_waits acts = (interleave-IsSound acts).durable.pending_queued

  -- In every interleaving of the threads from an empty database, restarts included, no job was
  -- retried more often than its limit allows (never, where that is negative).
  pub interleave-retries_bounded :
      (acts : List (ℕ × Action)) (k : String) (j : Job)
      → get_job k (interleave fl cfg acts new_system).manager.registry ≡ some j
      → j.retries ≤ pos_part j.max_retries
  unfolding get_job
  interleave-retries_bounded acts = (interleave-IsSound acts).bounded
