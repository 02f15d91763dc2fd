-- ===== src/Manager/Interleave.antt =====
-- The manager as a system of threads that interleave between any two accesses of what they share.
--
-- A call of `ReportJobStatus` or `SubmitJob` starts a thread, and so does a round of the scheduler or
-- of the monitor; the other handlers make one access each, of the parts that matter here, and are
-- one step. There may be any number of threads of each kind, which is more than the code runs.
pub mod Flows
pub mod Waiting
pub mod Atomic
pub mod Retrying
pub mod Kept
pub mod Races
pub mod Drain
use distributed_ml_training.Base.{ℕ, zero, suc, String, Option, none, some, List, [], ◌∷◌, ◌++◌}
use distributed_ml_training.Floats.{Floats}
use distributed_ml_training.Registry.Jobs.{JobDict}
use distributed_ml_training.Manager.State.{Manager}
use distributed_ml_training.Manager.Events.{
  Event, register, heartbeat, listen, poll, report, logs, submit, schedule, monitor, read_nodes,
  restart, Config, step,
}
use distributed_ml_training.Manager.Steps.Scheduling
use distributed_ml_training.Manager.Steps.Scheduling.{SchedulerAt, scheduler_step, scheduler_holds}
use distributed_ml_training.Manager.Steps.Reporting
use distributed_ml_training.Manager.Steps.Reporting.{ReportAt, report_step, report_holds}
use distributed_ml_training.Manager.Steps.Submitting
use distributed_ml_training.Manager.Steps.Submitting.{SubmitAt, submit_step, submit_holds}
use distributed_ml_training.Manager.Steps.Monitoring
use distributed_ml_training.Manager.Steps.Monitoring.{MonitorAt, monitor_step, monitor_holds}

pub data Thread : Type 0 where
  scheduling : SchedulerAt → Thread
  reporting : ReportAt → Thread
  submitting : SubmitAt → Thread
  monitoring : MonitorAt → Thread

pub record System : Type 0 where
  pub manager : Manager
  pub threads : List Thread

-- The jobs that a thread has taken from the queue or not put there yet.
unfoldable pub holds : Thread → List JobDict
unfolding scheduler_holds report_holds submit_holds monitor_holds
holds (scheduling t) = scheduler_holds t
holds (reporting t) = report_holds t
holds (submitting t) = submit_holds t
holds (monitoring t) = monitor_holds t

-- The jobs of the threads and those of the queue.
unfoldable pub waiting : List Thread → List JobDict → List JobDict
unfolding holds
waiting [] q = q
waiting (t ∷ ts) q = holds t ++ waiting ts q

pub data Action : Type 0 where
  -- An event comes.
  arrive : Event → Action
  -- The thread at a position goes on, with the identifiers that it draws.
  resume : (position : ℕ) (ids : ℕ → String) → Action

unfoldable pub then_at : {A : Type 0} → (A → Thread) → Manager × Option A → Manager × Option Thread
then_at f (m, none) = (m, none)
then_at f (m, some t) = (m, some (f t))

module _ (fl : Floats) (cfg : Config fl) where
  unfoldable pub thread_step :
      (ids : ℕ → String) (now : ℕ) → Thread → Manager → Manager × Option Thread
  unfolding scheduler_step report_step submit_step monitor_step
  thread_step ids now (scheduling t) m =
      then_at scheduling (scheduler_step fl cfg.alloc ids now cfg.master_port t m)
  thread_step ids now (reporting t) m = then_at reporting (report_step now t m)
  thread_step ids now (submitting t) m = then_at submitting (submit_step now t m)
  thread_step ids now (monitoring t) m =
      then_at monitoring (monitor_step now cfg.monitor_timeout t m)

  -- A step of one of the threads; nothing where there is none at the position.
  unfoldable pub resume_at : (ids : ℕ → String) (now position : ℕ) → List Thread → Manager → System
  resume_at ids now i [] m = record { manager = m; threads = [] }
  resume_at ids now zero (t ∷ ts) m =
      let (m', next) = thread_step ids now t m in
      record { manager = m'; threads = elim next [ none ↦ ts | some t' ↦ t' ∷ ts ] }
  resume_at ids now (suc i) (t ∷ ts) m =
      let s = resume_at ids now i ts m in record { manager = s.manager; threads = t ∷ s.threads }

  -- The threads end with the process.
  unfoldable pub arrive_step : ℕ → Event → System → System
  unfolding step
  arrive_step now (report q) s = record s { threads = reporting (Reporting.reading q) ∷ s.threads }
  arrive_step now (submit id q) s = record s {
    threads = submitting (Submitting.logging id q) ∷ s.threads;
  }
  arrive_step now (schedule ids) s = record s {
    threads = scheduling Scheduling.popping ∷ s.threads;
  }
  arrive_step now monitor s = record s { threads = monitoring Monitoring.querying ∷ s.threads }
  arrive_step now restart s = record { manager = step fl cfg now restart s.manager; threads = [] }
  arrive_step now e s = record s { manager = step fl cfg now e s.manager }

  unfoldable pub action_step : ℕ → Action → System → System
  action_step now (arrive e) s = arrive_step now e s
  action_step now (resume i ids) s = resume_at ids now i s.threads s.manager

  -- Any interleaving, with the time of each step.
  unfoldable pub interleave : List (ℕ × Action) → System → System
  interleave [] s = s
  interleave ((now, a) ∷ more) s = interleave more (action_step now a s)
