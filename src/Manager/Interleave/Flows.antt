-- ===== src/Manager/Interleave/Flows.antt =====
-- Every step of the threads is a flow of the jobs that wait.
use mathlib.Core.List.Perm
use mathlib.Core.List.{Perm, append_assoc, perm_append_comm}
use distributed_ml_training.Base.{
  ℕ, zero, suc, String, ◌≡◌, refl, sym, subst, Option, none, some, List, [], ◌∷◌, ◌++◌, All,
  Distinct,
}
use distributed_ml_training.Floats.{Floats}
use distributed_ml_training.Registry.Schema.{Job}
use distributed_ml_training.Registry.Rows.{job_ids}
use distributed_ml_training.Registry.Jobs.{JobDict}
use distributed_ml_training.Manager.State.{Manager}
use distributed_ml_training.Manager.Events.{Config}
use distributed_ml_training.Manager.Lifecycle.{JobView, view}
use distributed_ml_training.Manager.Lifecycle.Pool.{
  Flow, moved, hold, with_queue, Flow-moved, Flow-hold, Flows, stay, go_on,
}
use distributed_ml_training.Manager.Steps.Goes.{Goes, next_holds, NextKnows}
use distributed_ml_training.Manager.Steps.Goes.Scheduler.{scheduler_step-Goes}
use distributed_ml_training.Manager.Steps.Goes.Report.{
  ReportKnows, report_step-Goes, Flow-ReportKnows,
}
use distributed_ml_training.Manager.Steps.Goes.Submit.{submit_step-Goes}
use distributed_ml_training.Manager.Steps.Goes.Monitor.{
  MonitorKnows, monitor_step-Goes, Flow-MonitorKnows,
}
use distributed_ml_training.Manager.Interleave.{
  Thread, scheduling, reporting, submitting, monitoring, System, holds, waiting, then_at,
  thread_step, resume_at,
}

-- What a thread knows of the jobs that it has read.
unfoldable pub Knows : List Job → Thread → Type 0
unfolding ReportKnows MonitorKnows
Knows js (scheduling t) = Unit
Knows js (reporting t) = ReportKnows js t
Knows js (submitting t) = Unit
Knows js (monitoring t) = MonitorKnows js t

Flow-Knows : {v w : JobView} (t : Thread) → Flow v w → Knows v.rows t → Knows w.rows t
unfolding Knows
Flow-Knows (scheduling t) f k = tt
Flow-Knows (reporting t) f k = Flow-ReportKnows t f k
Flow-Knows (submitting t) f k = tt
Flow-Knows (monitoring t) f k = Flow-MonitorKnows t f k

Flow-All-Knows :
    {v w : JobView} (ts : List Thread) → Flow v w → All (Knows v.rows) ts → All (Knows w.rows) ts
Flow-All-Knows [] f k = tt
Flow-All-Knows (t ∷ ts) f k = (Flow-Knows t f k.0, Flow-All-Knows ts f k.1)

pub Flows-All-Knows :
    {w v : JobView} (ts : List Thread) → Flows w v → All (Knows v.rows) ts → All (Knows w.rows) ts
Flows-All-Knows ts stay k = k
Flows-All-Knows ts (go_on f fs) k = Flows-All-Knows ts fs (Flow-All-Knows ts f k)

-- The rows and all jobs that wait.
abbrev pub pool : System → JobView
pool s = record { rows = s.manager.registry.jobs; queue = waiting s.threads s.manager.queue }

then_at-Goes :
    {A : Type 0} {f : A → List JobDict} {K : List Job → A → Type 0} {v : JobView} (c : A → Thread)
    (r : Manager × Option A)
    → ((t : A) → holds (c t) ≡ f t)
    → ((js : List Job) (t : A) → K js t → Knows js (c t))
    → Goes f K v r
    → Goes holds Knows v (then_at c r)
unfolding then_at next_holds NextKnows
then_at-Goes c (m, none) e k g = g
then_at-Goes {v} c (m, some t) e k (f, known) = (
  subst (λ (l : List JobDict). Flow v (hold l (view m.jobs))) (sym (e t)) f,
  k m.registry.jobs t known,
)

module _ (fl : Floats) (cfg : Config fl) where
  thread_step-Goes :
      (ids : ℕ → String) (now : ℕ) (t : Thread) (m : Manager)
      → Distinct (job_ids m.registry.jobs)
      → Knows m.registry.jobs t
      → Goes holds Knows (hold (holds t) (view m.jobs)) (thread_step fl cfg ids now t m)
  unfolding thread_step holds Knows
  thread_step-Goes ids now (scheduling t) m d k =
      then_at-Goes scheduling _ (λ x. refl) (λ js x h. h)
        (scheduler_step-Goes fl cfg.alloc ids now cfg.master_port t m)
  thread_step-Goes ids now (reporting t) m d k =
      then_at-Goes reporting _ (λ x. refl) (λ js x h. h) (report_step-Goes now t m k)
  thread_step-Goes ids now (submitting t) m d k =
      then_at-Goes submitting _ (λ x. refl) (λ js x h. h) (submit_step-Goes now t m)
  thread_step-Goes ids now (monitoring t) m d k =
      then_at-Goes monitoring _ (λ x. refl) (λ js x h. h)
        (monitor_step-Goes now cfg.monitor_timeout t m d k)

-- A flow goes on beside the jobs of other threads.
Flow-waiting :
    {v w : JobView} (ts : List Thread)
    → Flow v w
    → Flow (with_queue (waiting ts v.queue) v) (with_queue (waiting ts w.queue) w)
unfolding waiting
Flow-waiting [] f = f
Flow-waiting (t ∷ ts) f = Flow-hold (holds t) (Flow-waiting ts f)

pub Flows-waiting :
    {w v : JobView} (ts : List Thread)
    → Flows w v
    → Flows (with_queue (waiting ts w.queue) w) (with_queue (waiting ts v.queue) v)
Flows-waiting ts stay = stay
Flows-waiting ts (go_on f fs) = go_on (Flow-waiting ts f) (Flows-waiting ts fs)

-- The jobs of one thread may stand before or behind those of the others.
waiting-Perm :
    (held : List JobDict) (ts : List Thread) (q : List JobDict)
    → Perm (held ++ waiting ts q) (waiting ts (held ++ q))
unfolding waiting
waiting-Perm held [] q = Perm.refl (held ++ q)
waiting-Perm held (t ∷ ts) q =
    Perm.trans
      (subst (λ (l : List JobDict). Perm (held ++ (holds t ++ waiting ts q)) l)
        (append_assoc (holds t) held (waiting ts q))
        (subst (λ (l : List JobDict). Perm l ((holds t ++ held) ++ waiting ts q))
          (append_assoc held (holds t) (waiting ts q))
          (Perm.append_right (waiting ts q) (perm_append_comm held (holds t)))))
      (Perm.append_left (holds t) (waiting-Perm held ts q))

module _ (fl : Floats) (cfg : Config fl) (ids : ℕ → String) (now : ℕ) where
  -- The pool and the knowledge after a step of one of the threads.
  abbrev Resumed : ℕ → List Thread → Manager → Type 0
  Resumed i ts m =
      Flow (pool (record { manager = m; threads = ts })) (pool (resume_at fl cfg ids now i ts m))
      × All (Knows (resume_at fl cfg ids now i ts m).manager.registry.jobs)
          (resume_at fl cfg ids now i ts m).threads

  first-Resumed :
      (ts : List Thread) (t : Thread) (m : Manager) (r : Manager × Option Thread)
      → thread_step fl cfg ids now t m ≡ r
      → Goes holds Knows (hold (holds t) (view m.jobs)) r
      → All (Knows m.registry.jobs) ts
      → Resumed zero (t ∷ ts) m
  unfolding resume_at waiting next_holds NextKnows
  first-Resumed ts t m (m', none) e (f, k) ks =
      rw (e, resume_at)
        (
          Flow-moved (Flow-waiting ts f) (waiting-Perm (holds t) ts m.queue)
              (Perm.refl (waiting ts m'.queue)),
          Flow-All-Knows ts f ks,
        )
  first-Resumed ts t m (m', some t') e (f, k) ks =
      rw (e, resume_at)
        (
          Flow-moved (Flow-waiting ts f) (waiting-Perm (holds t) ts m.queue)
              (waiting-Perm (holds t') ts m'.queue),
          (k, Flow-All-Knows ts f ks),
        )

  pub resume_at-Resumed :
      (i : ℕ) (ts : List Thread) (m : Manager)
      → Distinct (job_ids m.registry.jobs)
      → All (Knows m.registry.jobs) ts
      → Resumed i ts m
  unfolding resume_at waiting
  resume_at-Resumed i [] m d k = (moved refl (Perm.refl m.queue), tt)
  resume_at-Resumed zero (t ∷ ts) m d k =
      first-Resumed ts t m (thread_step fl cfg ids now t m) refl
        (thread_step-Goes fl cfg ids now t m d k.0) k.1
  resume_at-Resumed (suc i) (t ∷ ts) m d k =
      let (f, ks) = resume_at-Resumed i ts m d k.1 in
      (Flow-hold (holds t) f, (Flow-Knows t f k.0, ks))
