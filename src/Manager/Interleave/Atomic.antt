-- ===== src/Manager/Interleave/Atomic.antt =====
-- The threads against the atomic steps of `Manager.Events`: where nothing interrupts a handler or a
-- round, its accesses are its atomic step.
use distributed_ml_training.Base.{
  ℕ, zero, suc, String, ◌≡◌, refl, ap, ◌∙◌, Option, none, some, List, [], ◌∷◌, ◌++◌,
}
use distributed_ml_training.Floats.{Floats}
use distributed_ml_training.Manager.State.{Manager}
use distributed_ml_training.Manager.Events.{
  Event, register, heartbeat, listen, poll, report, logs, submit, schedule, monitor, read_nodes,
  restart, Config, step, run,
}
use distributed_ml_training.Manager.Steps.Alone.{Runs, over, go}
use distributed_ml_training.Manager.Steps.Alone.Scheduler.{scheduler_round-Runs}
use distributed_ml_training.Manager.Steps.Alone.Report.{report_job_status-Runs}
use distributed_ml_training.Manager.Steps.Alone.Submit.{submit_job_rpc-Runs}
use distributed_ml_training.Manager.Steps.Alone.Monitor.{monitor_round-Runs}
use distributed_ml_training.Manager.Interleave.{
  Thread, scheduling, reporting, submitting, monitoring, System, then_at, Action, arrive, resume,
  thread_step, resume_at, arrive_step, action_step, interleave,
}

-- No call is in progress.
abbrev pub quiet : Manager → System
quiet m = record { manager = m; threads = [] }

-- One and the same thread goes on a number of times.
unfoldable pub turns : (n now : ℕ) (ids : ℕ → String) → List (ℕ × Action)
turns zero now ids = []
turns (suc n) now ids = (now, resume 0 ids) ∷ turns n now ids

unfoldable pub next_threads : {A : Type 0} → (A → Thread) → Option A → List Thread
next_threads c none = []
next_threads c (some t) = c t ∷ []

module _ (fl : Floats) (cfg : Config fl) (ids : ℕ → String) (now : ℕ) (ts : List Thread) where
  pub resumed :
      {A : Type 0} (c : A → Thread) (t : Thread) (m : Manager) (r : Manager × Option A)
      → thread_step fl cfg ids now t m ≡ then_at c r
      → resume_at fl cfg ids now 0 (t ∷ ts) m
        ≡ record { manager = r.0; threads = next_threads c r.1 ++ ts }
  unfolding resume_at then_at next_threads
  resumed c t m (m', none) e = rw (e, resume_at) refl
  resumed c t m (m', some t') e = rw (e, resume_at) refl

  -- The first thread goes on until it is over, while the others stand where they are.
  pub alone :
      {A : Type 0} {f : A → Manager → Manager × Option A} {last m : Manager} {o : Option A}
      (c : A → Thread)
      → ((t : A) (m : Manager) → thread_step fl cfg ids now (c t) m ≡ then_at c (f t m))
      → Runs f last o m
      → (n : ℕ) × (interleave fl cfg
            (turns n now ids)
            (record { manager = m; threads = next_threads c o ++ ts })
          ≡ record { manager = last; threads = ts })
  unfolding interleave turns action_step next_threads
  alone c h over = (0, refl)
  alone {f = f} c h (go {t} {m} r) =
      let (n, e) = alone c h r in
      (
        suc n,
        ap (λ (s : System). interleave fl cfg (turns n now ids) s)
              (resumed c (c t) m (f t m) (h t m))
            ∙ e,
      )

module _ (fl : Floats) (cfg : Config fl) where
  -- An event whose handler or round is not interrupted, until it is over.
  abbrev IsAtomic : ℕ → Event → Manager → Type 0
  IsAtomic now e m =
      (ids : ℕ → String) × (n : ℕ) × (interleave fl cfg ((now, arrive e) ∷ turns n now ids)
          (quiet m)
        ≡ quiet (step fl cfg now e m))

  -- From a manager without calls in progress, an event and then some number of turns of the thread
  -- that it starts, none where it starts none, end without calls in progress, in the state that the
  -- atomic step gives.
  pub interleave-turns : (now : ℕ) (e : Event) (m : Manager) → IsAtomic now e m
  unfolding interleave action_step arrive_step step thread_step turns next_threads
  interleave-turns now (report q) m =
      let (n, e) =
        alone fl cfg (λ _. "") now [] reporting (λ t m'. refl) (report_job_status-Runs now q m) in
      (λ _. "", n, e)
  interleave-turns now (submit id q) m =
      let (n, e) =
        alone fl cfg (λ _. "") now [] submitting (λ t m'. refl) (submit_job_rpc-Runs now id q m) in
      (λ _. "", n, e)
  interleave-turns now (schedule ids) m =
      let (n, e) =
        alone fl cfg ids now [] scheduling (λ t m'. refl)
          (scheduler_round-Runs fl cfg.alloc ids now cfg.master_port m) in
      (ids, n, e)
  interleave-turns now monitor m =
      let (n, e) =
        alone fl cfg (λ _. "") now [] monitoring (λ t m'. refl)
          (monitor_round-Runs now cfg.monitor_timeout m) in
      (λ _. "", n, e)
  interleave-turns now restart m = (λ _. "", 0, refl)
  interleave-turns now (register id secret q) m = (λ _. "", 0, refl)
  interleave-turns now (heartbeat q) m = (λ _. "", 0, refl)
  interleave-turns now (listen id) m = (λ _. "", 0, refl)
  interleave-turns now (poll id) m = (λ _. "", 0, refl)
  interleave-turns now (logs es) m = (λ _. "", 0, refl)
  interleave-turns now read_nodes m = (λ _. "", 0, refl)

  pub interleave-append :
      (xs ys : List (ℕ × Action)) (s : System)
      → interleave fl cfg (xs ++ ys) s ≡ interleave fl cfg ys (interleave fl cfg xs s)
  unfolding interleave
  interleave-append [] ys s = refl
  interleave-append ((now, a) ∷ xs) ys s = interleave-append xs ys (action_step fl cfg now a s)

  -- Every run of atomic steps is an interleaving of the threads.
  pub run-interleave :
      (es : List (ℕ × Event)) (m : Manager)
      → (acts : List (ℕ × Action)) × (interleave fl cfg acts (quiet m) ≡ quiet (run fl cfg es m))
  unfolding interleave run
  run-interleave [] m = ([], refl)
  run-interleave ((now, e) ∷ es) m =
      let (ids, n, first) = interleave-turns now e m in
      let (acts, rest) = run-interleave es (step fl cfg now e m) in
      (
        ((now, arrive e) ∷ turns n now ids) ++ acts,
        interleave-append ((now, arrive e) ∷ turns n now ids) acts (quiet m)
            ∙ ap (λ (s : System). interleave fl cfg acts s) first
            ∙ rest,
      )
