-- ===== src/Manager/Interleave/Races.antt =====
-- dmlf/manager/cluster_manager.py: two reports of a failure of one job that overlap.
use distributed_ml_training.Base.{
  ℕ, zero, suc, ◌+◌, ◌≡◌, refl, sym, ap, ◌∙◌, subst, pos, int_ltb, String, some, List, [], ◌∷◌,
  ◌++◌, length, arith, true, All, All-append, inl, inr,
}
use distributed_ml_training.Floats.{Floats}
use distributed_ml_training.Registry.Schema.{Job}
use distributed_ml_training.Registry.Jobs.{get_job, find_job}
use distributed_ml_training.Registry.Rows.{find_job-In}
use distributed_ml_training.Manager.State.{Manager}
use distributed_ml_training.Manager.Lifecycle.{retried_row}
use distributed_ml_training.Manager.Rpcs.{JobStatusRequest, failure, classify}
use distributed_ml_training.Manager.Events.{Config, report}
use distributed_ml_training.Manager.Steps.Reporting.{reading, logging, report_step}
use distributed_ml_training.Manager.Interleave.{
  reporting, System, then_at, Action, arrive, resume, thread_step, resume_at, arrive_step,
  action_step, interleave,
}
use distributed_ml_training.Manager.Interleave.Retrying.{IsFresh, IsResume, Keeps}
use distributed_ml_training.Manager.Interleave.Kept.{interleave-Keeps}
use distributed_ml_training.Manager.Interleave.Atomic.{
  quiet, turns, next_threads, resumed, interleave-append,
}
use distributed_ml_training.Manager.Interleave.Drain.{interleave-drained}

turns-IsResume : (n now : ℕ) (ids : ℕ → String) → All IsResume (turns n now ids)
unfolding turns
turns-IsResume zero now ids = tt
turns-IsResume (suc n) now ids = (tt, turns-IsResume n now ids)

-- Two reports come, and both handlers read the job.
abbrev pub overlap : (now : ℕ) (p q : JobStatusRequest) → List (ℕ × Action)
overlap now p q =
    (now, arrive (report p))
    ∷ (now, arrive (report q))
    ∷ (now, resume 0 (λ _. ""))
    ∷ (now, resume 1 (λ _. ""))
    ∷ []

module _ (fl : Floats) (cfg : Config fl) (now : ℕ) where
  report_step-failed :
      (q : JobStatusRequest) (j : Job) (m : Manager)
      → classify q.status ≡ failure
      → get_job q.job_id m.registry ≡ some j
      → report_step now (reading q) m ≡ (m, some (logging q j))
  unfolding report_step
  report_step-failed q j m c found = rw (c, found, report_step) refl

  -- Both have read the job.
  abbrev both_read : (p q : JobStatusRequest) → Job → Manager → System
  both_read p q j m = record {
    manager = m;
    threads = reporting (logging q j) ∷ reporting (logging p j) ∷ [];
  }

  reads :
      (p q : JobStatusRequest) (j : Job) (m : Manager)
      → report_step now (reading p) m ≡ (m, some (logging p j))
      → report_step now (reading q) m ≡ (m, some (logging q j))
      → interleave fl cfg (overlap now p q) (quiet m) ≡ both_read p q j m
  unfolding interleave action_step arrive_step resume_at thread_step next_threads
  reads p q j m at_p at_q =
      let others = reporting (logging q j) in
      ap (λ (s : System). action_step fl cfg now (resume 1 (λ _. "")) s)
        (resumed fl cfg (λ _. "") now (reporting (reading p) ∷ []) reporting (reporting (reading q))
          m (m, some (logging q j)) (ap (then_at reporting) at_q))
      ∙ ap (λ (s : System). record { manager = s.manager; threads = others ∷ s.threads })
          (resumed fl cfg (λ _. "") now [] reporting (reporting (reading p)) m
            (m, some (logging p j)) (ap (then_at reporting) at_p))

  -- What has become of the job, the queue and the counter.
  abbrev Doubled : Job → (m m' : Manager) → Type 0
  Doubled j m m' =
      (get_job j.job_id m'.registry ≡ some (retried_row (j.retries + 1) j))
      × (length m'.queue ≡ length m.queue + 2)
      × (m'.job_retries ≡ m.job_retries + 2)

  Keeps-Doubled :
      (p q : JobStatusRequest) (j : Job) (m m' : Manager)
      → IsFresh j m
      → Keeps j m (both_read p q j m).threads m' []
      → Doubled j m m'
  unfolding get_job
  Keeps-Doubled p q j m m' fresh k = (
    elim (k.fresh fresh) [ inl (still, same) ↦ absurd (omega (arith, same)) | inr done ↦ done ],
    omega (arith, k.entries),
    omega (arith, k.counts),
  )

  -- Where two reports of a failure of one job that has retries left come, and both handlers read the
  -- job before either does anything else, then however the two go on, as long as nothing else comes,
  -- they can be brought to their end; and at their end the job has lost one retry, but is queued twice
  -- and counted as retried twice.
  pub overlapping_failures :
      (p q : JobStatusRequest) (j : Job) (m : Manager) (more : List (ℕ × Action))
      → classify p.status ≡ failure
      → classify q.status ≡ failure
      → get_job p.job_id m.registry ≡ some j
      → get_job q.job_id m.registry ≡ some j
      → int_ltb (pos j.retries) j.max_retries ≡ true
      → All IsResume more
      → (n : ℕ) × (m' : Manager) × (interleave fl cfg
            (overlap now p q ++ more ++ turns n now (λ _. ""))
            (quiet m)
          ≡ quiet m')
        × (get_job j.job_id m'.registry ≡ some (retried_row (j.retries + 1) j))
        × (length m'.queue ≡ length m.queue + 2)
        × (m'.job_retries ≡ m.job_retries + 2)
  unfolding get_job
  overlapping_failures p q j m more cp cq fp fq room only =
      let named = (find_job-In p.job_id m.registry.jobs j fp).1 in
      let found = subst (λ (k : String). find_job k m.registry.jobs ≡ some j) (sym named) fp in
      let s = both_read p q j m in
      let (n, m', ends) = interleave-drained fl cfg (λ _. "") now (interleave fl cfg more s) in
      let rest = more ++ turns n now (λ _. "") in
      let ended : interleave fl cfg rest s ≡ quiet m' =
        interleave-append fl cfg more (turns n now (λ _. "")) s ∙ ends in
      let kept : Keeps j m s.threads m' [] =
        subst (λ (x : System). Keeps j m s.threads x.manager x.threads) ended
          (interleave-Keeps j fl cfg room rest s
            (All-append IsResume more _ only (turns-IsResume n now (λ _. "")))
            (refl, (refl, tt))) in
      let (row, queued, counted) = Keeps-Doubled p q j m m' found kept in
      (
        n,
        m',
        interleave-append fl cfg (overlap now p q) rest (quiet m)
            ∙ ap (λ (x : System). interleave fl cfg rest x)
                (reads p q j m (report_step-failed p j m cp fp) (report_step-failed q j m cq fq))
            ∙ ended,
        row,
        queued,
        counted,
      )
