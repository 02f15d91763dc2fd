-- ===== src/Manager/Interleave/Kept.antt =====
-- dmlf/manager/cluster_manager.py: threads in `ReportJobStatus` that retry one job, however they interleave.
use distributed_ml_training.Base.{
  ℕ, zero, suc, ◌+◌, ◌≡◌, refl, ap, ◌∙◌, pos, int_ltb, String, Option, none, some, List, [], ◌∷◌,
  arith, true, All, inl, inr,
}
use distributed_ml_training.Floats.{Floats}
use distributed_ml_training.Registry.Schema.{Job}
use distributed_ml_training.Manager.State.{Manager}
use distributed_ml_training.Manager.Events.{Config}
use distributed_ml_training.Manager.Steps.Reporting.{ReportAt, report_step}
use distributed_ml_training.Manager.Interleave.{
  Thread, scheduling, reporting, submitting, monitoring, System, then_at, Action, arrive, resume,
  thread_step, resume_at, action_step, interleave,
}
use distributed_ml_training.Manager.Interleave.Retrying.{
  IsRetryThread, IsResume, Keeps, writes_left, report_step-Keeps,
}
use distributed_ml_training.Manager.Interleave.Atomic.{next_threads}

module _ (j : Job) where
  -- One of the threads makes a step, behind others.
  behind :
      (t : Thread) (m : Manager) (ts : List Thread) (m' : Manager) (ts' : List Thread)
      → IsRetryThread j t
      → Keeps j m ts m' ts'
      → Keeps j m (t ∷ ts) m' (t ∷ ts')
  behind t m ts m' ts' r k = record {
    retry = (r, k.retry);
    entries = omega (arith, k.entries);
    counts = omega (arith, k.counts);
    written = k.written;
    fresh = λ h. elim (k.fresh h) [
      | inl (still, same) ↦ inl (still, ap (λ (n : ℕ). writes_left t + n) same)
      | inr done ↦ inr done
    ];
  }

  -- And before others.
  before :
      (t : Thread) (m : Manager) (ts : List Thread) (m' : Manager) (o : Option Thread)
      → All (IsRetryThread j) ts
      → Keeps j m (t ∷ []) m' (elim o [ none ↦ [] | some t' ↦ t' ∷ [] ])
      → Keeps j m (t ∷ ts) m' (elim o [ none ↦ ts | some t' ↦ t' ∷ ts ])
  before t m ts m' none rs k = record {
    retry = rs;
    entries = omega (arith, k.entries);
    counts = omega (arith, k.counts);
    written = k.written;
    fresh = λ h. elim (k.fresh h) [
      | inl (still, same) ↦ inl (still, omega (arith, same))
      | inr done ↦ inr done
    ];
  }
  before t m ts m' (some t') rs k = record {
    retry = (k.retry.0, rs);
    entries = omega (arith, k.entries);
    counts = omega (arith, k.counts);
    written = k.written;
    fresh = λ h. elim (k.fresh h) [
      | inl (still, same) ↦ inl (still, omega (arith, same))
      | inr done ↦ inr done
    ];
  }

  Keeps-refl : (m : Manager) (ts : List Thread) → All (IsRetryThread j) ts → Keeps j m ts m ts
  Keeps-refl m ts rs = record {
    retry = rs;
    entries = refl;
    counts = refl;
    written = λ h. h;
    fresh = λ h. inl (h, refl);
  }

  Keeps-trans :
      {m m₁ m₂ : Manager} {ts ts₁ ts₂ : List Thread}
      → Keeps j m ts m₁ ts₁
      → Keeps j m₁ ts₁ m₂ ts₂
      → Keeps j m ts m₂ ts₂
  Keeps-trans a b = record {
    retry = b.retry;
    entries = b.entries ∙ a.entries;
    counts = b.counts ∙ a.counts;
    written = λ h. b.written (a.written h);
    fresh = λ h. elim (a.fresh h) [
      | inr done ↦ inr (b.written done)
      | inl (still, same) ↦ elim (b.fresh still) [
        | inr done ↦ inr done
        | inl (again, same') ↦ inl (again, same' ∙ same)
      ]
    ];
  }

  at_report :
      (ts : List Thread) (m : Manager) (r : Manager × Option ReportAt)
      → Keeps j m ts r.0 (next_threads reporting r.1)
      → Keeps j m ts
          (then_at reporting r).0
          (elim (then_at reporting r).1 [ none ↦ [] | some t' ↦ t' ∷ [] ])
  unfolding then_at next_threads
  at_report ts m (m', none) k = k
  at_report ts m (m', some t') k = k

  module _ (fl : Floats) (cfg : Config fl)
      (room : int_ltb (pos j.retries) j.max_retries ≡ true) where
    thread_step-Keeps :
        (ids : ℕ → String) (now : ℕ) (t : Thread) (m : Manager)
        → IsRetryThread j t
        → let r = thread_step fl cfg ids now t m in
          Keeps j m (t ∷ []) r.0 (elim r.1 [ none ↦ [] | some t' ↦ t' ∷ [] ])
    unfolding thread_step
    thread_step-Keeps ids now (reporting t) m r =
        at_report (reporting t ∷ []) m (report_step now t m) (report_step-Keeps j now t m room r)
    thread_step-Keeps ids now (scheduling t) m r = elim r [ ]
    thread_step-Keeps ids now (submitting t) m r = elim r [ ]
    thread_step-Keeps ids now (monitoring t) m r = elim r [ ]

    resume_at-Keeps :
        (ids : ℕ → String) (now i : ℕ) (ts : List Thread) (m : Manager)
        → All (IsRetryThread j) ts
        → let s = resume_at fl cfg ids now i ts m in Keeps j m ts s.manager s.threads
    unfolding resume_at
    resume_at-Keeps ids now i [] m rs = Keeps-refl m [] tt
    resume_at-Keeps ids now zero (t ∷ ts) m rs =
        before t m ts _ _ rs.1 (thread_step-Keeps ids now t m rs.0)
    resume_at-Keeps ids now (suc i) (t ∷ ts) m rs =
        behind t m ts _ _ rs.0 (resume_at-Keeps ids now i ts m rs.1)

    pub interleave-Keeps :
        (more : List (ℕ × Action)) (s : System)
        → All IsResume more
        → All (IsRetryThread j) s.threads
        → let s' = interleave fl cfg more s in Keeps j s.manager s.threads s'.manager s'.threads
    unfolding interleave action_step
    interleave-Keeps [] s only rs = Keeps-refl s.manager s.threads rs
    interleave-Keeps ((now, resume i ids) ∷ more) s only rs =
        let first = resume_at-Keeps ids now i s.threads s.manager rs in
        Keeps-trans first (
          interleave-Keeps more (resume_at fl cfg ids now i s.threads s.manager) only.1 first.retry)
    interleave-Keeps ((now, arrive e) ∷ more) s only rs = absurd only.0
