-- ===== src/Manager/Interleave/Retrying.antt =====
-- dmlf/manager/cluster_manager.py: threads in `ReportJobStatus` that retry one job.
use distributed_ml_training.Base.{
  ℕ, ◌+◌, ◌≡◌, refl, ◌∙◌, pos, int_ltb, some, List, [], ◌∷◌, ◌++◌, length, arith, eq_iff, true,
  length-snoc, All, ◌⊎◌, inl, inr,
}
use distributed_ml_training.Sort.Laws.{length-sort_desc}
use distributed_ml_training.Registry.Schema.{Job}
use distributed_ml_training.Registry.Nodes.{update_node_state}
use distributed_ml_training.Registry.Jobs.{update_job_retries, find_job}
use distributed_ml_training.Registry.Rows.{find_job-update_job}
use distributed_ml_training.Queue.{key_lt}
use distributed_ml_training.Manager.State.{Manager, write_log, inc_job_retries}
use distributed_ml_training.Manager.Lifecycle.{retried_row}
use distributed_ml_training.Manager.Lifecycle.Invariants.{retried_row-KeepsId}
use distributed_ml_training.Manager.Steps.{write_retry, enqueue}
use distributed_ml_training.Manager.Steps.Reporting.{
  ReportAt, reading, logging, freeing, retrying, enqueueing, counting_retry, failing, completing,
  releasing, leaving, counting, observing, report_step,
}
use distributed_ml_training.Manager.Interleave.{Thread, reporting, Action, arrive, resume}
use distributed_ml_training.Manager.Interleave.Atomic.{next_threads}

module _ (j : Job) where
  -- A thread on its way through a retry of the job as it was read.
  abbrev pub IsRetrying : ReportAt → Type 0
  IsRetrying (logging q k) = k ≡ j
  IsRetrying (freeing q k) = k ≡ j
  IsRetrying (retrying k) = k ≡ j
  IsRetrying (enqueueing d) = Unit
  IsRetrying counting_retry = Unit
  IsRetrying _ = ⊥

  abbrev pub IsRetryThread : Thread → Type 0
  IsRetryThread (reporting t) = IsRetrying t
  IsRetryThread _ = ⊥

  -- The row of the job: as it was read, or with a retry of that.
  abbrev pub IsFresh : Manager → Type 0
  IsFresh m = find_job j.job_id m.registry.jobs ≡ some j

  abbrev pub IsWritten : Manager → Type 0
  IsWritten m = find_job j.job_id m.registry.jobs ≡ some (retried_row (j.retries + 1) j)

-- One of the threads goes on, and nothing else comes.
abbrev pub IsResume : ℕ × Action → Type 0
IsResume (now, resume i ids) = Unit
IsResume (now, arrive e) = ⊥

-- What the threads have still to do: the writes of the row, the entries of the queue and the counts.
abbrev pub writes_left : Thread → ℕ
writes_left (reporting (logging q k)) = 1
writes_left (reporting (freeing q k)) = 1
writes_left (reporting (retrying k)) = 1
writes_left _ = 0

abbrev pub entries_left : Thread → ℕ
entries_left (reporting (enqueueing d)) = 1
entries_left t = writes_left t

abbrev pub counts_left : Thread → ℕ
counts_left (reporting counting_retry) = 1
counts_left t = entries_left t

abbrev pub total : (Thread → ℕ) → List Thread → ℕ
total f [] = 0
total f (t ∷ ts) = f t + total f ts

-- What steps of such threads keep.
pub record Keeps (j : Job) (m : Manager) (ts : List Thread) (m' : Manager) (ts' : List Thread)
    : Type 0 where
  pub retry : All (IsRetryThread j) ts'
  pub entries : length m'.queue + total entries_left ts' ≡ length m.queue + total entries_left ts
  pub counts : m'.job_retries + total counts_left ts' ≡ m.job_retries + total counts_left ts
  pub written : IsWritten j m → IsWritten j m'
  pub fresh :
      IsFresh j m → IsFresh j m' × (total writes_left ts' ≡ total writes_left ts) ⊎ IsWritten j m'

module _ (j : Job) where
  written_row :
      (x : Job) (m : Manager)
      → find_job j.job_id m.registry.jobs ≡ some x
      → find_job j.job_id (write_retry j m).registry.jobs ≡ some (retried_row (j.retries + 1) x)
  unfolding write_retry update_job_retries
  written_row x m found =
      find_job-update_job (retried_row (j.retries + 1)) (retried_row-KeepsId (j.retries + 1))
        j.job_id j.job_id m.registry.jobs
      ∙ ground (arith, eq_iff j.job_id j.job_id)

  rewritten :
      (k : Job)
      → k ≡ j
      → (x : Job) (m : Manager) → find_job j.job_id m.registry.jobs ≡ some x
      → find_job j.job_id (write_retry k m).registry.jobs ≡ some (retried_row (j.retries + 1) x)
  rewritten k e x m found = rw e (written_row x m found)

  pub report_step-Keeps :
      (now : ℕ) (t : ReportAt) (m : Manager)
      → int_ltb (pos j.retries) j.max_retries ≡ true
      → IsRetrying j t
      → let r = report_step now t m in Keeps j m (reporting t ∷ []) r.0 (next_threads reporting r.1)
  unfolding report_step next_threads write_log update_node_state enqueue inc_job_retries write_retry
      update_job_retries
  report_step-Keeps now (logging q k) m room e =
      let room_of_k : int_ltb (pos k.retries) k.max_retries ≡ true = rw e room in
      rw (room_of_k, report_step)
        (record {
          retry = (e, tt);
          entries = refl;
          counts = refl;
          written = λ h. h;
          fresh = λ h. inl (h, refl);
        })
  report_step-Keeps now (freeing q k) m room e = record {
    retry = (e, tt);
    entries = refl;
    counts = refl;
    written = λ h. h;
    fresh = λ h. inl (h, refl);
  }
  report_step-Keeps now (retrying k) m room e = record {
    retry = (tt, tt);
    entries = refl;
    counts = refl;
    written = λ h. rewritten k e (retried_row (j.retries + 1) j) m h;
    fresh = λ h. inr (rewritten k e j m h);
  }
  report_step-Keeps now (enqueueing d) m room e = record {
    retry = (tt, tt);
    entries = omega (arith, length-sort_desc key_lt (m.queue ++ d ∷ []), length-snoc m.queue d);
    counts = refl;
    written = λ h. h;
    fresh = λ h. inl (h, refl);
  }
  report_step-Keeps now counting_retry m room e = record {
    retry = tt;
    entries = refl;
    counts = omega arith;
    written = λ h. h;
    fresh = λ h. inl (h, refl);
  }
  report_step-Keeps now (reading _) m room e = elim e [ ]
  report_step-Keeps now (failing _) m room e = elim e [ ]
  report_step-Keeps now (completing _) m room e = elim e [ ]
  report_step-Keeps now (releasing _) m room e = elim e [ ]
  report_step-Keeps now (leaving _) m room e = elim e [ ]
  report_step-Keeps now (counting _) m room e = elim e [ ]
  report_step-Keeps now (observing _) m room e = elim e [ ]
