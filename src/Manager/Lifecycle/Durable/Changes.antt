-- ===== src/Manager/Lifecycle/Durable/Changes.antt =====
-- dmlf/manager/queue.py: the agreement of the database and the queue under each change.
use mathlib.Core.Logic.Or
use mathlib.Core.List.Perm
use mathlib.Core.List.{Perm, Mem, Mem-prop, mem-cons, mem-cons_of_mem, mem-cast}
use distributed_ml_training.Base.{
  ℕ, ◌+◌, ℤ, ◌≡◌, ◌≢◌, refl, sym, ◌∙◌, subst, inl, inr, none, some, List, [], ◌∷◌, ◌++◌, String,
  eq_iff, arith,
}
use distributed_ml_training.Registry.JobState
use distributed_ml_training.Registry.Schema.{Job}
use distributed_ml_training.Registry.Jobs.{
  JobDict, dict_of_row, row_of_dict, update_job, set_status, find_job,
}
use distributed_ml_training.Registry.Rows.{find_job-In}
use distributed_ml_training.Queue.Order.{as_pending, as_retried}
use distributed_ml_training.Manager.Lifecycle.{JobView, retried_row}
use distributed_ml_training.Manager.Lifecycle.Pool.{
  Flow, arrived, returned, ended, left, moved, recovered,
}
use distributed_ml_training.Manager.Lifecycle.Invariants.{
  retried_row-KeepsId, set_status-KeepsId, set_status-fields, snoc-Rows,
}
use distributed_ml_training.Manager.Lifecycle.Durable.{
  queue_ids, IsDurable, moved-queue_ids, update-PendingIn, update-present, snoc-present, added-old,
  added-new, added-Stored, present_of_some, ended-not_pending,
}
use distributed_ml_training.Manager.Lifecycle.Durable.Restart.{recovered-IsDurable}

arrived-IsDurable :
    {v w : JobView} (now : ℕ) (d : JobDict)
    → w.rows ≡ v.rows ++ row_of_dict now (as_pending d) ∷ []
    → Perm w.queue (as_pending d ∷ v.queue)
    → IsDurable v
    → IsDurable w
unfolding row_of_dict
arrived-IsDurable {v} {w} now d e q h =
    let n = row_of_dict now (as_pending d) in
    record {
      pending_queued = rw e (λ k j found p.
          subst (λ (x : String). Mem x (queue_ids w.queue)) (found_key k (v.rows ++ n ∷ []) j found)
            (snoc-Rows (λ x. x.status ≡ JobState.pending → Mem x.job_id (queue_ids w.queue)) v.rows
              n (λ _. added-new q)
              (λ i x at p'.
                added-old q (mem-cast (found_key i v.rows x at) (h.pending_queued i x at p')))
              k j found p));
      queued_stored = rw e (
          added-Stored q (v.rows ++ n ∷ [])
            (λ x m. snoc-present x.job_id v.rows n (inl (h.queued_stored x m)))
            (snoc-present d.job_id v.rows n (inr refl)));
    }
  where
    found_key : (k : String) (js : List Job) (j : Job) → find_job k js ≡ some j → j.job_id ≡ k
    found_key k js j f = (find_job-In k js j f).1

ended-IsDurable :
    {v w : JobView} (now : ℕ) (id s : String) (code : ℤ)
    → s ≢ JobState.pending
    → w.rows ≡ update_job id (set_status now s none (some code)) v.rows
    → Perm w.queue v.queue
    → IsDurable v
    → IsDurable w
ended-IsDurable {v} {w} now id s code final e q h =
    let f = set_status now s none (some code) in
    let keeps = set_status-KeepsId now s none (some code) in
    record {
      pending_queued = rw e (
          update-PendingIn (λ k. Mem k (queue_ids v.queue)) (λ k. Mem k (queue_ids w.queue)) f keeps
            id v.rows
            (λ x _ p. absurd (final (sym (set_status-fields now s none (some code) x).2 ∙ p)))
            (λ k _ m. moved-queue_ids q m) h.pending_queued);
      queued_stored = rw e (λ d m.
          update-present f keeps id d.job_id v.rows (h.queued_stored d (Perm.subset q d m)));
    }

left-IsDurable :
    {v w : JobView} (now : ℕ) (d : JobDict) (nodes : List String)
    → Perm v.queue (d ∷ w.queue)
    → w.rows ≡ update_job d.job_id (set_status now JobState.running (some nodes) none) v.rows
    → IsDurable v
    → IsDurable w
left-IsDurable {v} {w} now d nodes q e h =
    let f = set_status now JobState.running (some nodes) none in
    let keeps = set_status-KeepsId now JobState.running (some nodes) none in
    record {
      pending_queued = rw e (
          update-PendingIn (λ k. Mem k (queue_ids v.queue)) (λ k. Mem k (queue_ids w.queue)) f keeps
            d.job_id v.rows
            (λ x _ p. absurd (
              running-not_pending
                (sym (set_status-fields now JobState.running (some nodes) none x).2 ∙ p)))
            (λ k differs m.
              Or.elim Mem-prop (mem-cons.0 (moved-queue_ids (Perm.symm q) m))
                (λ same. absurd (ground (arith, eq_iff d.job_id k))) (λ later. later))
            h.pending_queued);
      queued_stored = rw e (λ x m.
          update-present f keeps d.job_id x.job_id v.rows
            (h.queued_stored x (Perm.subset (Perm.symm q) x (mem-cons_of_mem d m))));
    }
  where
    running-not_pending : ◌≢◌ {A = String} JobState.running JobState.pending
    running-not_pending p = ground (arith, eq_iff "RUNNING" "PENDING")

returned-IsDurable :
    {v w : JobView} (j : Job)
    → find_job j.job_id v.rows ≢ none
    → w.rows ≡ update_job j.job_id (retried_row (j.retries + 1)) v.rows
    → Perm w.queue (as_retried (dict_of_row j) ∷ v.queue)
    → IsDurable v
    → IsDurable w
unfolding dict_of_row
returned-IsDurable {v} {w} j found e q h =
    let n = j.retries + 1 in
    record {
      pending_queued = rw e (
          update-PendingIn (λ k. Mem k (queue_ids v.queue)) (λ k. Mem k (queue_ids w.queue))
            (retried_row n) (retried_row-KeepsId n) j.job_id v.rows (λ x _ _. added-new q)
            (λ k _ m. added-old q m) h.pending_queued);
      queued_stored = rw e (
          added-Stored q (update_job j.job_id (retried_row n) v.rows)
            (λ x m.
              update-present (retried_row n) (retried_row-KeepsId n) j.job_id x.job_id v.rows
                (h.queued_stored x m))
            (update-present (retried_row n) (retried_row-KeepsId n) j.job_id j.job_id v.rows
              found));
    }

moved-IsDurable :
    {v w : JobView} → w.rows ≡ v.rows → Perm w.queue v.queue → IsDurable v → IsDurable w
moved-IsDurable e q h = record {
  pending_queued = rw e (λ k j found p. moved-queue_ids q (h.pending_queued k j found p));
  queued_stored = rw e (λ d m. h.queued_stored d (Perm.subset q d m));
}

-- Every job whose row is PENDING is in the bag, and every job of the bag has a row.
pub Flow-IsDurable : {v w : JobView} → Flow v w → IsDurable v → IsDurable w
Flow-IsDurable (arrived now d absent fresh e q) h = arrived-IsDurable now d e q h
Flow-IsDurable {v} (returned j x found same room e q) h =
    returned-IsDurable j (present_of_some j.job_id v.rows found) e q h
Flow-IsDurable (ended now id s code final e q) h =
    ended-IsDurable now id s code (ended-not_pending s final) e q h
Flow-IsDurable (left now d nodes some_nodes q e) h = left-IsDurable now d nodes q e h
Flow-IsDurable (moved e q) h = moved-IsDurable e q h
Flow-IsDurable {v} (recovered kept waits e q) h =
    recovered-IsDurable v.rows kept (λ d m. h.queued_stored d (waits d m)) e q
