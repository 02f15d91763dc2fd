-- ===== src/Manager/Lifecycle/Durable/Restart.antt =====
-- dmlf/manager/queue.py: the agreement of the database and the queue after a restart.
use mathlib.Core.HLevel.{Π_prop, ⊥_prop}
use mathlib.Core.Logic.Or
use mathlib.Core.Logic.{∥∥₁_elim}
use mathlib.Core.List.Perm
use mathlib.Core.List.{
  Perm, Mem, Mem-prop, mem-append, mem-append_right, mem-cons, mem-cons_self, mem-cons_of_mem,
  mem-map_of_mem, mem-cast, exists_of_mem-map, not-mem-nil,
}
use distributed_ml_training.Base.{
  ◌≡◌, ◌≢◌, sym, subst, inl, inr, none, some, List, [], ◌∷◌, ◌++◌, map, keep, Bool, true, false,
  ◌==◌, eq_iff, eq_refl, In, In-keep_of, arith, if◌then◌else◌,
}
use distributed_ml_training.Sort.Laws.{sort_desc-perm}
use distributed_ml_training.Registry.JobState
use distributed_ml_training.Registry.Schema.{Job}
use distributed_ml_training.Registry.Jobs.{JobDict, dict_of_row, find_job, has_status}
use distributed_ml_training.Registry.Rows.{find_job-In}
use distributed_ml_training.Queue.{key_lt}
use distributed_ml_training.Manager.Lifecycle.{JobView, rebuilt}
use distributed_ml_training.Manager.Lifecycle.Durable.{IsDurable, Stored}

In-Mem : (j : Job) (js : List Job) → In j js → Mem j js
In-Mem j [] m = elim m [ ]
In-Mem j (x ∷ xs) (inl e) = mem-cast e mem-cons_self
In-Mem j (x ∷ xs) (inr m) = mem-cons_of_mem x (In-Mem j xs m)

mem_of_mem-keep : (p : Job → Bool) (j : Job) (js : List Job) → Mem j (keep p js) → Mem j js
mem_of_mem-keep p j [] m = m
mem_of_mem-keep p j (x ∷ xs) m = go (λ m'. mem-cons_of_mem x (mem_of_mem-keep p j xs m')) (p x) m
  where
    go :
        (Mem j (keep p xs) → Mem j (x ∷ xs))
        → (b : Bool) → Mem j (if b then x ∷ keep p xs else keep p xs)
        → Mem j (x ∷ xs)
    go later true m' = Or.elim Mem-prop (mem-cons.0 m') (λ e. mem-cast e mem-cons_self) later
    go later false m' = later m'

present_of_Mem : (j : Job) (js : List Job) → Mem j js → find_job j.job_id js ≢ none
unfolding find_job
present_of_Mem j [] m = λ _. not-mem-nil m
present_of_Mem j (x ∷ xs) m =
    Or.elim (Π_prop (λ _. ⊥_prop)) (mem-cons.0 m) (λ e. rw (e, eq_refl) (λ f. cc))
      (λ l f. present_of_Mem j xs l (behind f))
  where
    behind :
        (if x.job_id == j.job_id then some x else find_job j.job_id xs) ≡ none
        → find_job j.job_id xs ≡ none
    behind f = ground arith

-- The queue that is built again has all PENDING rows, whatever the threads still have.
pub recovered-IsDurable :
    {w : JobView} (js : List Job) (kept : List JobDict)
    → Stored js kept
    → w.rows ≡ js
    → Perm w.queue (kept ++ rebuilt js)
    → IsDurable w
unfolding dict_of_row
recovered-IsDurable {w} js kept stored e q =
    let all = map dict_of_row (keep (has_status JobState.pending) js) in
    record {
      pending_queued = rw e (λ k j found p.
          let (listed, named) = find_job-In k js j found in
          let waits =
            In-keep_of (has_status JobState.pending) js listed ((eq_iff j.status "PENDING").1 p) in
          mem-cast (sym named) (
            mem-map_of_mem (λ (x : JobDict). x.job_id)
              (Perm.subset (Perm.symm q) (dict_of_row j) (
                mem-append_right kept (
                  Perm.subset (Perm.symm (sort_desc-perm key_lt all)) (dict_of_row j) (
                    mem-map_of_mem dict_of_row
                      (In-Mem j (keep (has_status JobState.pending) js) waits)))))));
      queued_stored = rw e (λ d m.
          Or.elim (Π_prop (λ _. ⊥_prop)) (mem-append.0 (Perm.subset q d m)) (stored d) (λ m'.
            ∥∥₁_elim (exists_of_mem-map (Perm.subset (sort_desc-perm key_lt all) d m'))
              (Π_prop (λ _. ⊥_prop))
              λ (j, listed, same).
                subst (λ (x : JobDict). find_job x.job_id js ≢ none) same
                  (present_of_Mem j js
                    (mem_of_mem-keep (has_status JobState.pending) j js listed))));
    }
