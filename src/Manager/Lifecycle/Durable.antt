-- ===== src/Manager/Lifecycle/Durable.antt =====
-- dmlf/manager/queue.py: the agreement of the database and the queue.
pub mod Changes
mod Restart
use mathlib.Core.HLevel.{Π_prop, ⊥_prop}
use mathlib.Core.Logic.Or
use mathlib.Core.Logic.{∥∥₁_elim}
use mathlib.Core.List.Perm
use mathlib.Core.Option
use mathlib.Core.List.{
  Perm, Mem, Mem-prop, mem-append, mem-append_left, mem-append_right, mem-cons, mem-cons_self,
  mem-cons_of_mem, mem-map_of_mem, mem-cast, exists_of_mem-map, not-mem-nil,
}
use distributed_ml_training.Base.{
  ℕ, ◌+◌, ℤ, ◌≡◌, ◌≢◌, refl, sym, ◌∙◌, subst, ◌⊎◌, inl, inr, Option, none, some, List, [], ◌∷◌,
  ◌++◌, map, keep, Bool, true, false, String, ◌==◌, eq_iff, eq_refl, In, In-keep_of, arith,
  if◌then◌else◌,
}
use distributed_ml_training.Sort.{sort_desc}
use distributed_ml_training.Sort.Laws.{sort_desc-perm}
use distributed_ml_training.Registry.JobState
use distributed_ml_training.Registry.Schema.{Job}
use distributed_ml_training.Registry.Jobs.{
  JobDict, dict_of_row, row_of_dict, update_job, set_status, find_job, has_status,
}
use distributed_ml_training.Registry.Rows.{KeepsId, find_job-update_job, find_job-In, find_job-snoc}
use distributed_ml_training.Queue.{key_lt}
use distributed_ml_training.Queue.Order.{Enqueued, as_pending, as_retried}
use distributed_ml_training.Manager.Lifecycle.{
  JobView, retried_row, Change, submitted, retried, finished, started, restarted,
}
use distributed_ml_training.Manager.Lifecycle.Invariants.{
  update_job-eq-some, retried_row-KeepsId, set_status-KeepsId, set_status-fields, snoc-Rows,
}

abbrev pub queue_ids : List JobDict → List String
queue_ids q = map (λ d. d.job_id) q

-- The keys of the PENDING rows satisfy `Q`.
abbrev pub PendingIn : (String → Type 0) → List Job → Type 0
PendingIn Q js = (k : String) (j : Job) → find_job k js ≡ some j → j.status ≡ JobState.pending → Q k

-- Every queued job has a row.
abbrev pub Stored : List Job → List JobDict → Type 0
Stored js q = (d : JobDict) → Mem d q → find_job d.job_id js ≢ none

pub record IsDurable (v : JobView) : Type 0 where
  pub pending_queued : PendingIn (λ k. Mem k (queue_ids v.queue)) v.rows
  pub queued_stored : Stored v.rows v.queue

pub update-PendingIn :
    (Q Q' : String → Type 0) (f : Job → Job) (keeps : KeepsId f) (id : String) (js : List Job)
    → ((x : Job) → find_job id js ≡ some x → (f x).status ≡ JobState.pending → Q' id)
    → ((k : String) → (id == k) ≡ false → Q k → Q' k)
    → PendingIn Q js
    → PendingIn Q' (update_job id f js)
update-PendingIn Q Q' f keeps id js same other h k j found p =
    elim (update_job-eq-some f keeps id k js found) [
      | inl (x, e, at_x, is_x) ↦ subst Q' e (same x (rw e at_x) (rw is_x at p))
      | inr (differs, at_j) ↦ other k differs (h k j at_j p)
    ]

pub update-present :
    (f : Job → Job) (keeps : KeepsId f) (id k : String) (js : List Job)
    → find_job k js ≢ none
    → find_job k (update_job id f js) ≢ none
update-present f keeps id k js h e =
    h (go (find_job k js) (sym (find_job-update_job f keeps id k js) ∙ e))
  where
    go : (o : Option Job) → (if id == k then Option.map f o else o) ≡ none → o ≡ none
    go none g = refl
    go (some x) g = ground arith

pub snoc-present :
    (k : String) (js : List Job) (n : Job)
    → find_job k js ≢ none ⊎ (n.job_id ≡ k)
    → find_job k (js ++ n ∷ []) ≢ none
snoc-present k js n h e = go (find_job k js) refl (sym (find_job-snoc k js n) ∙ e)
  where
    go :
        (o : Option Job)
        → find_job k js ≡ o
        → (elim o [ some x ↦ some x | none ↦ if n.job_id == k then some n else none ]) ≡ none
        → ⊥
    go (some x) at g = cc
    go none at g = ground (arith, eq_iff n.job_id k)

module _ {old new : List JobDict} {d : JobDict} (same : Perm new (d ∷ old)) where
  pub added-old : {k : String} → Mem k (queue_ids old) → Mem k (queue_ids new)
  added-old m = ∥∥₁_elim (exists_of_mem-map m) Mem-prop λ (a, listed, named). mem-cast (sym named) (
      mem-map_of_mem (λ (x : JobDict). x.job_id)
        (Perm.subset (Perm.symm same) a (mem-cons_of_mem d listed)))

  pub added-new : Mem d.job_id (queue_ids new)
  added-new =
      mem-map_of_mem (λ (x : JobDict). x.job_id) (Perm.subset (Perm.symm same) d mem-cons_self)

  pub added-Stored : (js : List Job) → Stored js old → find_job d.job_id js ≢ none → Stored js new
  added-Stored js h at_d x m =
      Or.elim (Π_prop (λ _. ⊥_prop)) (mem-cons.0 (Perm.subset same x m)) (λ e. rw e at_d) (h x)

-- The keys of a bag do not depend on its order.
pub moved-queue_ids :
    {old new : List JobDict} {k : String}
    → Perm new old
    → Mem k (queue_ids old)
    → Mem k (queue_ids new)
moved-queue_ids p m = ∥∥₁_elim (exists_of_mem-map m) Mem-prop λ (a, listed, named).
    mem-cast (sym named)
      (mem-map_of_mem (λ (x : JobDict). x.job_id) (Perm.subset (Perm.symm p) a listed))

pub present_of_some :
    (k : String) (js : List Job) {j : Job} → find_job k js ≡ some j → find_job k js ≢ none
present_of_some k js h e = cc

completed-ne-pending : ◌≢◌ {A = String} JobState.completed JobState.pending
completed-ne-pending p = ground (arith, eq_iff "COMPLETED" "PENDING")

failed-ne-pending : ◌≢◌ {A = String} JobState.failed JobState.pending
failed-ne-pending p = ground (arith, eq_iff "FAILED" "PENDING")

-- A row that ends is not PENDING.
pub ended-not_pending :
    (s : String) → (s ≡ JobState.completed) ⊎ (s ≡ JobState.failed) → s ≢ JobState.pending
ended-not_pending s (inl e) h = completed-ne-pending (sym e ∙ h)
ended-not_pending s (inr e) h = failed-ne-pending (sym e ∙ h)
