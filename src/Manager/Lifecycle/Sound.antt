-- ===== src/Manager/Lifecycle/Sound.antt =====
-- What every flow of jobs keeps: the invariants of the rows and of the waiting jobs together, and
-- what a thread knows of a job that it has read.
use mathlib.Core.Option
use mathlib.Core.Option.{some-injective}
use distributed_ml_training.Base.{
  ◌+◌, ◌≡◌, refl, ◌∙◌, none, some, List, [], ◌∷◌, ◌++◌, Bool, true, false, ◌==◌, String, Distinct,
  if◌then◌else◌,
}
use distributed_ml_training.Registry.JobState
use distributed_ml_training.Registry.Schema.{Job}
use distributed_ml_training.Registry.Jobs.{row_of_dict, update_job, set_status, find_job}
use distributed_ml_training.Registry.Rows.{job_ids, KeepsId, find_job-update_job, find_job-snoc}
use distributed_ml_training.Queue.Order.{as_pending}
use distributed_ml_training.Manager.Lifecycle.{JobView, retried_row}
use distributed_ml_training.Manager.Lifecycle.Pool.{
  Flow, arrived, returned, ended, left, moved, recovered, Flows, stay, go_on,
}
use distributed_ml_training.Manager.Lifecycle.Invariants.{
  Rows, IsBounded, Flow-IsBounded, Flow-Distinct, set_status-KeepsId, set_status-fields,
  retried_row-KeepsId,
}
use distributed_ml_training.Manager.Lifecycle.Durable.{IsDurable}
use distributed_ml_training.Manager.Lifecycle.Durable.Changes.{Flow-IsDurable}

-- What holds of the rows and the waiting jobs in every run.
pub record IsSound (v : JobView) : Type 0 where
  pub distinct : Distinct (job_ids v.rows)
  pub bounded : Rows IsBounded v.rows
  pub durable : IsDurable v

pub Flow-IsSound : {v w : JobView} → Flow v w → IsSound v → IsSound w
Flow-IsSound c s = record {
  distinct = Flow-Distinct c s.distinct;
  bounded = Flow-IsBounded c s.bounded;
  durable = Flow-IsDurable c s.durable;
}

pub Flows-IsSound : {w v : JobView} → Flows w v → IsSound v → IsSound w
Flows-IsSound stay s = s
Flows-IsSound (go_on f fs) s = Flows-IsSound fs (Flow-IsSound f s)

-- A job that was read still has a row, with the same limit of retries.
abbrev pub IsKnown : List Job → Job → Type 0
IsKnown js j = (x : Job) × (find_job j.job_id js ≡ some x) × (x.max_retries ≡ j.max_retries)

update-IsKnown :
    (f : Job → Job) (keeps : KeepsId f) (id : String) (js : List Job) (j : Job)
    → ((x : Job) → (f x).max_retries ≡ x.max_retries)
    → IsKnown js j
    → IsKnown (update_job id f js) j
update-IsKnown f keeps id js j limit (x, found, same) =
    go (id == j.job_id) (find_job-update_job f keeps id j.job_id js)
  where
    go :
        (b : Bool)
        → find_job j.job_id (update_job id f js)
          ≡ (if b then Option.map f (find_job j.job_id js) else find_job j.job_id js)
        → IsKnown (update_job id f js) j
    go true e = (f x, rw found at e, limit x ∙ same)
    go false e = (x, e ∙ found, same)

snoc-IsKnown : (n : Job) (js : List Job) (j : Job) → IsKnown js j → IsKnown (js ++ n ∷ []) j
snoc-IsKnown n js j (x, found, same) = (x, rw found at (find_job-snoc j.job_id js n), same)

pub Flow-IsKnown : {v w : JobView} → Flow v w → (j : Job) → IsKnown v.rows j → IsKnown w.rows j
Flow-IsKnown {v} (arrived now d absent fresh e q) j k =
    rw e (snoc-IsKnown (row_of_dict now (as_pending d)) v.rows j k)
Flow-IsKnown {v} (returned r x found same room e q) j k = rw e (
    update-IsKnown (retried_row (r.retries + 1)) (retried_row-KeepsId (r.retries + 1)) r.job_id
      v.rows j (λ y. refl) k)
Flow-IsKnown {v} (ended now id s code final e q) j k = rw e (
    update-IsKnown (set_status now s none (some code)) (set_status-KeepsId now s none (some code))
      id v.rows j (λ y. (set_status-fields now s none (some code) y).1) k)
Flow-IsKnown {v} (left now d nodes some_nodes q e) j k = rw e (
    update-IsKnown (set_status now JobState.running (some nodes) none)
      (set_status-KeepsId now JobState.running (some nodes) none) d.job_id v.rows j
      (λ y. (set_status-fields now JobState.running (some nodes) none y).1) k)
Flow-IsKnown (moved e q) j k = rw e k
Flow-IsKnown (recovered kept waits e q) j k = rw e k
