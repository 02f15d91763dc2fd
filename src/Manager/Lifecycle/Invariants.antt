-- ===== src/Manager/Lifecycle/Invariants.antt =====
-- Invariants of the job table and the queue under every flow of jobs.
use mathlib.Core.Option
use distributed_ml_training.Base.{
  ℕ, ◌+◌, ◌≤◌, ℤ, pos, pos_part, int_ltb, ◌≡◌, ◌≢◌, refl, sym, ◌∙◌, ap, subst, ◌⊎◌, inl, inr,
  Option, none, some, List, [], ◌∷◌, ◌++◌, Bool, true, false, String, ◌==◌, eq_iff, All, Distinct,
  arith, if◌then◌else◌, Distinct-snoc,
}
use mathlib.Core.Option.{get_or, some-injective}
use distributed_ml_training.Registry.JobState
use distributed_ml_training.Registry.Schema.{Job}
use distributed_ml_training.Registry.Jobs.{row_of_dict, update_job, set_status, find_job}
use distributed_ml_training.Registry.Rows.{
  job_ids, KeepsId, find_job-update_job, job_ids-update_job, find_job-snoc, job_ids-snoc,
}
use distributed_ml_training.Queue.Order.{as_pending}
use distributed_ml_training.Manager.Lifecycle.{JobView, retried_row}
use distributed_ml_training.Manager.Lifecycle.Pool.{
  Flow, arrived, returned, ended, left, moved, recovered,
}

pub set_status-KeepsId :
    (now : ℕ) (s : String) (ns : Option (List String)) (c : Option ℤ)
    → KeepsId (set_status now s ns c)
unfolding set_status
set_status-KeepsId now s ns c j = ground arith

pub set_status-fields :
    (now : ℕ) (s : String) (ns : Option (List String)) (c : Option ℤ) (j : Job)
    → ((set_status now s ns c j).retries ≡ j.retries)
      × ((set_status now s ns c j).max_retries ≡ j.max_retries)
      × ((set_status now s ns c j).status ≡ s)
unfolding set_status
set_status-fields now s ns c j = ground arith

-- A property of every row that can be found by its key.
abbrev pub Rows : (Job → Type 0) → List Job → Type 0
Rows P js = (k : String) (j : Job) → find_job k js ≡ some j → P j

if_map-eq-some :
    (f : Job → Job) (b : Bool) (o : Option Job) {j : Job}
    → (if b then Option.map f o else o) ≡ some j
    → ((x : Job) × (b ≡ true) × (o ≡ some x) × (j ≡ f x)) ⊎ (b ≡ false) × (o ≡ some j)
if_map-eq-some f true none h = cc
if_map-eq-some f true (some x) h = inl (x, refl, refl, sym (some-injective _ _ h))
if_map-eq-some f false o h = inr (refl, h)

pub update_job-eq-some :
    (f : Job → Job) (keeps : KeepsId f) (id k : String) (js : List Job) {j : Job}
    → find_job k (update_job id f js) ≡ some j
    → ((x : Job) × (id ≡ k) × (find_job k js ≡ some x) × (j ≡ f x))
      ⊎ ((id == k) ≡ false) × (find_job k js ≡ some j)
update_job-eq-some f keeps id k js h =
    elim (if_map-eq-some f (id == k) (find_job k js)
      (sym (find_job-update_job f keeps id k js) ∙ h)) [
        | inl (x, same, found, e) ↦ inl (x, (eq_iff id k).0 same, found, e)
        | inr other ↦ inr other
      ]

-- An update keeps a property if it has it of the changed row.
update_job-Rows :
    (P : Job → Type 0) (f : Job → Job) (keeps : KeepsId f) (id : String) (js : List Job)
    → ((x : Job) → find_job id js ≡ some x → P x → P (f x))
    → Rows P js
    → Rows P (update_job id f js)
update_job-Rows P f keeps id js ok rows k j h = elim (update_job-eq-some f keeps id k js h) [
  | inl (x, e, found, same) ↦ rw same (ok x (rw e found) (rows k x found))
  | inr (other, found) ↦ rows k j found
]

-- A row behind the others is found where no other has its key.
pub snoc-Rows :
    (P : Job → Type 0) (js : List Job) (n : Job) → P n → Rows P js → Rows P (js ++ n ∷ [])
snoc-Rows P js n pn rows k j h = split (find_job k js) refl (sym (find_job-snoc k js n) ∙ h)
  where
    split :
        (o : Option Job)
        → find_job k js ≡ o
        → (elim o [ some x ↦ some x | none ↦ if n.job_id == k then some n else none ]) ≡ some j
        → P j
    split (some x) e g = rows k j (e ∙ g)
    split none e g = let same : n ≡ j = ground arith in rw (← same) pn

pub retried_row-KeepsId : (n : ℕ) → KeepsId (retried_row n)
retried_row-KeepsId n j = refl

-- No job has more retries than its limit allows.
abbrev pub IsBounded : Job → Type 0
IsBounded j = j.retries ≤ pos_part j.max_retries

within :
    (j x : Job)
    → int_ltb (pos j.retries) j.max_retries ≡ true
    → j.max_retries ≡ x.max_retries
    → j.retries + 1 ≤ pos_part x.max_retries
within j x room e = ground arith

pub Flow-IsBounded : {v w : JobView} → Flow v w → Rows IsBounded v.rows → Rows IsBounded w.rows
Flow-IsBounded {v} (arrived now d absent fresh e q) b = rw e (
    snoc-Rows IsBounded v.rows (row_of_dict now (as_pending d))
      (unfold row_of_dict in rw fresh (omega arith)) b)
Flow-IsBounded {v} (returned j x found same room e q) b = rw e (
    update_job-Rows IsBounded (retried_row (j.retries + 1)) (retried_row-KeepsId (j.retries + 1))
      j.job_id v.rows
      (λ y f _.
        within j y room
          (sym same ∙ ap (λ (o : Job). o.max_retries) (some-injective _ _ (sym found ∙ f))))
      b)
Flow-IsBounded {v} (ended now id s code final e q) b = rw e (
    update_job-Rows IsBounded (set_status now s none (some code))
      (set_status-KeepsId now s none (some code)) id v.rows
      (λ x _ h. ground (arith, set_status-fields now s none (some code) x)) b)
Flow-IsBounded {v} (left now d nodes some_nodes q e) b = rw e (
    update_job-Rows IsBounded (set_status now JobState.running (some nodes) none)
      (set_status-KeepsId now JobState.running (some nodes) none) d.job_id v.rows
      (λ x _ h. ground (arith, set_status-fields now JobState.running (some nodes) none x)) b)
Flow-IsBounded (moved e q) b = rw e b
Flow-IsBounded (recovered kept waits e q) b = rw e b

find_job-none : (k : String) (js : List Job) → find_job k js ≡ none → All (λ y. y ≢ k) (job_ids js)
unfolding find_job
find_job-none k [] h = tt
find_job-none k (j ∷ js) h = (ground (arith, eq_iff j.job_id k), find_job-none k js (ground arith))

-- The keys of the rows stay distinct.
pub Flow-Distinct :
    {v w : JobView} → Flow v w → Distinct (job_ids v.rows) → Distinct (job_ids w.rows)
unfolding row_of_dict
Flow-Distinct {v} (arrived now d absent fresh e q) h =
    rw (e, job_ids-snoc)
      (Distinct-snoc d.job_id (job_ids v.rows) h (find_job-none d.job_id v.rows absent))
Flow-Distinct {v} (returned j x found same room e q) h = rw e (
    subst Distinct
      (sym (
        job_ids-update_job (retried_row (j.retries + 1)) (retried_row-KeepsId (j.retries + 1))
          j.job_id v.rows))
      h)
Flow-Distinct {v} (ended now id s code final e q) h = rw e (
    subst Distinct
      (sym (
        job_ids-update_job (set_status now s none (some code))
          (set_status-KeepsId now s none (some code)) id v.rows))
      h)
Flow-Distinct {v} (left now d nodes some_nodes q e) h = rw e (
    subst Distinct
      (sym (
        job_ids-update_job (set_status now JobState.running (some nodes) none)
          (set_status-KeepsId now JobState.running (some nodes) none) d.job_id v.rows))
      h)
Flow-Distinct (moved e q) h = rw e h
Flow-Distinct (recovered kept waits e q) h = rw e h
