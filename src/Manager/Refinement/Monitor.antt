-- ===== src/Manager/Refinement/Monitor.antt =====
-- dmlf/manager/cluster_manager.py: the changes that a round of the monitor makes.
use distributed_ml_training.Base.{
  ℕ, ◌+◌, pos, int_ltb, ◌≡◌, ◌≢◌, refl, ◌∙◌, inl, inr, none, some, List, [], ◌∷◌, keep, Bool,
  String, eq_iff, All, Distinct, arith, Bool-cases, All-of_In, In-keep,
}
use distributed_ml_training.Registry.JobState
use distributed_ml_training.Registry.Schema.{Job}
use distributed_ml_training.Registry.Nodes.{get_all_nodes}
use distributed_ml_training.Registry.Jobs.{
  dict_of_row, set_status, update_job_status, update_job_retries, find_job, get_jobs, has_status,
}
use distributed_ml_training.Registry.Rows.{job_ids, find_job_of_In, find_job-update_job}
use distributed_ml_training.Queue.{retry_job}
use distributed_ml_training.Manager.State.{Manager, write_log}
use distributed_ml_training.Manager.Monitor.{
  offline_nodes, touches, fail_job, fail_jobs, update_gauges, monitor_round,
}
use distributed_ml_training.Manager.Lifecycle.{
  view, retried_row, Change, finished, Changes, here, next,
}
use distributed_ml_training.Manager.Lifecycle.Invariants.{retried_row-KeepsId, set_status-KeepsId}
use distributed_ml_training.Manager.Refinement.Rpcs.{retry_job-Change}

-- A crash of a job that stands in the table as it was read.
fail_job-Change :
    (now : ℕ) (j : Job) (m : Manager)
    → find_job j.job_id m.registry.jobs ≡ some j
    → Change (view m.jobs) (view (fail_job now j m).jobs)
unfolding fail_job write_log update_job_status
fail_job-Change now j m found = elim (Bool-cases (int_ltb (pos j.retries) j.max_retries)) [
  | inl room ↦ rw (room, fail_job) (retry_job-Change j m.jobs found room)
  | inr full ↦
      rw (full, fail_job) (finished now j.job_id JobState.failed (pos 1) (inr refl) refl refl)
]

-- It touches no other row.
pub fail_job-other :
    (now : ℕ) (j : Job) (m : Manager) (k : String)
    → j.job_id ≢ k
    → find_job k (fail_job now j m).registry.jobs ≡ find_job k m.registry.jobs
unfolding fail_job write_log update_job_status retry_job update_job_retries dict_of_row
fail_job-other now j m k h =
    let n = j.retries + 1 in
    let f = set_status now JobState.failed none (some (pos 1)) in
    let retry =
      find_job-update_job (retried_row n) (retried_row-KeepsId n) j.job_id k m.registry.jobs in
    let fail =
      find_job-update_job f (set_status-KeepsId now JobState.failed none (some (pos 1))) j.job_id k
        m.registry.jobs in
    ground (arith, eq_iff j.job_id k, retry, fail)

-- The rows of a list, as they stand in the table.
abbrev Current : List Job → Manager → Type 0
Current js m = All (λ j. find_job j.job_id m.registry.jobs ≡ some j) js

Current-fail_job :
    (now : ℕ) (j : Job) (m : Manager) (js : List Job)
    → All (λ y. j.job_id ≢ y) (job_ids js)
    → Current js m
    → Current js (fail_job now j m)
Current-fail_job now j m [] h c = tt
Current-fail_job now j m (x ∷ xs) h c =
    (fail_job-other now j m x.job_id h.0 ∙ c.0, Current-fail_job now j m xs h.1 c.1)

fail_jobs-Changes :
    (now : ℕ) (offline : List String) (js : List Job) (m : Manager)
    → Distinct (job_ids js)
    → Current js m
    → Changes (view (fail_jobs now offline js m).jobs) (view m.jobs)
unfolding fail_jobs
fail_jobs-Changes now offline [] m d c = here
fail_jobs-Changes now offline (j ∷ js) m d c = elim (Bool-cases (touches offline j)) [
  | inl hit ↦
      rw (hit, fail_jobs)
        (next (fail_job-Change now j m c.0) (
          fail_jobs-Changes now offline js (fail_job now j m) d.1
            (Current-fail_job now j m js d.0 c.1)))
  | inr miss ↦ rw (miss, fail_jobs) (fail_jobs-Changes now offline js m d.1 c.1)
]

All-ids-keep :
    (p : Job → Bool) (k : String) (js : List Job)
    → All (λ y. k ≢ y) (job_ids js)
    → All (λ y. k ≢ y) (job_ids (keep p js))
All-ids-keep p k [] h = tt
All-ids-keep p k (j ∷ js) h = elim (Bool-cases (p j)) [
  | inl e ↦ rw e (h.0, All-ids-keep p k js h.1)
  | inr e ↦ rw e (All-ids-keep p k js h.1)
]

pub Distinct-keep :
    (p : Job → Bool) (js : List Job) → Distinct (job_ids js) → Distinct (job_ids (keep p js))
Distinct-keep p [] h = tt
Distinct-keep p (j ∷ js) h = elim (Bool-cases (p j)) [
  | inl e ↦ rw e (All-ids-keep p j.job_id js h.0, Distinct-keep p js h.1)
  | inr e ↦ rw e (Distinct-keep p js h.1)
]

pub monitor_round-Changes :
    (now timeout : ℕ) (m : Manager)
    → Distinct (job_ids m.registry.jobs)
    → Changes (view (monitor_round now timeout m).jobs) (view m.jobs)
unfolding monitor_round update_gauges get_all_nodes get_jobs
monitor_round-Changes now timeout m d = go (offline_nodes now timeout m.registry)
  where
    running : List Job
    running = keep (has_status JobState.running) m.registry.jobs

    current : Current running m
    current =
        All-of_In (λ j. find_job j.job_id m.registry.jobs ≡ some j) running
          (λ j listed.
            find_job_of_In m.registry.jobs j d
              (In-keep (has_status JobState.running) m.registry.jobs listed).0)

    go :
        (offline : List String)
        → Changes
            (view
              (elim offline as (λ _. Manager) [
                | [] ↦ m
                | o ∷ os ↦ fail_jobs now (o ∷ os) (get_jobs (some JobState.running) m.registry) m
              ]).jobs)
            (view m.jobs)
    go [] = here
    go (o ∷ os) =
        fail_jobs-Changes now (o ∷ os) running m
          (Distinct-keep (has_status JobState.running) m.registry.jobs d) current
