-- ===== src/Manager/Refinement/Crash.antt =====
-- dmlf/manager/cluster_manager.py: what a round of the monitor makes of the row of a job.
use mathlib.Core.Option.{some-injective}
use distributed_ml_training.Base.{
  ℕ, ◌+◌, pos, int_ltb, ◌≡◌, ◌≢◌, refl, sym, ap, ◌∙◌, subst, inl, inr, none, some, List, [], ◌∷◌,
  keep, false, ◌&&◌, String, eq_refl, All, In, Distinct, Bool-cases, All-at, In-keep, In-keep_of,
  In-map, if◌then◌else◌,
}
use distributed_ml_training.Registry.JobState
use distributed_ml_training.Registry.Schema.{Job}
use distributed_ml_training.Registry.Nodes.{get_all_nodes}
use distributed_ml_training.Registry.Jobs.{
  dict_of_row, set_status, update_job_status, update_job_retries, find_job, get_job, get_jobs,
  has_status,
}
use distributed_ml_training.Registry.Rows.{
  job_ids, find_job_of_In, find_job-In, find_job-update_job,
}
use distributed_ml_training.Queue.{retry_job}
use distributed_ml_training.Manager.State.{Manager, write_log}
use distributed_ml_training.Manager.Monitor.{
  offline_nodes, touches, fail_job, fail_jobs, update_gauges, monitor_round,
}
use distributed_ml_training.Manager.Lifecycle.{retried_row}
use distributed_ml_training.Manager.Lifecycle.Invariants.{retried_row-KeepsId, set_status-KeepsId}
use distributed_ml_training.Manager.Refinement.Monitor.{fail_job-other, Distinct-keep}

-- The row of a job whose node crashed: PENDING with one retry more, or FAILED with exit code 1.
abbrev pub crashed_row : ℕ → Job → Job
crashed_row now j =
    if int_ltb (pos j.retries) j.max_retries
    then retried_row (j.retries + 1) j
    else set_status now JobState.failed none (some (pos 1)) j

-- The row after a round that finds some silent nodes: a RUNNING job on one of them has crashed.
abbrev pub row_after : ℕ → List String → Job → Job
row_after now offline j =
    if has_status JobState.running j && touches offline j then crashed_row now j else j

fail_job-same :
    (now : ℕ) (j : Job) (m : Manager)
    → find_job j.job_id m.registry.jobs ≡ some j
    → find_job j.job_id (fail_job now j m).registry.jobs ≡ some (crashed_row now j)
unfolding fail_job write_log update_job_status retry_job update_job_retries dict_of_row
fail_job-same now j m found =
    let n = j.retries + 1 in
    let f = set_status now JobState.failed none (some (pos 1)) in
    let retry =
      find_job-update_job (retried_row n) (retried_row-KeepsId n) j.job_id j.job_id
        m.registry.jobs in
    let fail =
      find_job-update_job f (set_status-KeepsId now JobState.failed none (some (pos 1))) j.job_id
        j.job_id m.registry.jobs in
    elim (Bool-cases (int_ltb (pos j.retries) j.max_retries)) [
      | inl room ↦ rw (room, fail_job) (rw (found, eq_refl) at retry)
      | inr full ↦ rw (full, fail_job) (rw (found, eq_refl) at fail)
    ]

fail_jobs-other :
    (now : ℕ) (offline : List String) (js : List Job) (m : Manager) (k : String)
    → All (λ y. y ≢ k) (job_ids js)
    → find_job k (fail_jobs now offline js m).registry.jobs ≡ find_job k m.registry.jobs
unfolding fail_jobs
fail_jobs-other now offline [] m k h = refl
fail_jobs-other now offline (j ∷ js) m k h = elim (Bool-cases (touches offline j)) [
  | inl hit ↦
      rw (hit, fail_jobs)
        (fail_jobs-other now offline js (fail_job now j m) k h.1 ∙ fail_job-other now j m k h.0)
  | inr miss ↦ rw (miss, fail_jobs) (fail_jobs-other now offline js m k h.1)
]

All-sym : (k : String) (ids : List String) → All (λ y. k ≢ y) ids → All (λ y. y ≢ k) ids
All-sym k [] h = tt
All-sym k (x ∷ xs) h = (λ e. h.0 (sym e), All-sym k xs h.1)

fail_jobs-same :
    (now : ℕ) (offline : List String) (js : List Job) (m : Manager) (j : Job)
    → In j js
    → Distinct (job_ids js)
    → find_job j.job_id m.registry.jobs ≡ some j
    → find_job j.job_id (fail_jobs now offline js m).registry.jobs
      ≡ some (if touches offline j then crashed_row now j else j)
unfolding fail_jobs fail_job
fail_jobs-same now offline [] m j i d found = elim i [ ]
fail_jobs-same now offline (x ∷ js) m j (inl e) d found =
    let others : All (λ y. y ≢ j.job_id) (job_ids js) =
      subst (λ (y : Job). All (λ z. z ≢ y.job_id) (job_ids js)) (sym e)
        (All-sym x.job_id (job_ids js) d.0) in
    subst
      (λ (y : Job).
        find_job j.job_id (fail_jobs now offline (y ∷ js) m).registry.jobs
        ≡ some (if touches offline j then crashed_row now j else j))
      e
      (elim (Bool-cases (touches offline j)) [
        | inl hit ↦
            rw (hit, fail_jobs)
              (fail_jobs-other now offline js (fail_job now j m) j.job_id others
                ∙ fail_job-same now j m found)
        | inr miss ↦ rw (miss, fail_jobs) (fail_jobs-other now offline js m j.job_id others ∙ found)
      ])
fail_jobs-same now offline (x ∷ js) m j (inr i) d found =
    let differs : x.job_id ≢ j.job_id =
      All-at (λ y. x.job_id ≢ y) (job_ids js) d.0 (In-map j (λ (y : Job). y.job_id) js i) in
    elim (Bool-cases (touches offline x)) [
      | inl hit ↦
          rw (hit, fail_jobs)
            (fail_jobs-same now offline js (fail_job now x m) j i d.1
              (fail_job-other now x m j.job_id differs ∙ found))
      | inr miss ↦ rw (miss, fail_jobs) (fail_jobs-same now offline js m j i d.1 found)
    ]

-- The RUNNING jobs do not include one that has another status.
running-others :
    (rows : List Job) (j : Job)
    → find_job j.job_id rows ≡ some j
    → Distinct (job_ids rows)
    → has_status JobState.running j ≡ false
    → All (λ y. y ≢ j.job_id) (job_ids (keep (has_status JobState.running) rows))
running-others rows j found d h = ids (keep (has_status JobState.running) rows) (λ y m.
    let (listed, running) = In-keep (has_status JobState.running) rows m in
    λ e.
      let at_key =
        subst (λ (k : String). find_job k rows ≡ some y) e (find_job_of_In rows y d listed) in
      let same : y ≡ j = some-injective _ _ (sym at_key ∙ found) in
      cc (ap (has_status JobState.running) same, running, h))
  where
    ids :
        (js : List Job)
        → ((y : Job) → In y js → y.job_id ≢ j.job_id)
        → All (λ y. y ≢ j.job_id) (job_ids js)
    ids [] f = tt
    ids (x ∷ xs) f = (f x (inl refl), ids xs (λ y m. f y (inr m)))

fail_running :
    (now : ℕ) (offline : List String) (m : Manager) (j : Job)
    → Distinct (job_ids m.registry.jobs)
    → find_job j.job_id m.registry.jobs ≡ some j
    → find_job j.job_id
        (fail_jobs now offline (keep (has_status JobState.running) m.registry.jobs) m).registry.jobs
      ≡ some (row_after now offline j)
fail_running now offline m j d found = elim (Bool-cases (has_status JobState.running j)) [
  | inl runs ↦ rw runs (
      fail_jobs-same now offline (keep (has_status JobState.running) m.registry.jobs) m j
        (In-keep_of (has_status JobState.running) m.registry.jobs
          (find_job-In j.job_id m.registry.jobs j found).0 runs)
        (Distinct-keep (has_status JobState.running) m.registry.jobs d) found)
  | inr rests ↦ rw rests (
      fail_jobs-other now offline (keep (has_status JobState.running) m.registry.jobs) m j.job_id
        (running-others m.registry.jobs j found d rests)
      ∙ found)
]

-- From a table with distinct keys, a round of the monitor makes of each job's row: PENDING with one
-- retry more, or FAILED where no retry is left, if the job is RUNNING on a node that the monitor's
-- query finds silent; otherwise the row stays.
pub find_job-monitor_round :
    (now timeout : ℕ) (m : Manager) (k : String) (j : Job)
    → Distinct (job_ids m.registry.jobs)
    → get_job k m.registry ≡ some j
    → get_job k (monitor_round now timeout m).registry
      ≡ some (row_after now (offline_nodes now timeout m.registry) j)
unfolding monitor_round update_gauges get_all_nodes get_jobs get_job touches
find_job-monitor_round now timeout m k j d found =
    let named = (find_job-In k m.registry.jobs j found).1 in
    subst
      (λ (x : String).
        get_job x (monitor_round now timeout m).registry
        ≡ some (row_after now (offline_nodes now timeout m.registry) j))
      named (go (offline_nodes now timeout m.registry))
  where
    at_key : find_job j.job_id m.registry.jobs ≡ some j
    at_key =
        subst (λ (x : String). find_job x m.registry.jobs ≡ some j)
          (sym (find_job-In k m.registry.jobs j found).1) found

    go :
        (offline : List String)
        → find_job j.job_id
            (elim offline as (λ _. Manager) [
              | [] ↦ m
              | o ∷ os ↦ fail_jobs now (o ∷ os) (get_jobs (some JobState.running) m.registry) m
            ]).registry.jobs
          ≡ some (row_after now offline j)
    go [] = elim (Bool-cases (has_status JobState.running j)) [
      | inl runs ↦ rw runs at_key
      | inr rests ↦ rw rests at_key
    ]
    go (o ∷ os) = fail_running now (o ∷ os) m j d at_key
