-- ===== src/Manager/Steps/Goes/Monitor.antt =====
-- dmlf/manager/cluster_manager.py: the accesses of the monitor's thread and the jobs that wait.
use mathlib.Core.List.Perm
use distributed_ml_training.Base.{
  ℕ, pos, int_ltb, ◌≡◌, refl, inl, inr, List, [], ◌∷◌, keep, In-keep, All-of_In, String, Bool-cases,
  All, Distinct,
}
use distributed_ml_training.Registry.JobState
use distributed_ml_training.Registry.Schema.{Job}
use distributed_ml_training.Registry.Nodes.{get_all_nodes}
use distributed_ml_training.Registry.Jobs.{update_job_status, get_jobs, has_status}
use distributed_ml_training.Registry.Rows.{find_job_of_In, job_ids}
use distributed_ml_training.Manager.State.{Manager, write_log}
use distributed_ml_training.Manager.Monitor.{offline_nodes, touches, update_gauges}
use distributed_ml_training.Manager.Lifecycle.{JobView, view}
use distributed_ml_training.Manager.Lifecycle.Pool.{Flow, moved, ended, hold}
use distributed_ml_training.Manager.Lifecycle.Sound.{IsKnown, Flow-IsKnown}
use distributed_ml_training.Manager.Steps.Monitoring.{
  MonitorAt, querying, scanning, looping, retrying, enqueueing, marking, marking_again, tallying,
  monitor_step, monitor_holds,
}
use distributed_ml_training.Manager.Steps.{enqueue}
use distributed_ml_training.Manager.Steps.Goes.{Goes, next_holds, NextKnows, enqueue-Flow}
use distributed_ml_training.Manager.Steps.Goes.Report.{MayRetry, write_retry-Flow}

-- The jobs that were read still have rows with their limits.
unfoldable pub MonitorKnows : List Job → MonitorAt → Type 0
MonitorKnows js (looping offline left) = All (IsKnown js) left
MonitorKnows js (retrying j offline left) = MayRetry js j × All (IsKnown js) left
MonitorKnows js (enqueueing d offline left) = All (IsKnown js) left
MonitorKnows js _ = Unit

running-IsKnown :
    (js : List Job)
    → Distinct (job_ids js)
    → All (IsKnown js) (keep (has_status JobState.running) js)
running-IsKnown js d = All-of_In (IsKnown js) (keep (has_status JobState.running) js) (λ j listed.
    (j, find_job_of_In js j d (In-keep (has_status JobState.running) js listed).0, refl))

-- A flow keeps what is known of the jobs that were read.
Flow-All-IsKnown :
    {v w : JobView} (js : List Job) → Flow v w → All (IsKnown v.rows) js → All (IsKnown w.rows) js
Flow-All-IsKnown [] f k = tt
Flow-All-IsKnown (j ∷ js) f k = (Flow-IsKnown f j k.0, Flow-All-IsKnown js f k.1)

-- What a thread knows stays true while others change the rows.
pub Flow-MonitorKnows :
    {v w : JobView} (t : MonitorAt) → Flow v w → MonitorKnows v.rows t → MonitorKnows w.rows t
unfolding MonitorKnows
Flow-MonitorKnows (looping offline left) f k = Flow-All-IsKnown left f k
Flow-MonitorKnows (retrying j offline left) f k =
    ((Flow-IsKnown f j k.0.0, k.0.1), Flow-All-IsKnown left f k.1)
Flow-MonitorKnows (enqueueing d offline left) f k = Flow-All-IsKnown left f k
Flow-MonitorKnows querying f k = tt
Flow-MonitorKnows (scanning offline) f k = tt
Flow-MonitorKnows marking f k = tt
Flow-MonitorKnows marking_again f k = tt
Flow-MonitorKnows tallying f k = tt

querying-Goes :
    (now timeout : ℕ) (m : Manager) (o : List String)
    → offline_nodes now timeout m.registry ≡ o
    → Goes monitor_holds MonitorKnows (view m.jobs) (monitor_step now timeout querying m)
unfolding monitor_step next_holds NextKnows monitor_holds MonitorKnows
querying-Goes now timeout m [] e = rw (e, monitor_step) (moved refl (Perm.refl m.queue), tt)
querying-Goes now timeout m (o ∷ os) e = rw (e, monitor_step) (moved refl (Perm.refl m.queue), tt)

looping-Goes :
    (now timeout : ℕ) (offline : List String) (j : Job) (js : List Job) (m : Manager)
    → IsKnown m.registry.jobs j
    → All (IsKnown m.registry.jobs) js
    → Goes monitor_holds MonitorKnows
        (view m.jobs)
        (monitor_step now timeout (looping offline (j ∷ js)) m)
unfolding monitor_step next_holds NextKnows monitor_holds MonitorKnows write_log update_job_status
looping-Goes now timeout offline j js m k ks = elim (Bool-cases (touches offline j)) [
  | inl hit ↦ elim (Bool-cases (int_ltb (pos j.retries) j.max_retries)) [
    | inl room ↦ rw (hit, room, monitor_step) (moved refl (Perm.refl m.queue), ((k, room), ks))
    | inr full ↦
        let fails =
          ended now j.job_id JobState.failed (pos 1) (inr refl) refl (Perm.refl m.queue) in
        rw (hit, full, monitor_step) (fails, Flow-All-IsKnown js fails ks)
  ]
  | inr miss ↦ rw (miss, monitor_step) (moved refl (Perm.refl m.queue), ks)
]

pub monitor_step-Goes :
    (now timeout : ℕ) (t : MonitorAt) (m : Manager)
    → Distinct (job_ids m.registry.jobs)
    → MonitorKnows m.registry.jobs t
    → Goes monitor_holds MonitorKnows
        (hold (monitor_holds t) (view m.jobs))
        (monitor_step now timeout t m)
unfolding monitor_step next_holds NextKnows monitor_holds MonitorKnows get_jobs update_gauges
    get_all_nodes enqueue
monitor_step-Goes now timeout querying m d k =
    querying-Goes now timeout m (offline_nodes now timeout m.registry) refl
monitor_step-Goes now timeout (scanning offline) m d k =
    (moved refl (Perm.refl m.queue), running-IsKnown m.registry.jobs d)
monitor_step-Goes now timeout (looping offline []) m d k = (moved refl (Perm.refl m.queue), tt)
monitor_step-Goes now timeout (looping offline (j ∷ js)) m d (k, ks) =
    looping-Goes now timeout offline j js m k ks
monitor_step-Goes now timeout (retrying j offline js) m d (k, ks) =
    (write_retry-Flow j m k, Flow-All-IsKnown js (write_retry-Flow j m k) ks)
monitor_step-Goes now timeout (enqueueing e offline js) m d k = (enqueue-Flow e m, k)
monitor_step-Goes now timeout marking m d k = (moved refl (Perm.refl m.queue), tt)
monitor_step-Goes now timeout marking_again m d k = (moved refl (Perm.refl m.queue), tt)
monitor_step-Goes now timeout tallying m d k = (moved refl (Perm.refl m.queue), tt)
