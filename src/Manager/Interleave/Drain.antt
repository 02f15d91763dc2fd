-- ===== src/Manager/Interleave/Drain.antt =====
-- Every thread of the manager comes to its end.
use distributed_ml_training.Base.{
  ℕ, zero, suc, ◌+◌, String, ◌≡◌, refl, ap, ◌∙◌, inl, inr, Option, none, some, List, [], ◌∷◌, ◌++◌,
  Option-cases, arith,
}
use distributed_ml_training.Floats.{Floats}
use distributed_ml_training.Allocator.{NodeAllocator}
use distributed_ml_training.Manager.State.{Manager}
use distributed_ml_training.Manager.Rpcs.{job_data}
use distributed_ml_training.Queue.Order.{as_pending}
use distributed_ml_training.Manager.Events.{Config}
use distributed_ml_training.Manager.Steps.{write_row}
use distributed_ml_training.Manager.Steps.Scheduling.{
  SchedulerAt, popping, marking, selecting, placing, reserving, starting, counting, sending,
  scheduler_step,
}
use distributed_ml_training.Manager.Steps.Reporting
use distributed_ml_training.Manager.Steps.Reporting.{ReportAt, report_step}
use distributed_ml_training.Manager.Steps.Submitting
use distributed_ml_training.Manager.Steps.Submitting.{SubmitAt, submit_step}
use distributed_ml_training.Manager.Steps.Monitoring
use distributed_ml_training.Manager.Steps.Monitoring.{MonitorAt, monitor_step}
use distributed_ml_training.Manager.Steps.Alone.{Runs, over, go, go_as}
use distributed_ml_training.Manager.Steps.Alone.Scheduler.{
  scheduler_round-Runs, marking-Runs, placing-Runs, reserving-Runs, sending-Runs,
}
use distributed_ml_training.Manager.Steps.Alone.Report.{
  report_job_status-Runs, logging-Runs, completing-Runs,
}
use distributed_ml_training.Manager.Steps.Alone.Submit.{submit_job_rpc-Runs}
use distributed_ml_training.Manager.Steps.Alone.Monitor.{
  monitor_round-Runs, looping-Runs, marking-Runs as remarking-Runs,
}
use distributed_ml_training.Manager.Interleave.{
  Thread, scheduling, reporting, submitting, monitoring, System, Action, resume, thread_step,
  interleave,
}
use distributed_ml_training.Manager.Interleave.Atomic.{
  quiet, turns, next_threads, alone, interleave-append,
}

-- The steps from a place in the code come to an end.
abbrev Ends : {A : Type 0} → (A → Manager → Manager × Option A) → A → Manager → Type 0
Ends f t m = (last : Manager) × Runs f last (some t) m

scheduler-Ends :
    (fl : Floats) (alloc : NodeAllocator fl) (ids : ℕ → String) (now port : ℕ) (t : SchedulerAt)
    (m : Manager)
    → Ends (scheduler_step fl alloc ids now port) t m
unfolding scheduler_step
scheduler-Ends fl alloc ids now port popping m = (_, scheduler_round-Runs fl alloc ids now port m)
scheduler-Ends fl alloc ids now port (marking d) m = (_, marking-Runs fl alloc ids now port d m)
scheduler-Ends fl alloc ids now port (selecting d) m =
    (_, go (placing-Runs fl alloc ids now port d _ m))
scheduler-Ends fl alloc ids now port (placing d nodes) m =
    (_, placing-Runs fl alloc ids now port d nodes m)
scheduler-Ends fl alloc ids now port (reserving d n ns left) m =
    (_, reserving-Runs fl alloc ids now port d n ns left m)
scheduler-Ends fl alloc ids now port (starting d n ns) m =
    (_, go (go (sending-Runs fl alloc ids now port d n.ip_address 0 (n ∷ ns) _)))
scheduler-Ends fl alloc ids now port (counting d n ns) m =
    (_, go (sending-Runs fl alloc ids now port d n.ip_address 0 (n ∷ ns) _))
scheduler-Ends fl alloc ids now port (sending d master rank left) m =
    (_, sending-Runs fl alloc ids now port d master rank left m)

report-Ends : (now : ℕ) (t : ReportAt) (m : Manager) → Ends (report_step now) t m
unfolding report_step
report-Ends now (Reporting.reading q) m = (_, report_job_status-Runs now q m)
report-Ends now (Reporting.logging q j) m = (_, logging-Runs now q j m)
report-Ends now (Reporting.freeing q j) m = (_, go (go (go (go over))))
report-Ends now (Reporting.retrying j) m = (_, go (go (go over)))
report-Ends now (Reporting.enqueueing d) m = (_, go (go over))
report-Ends now Reporting.counting_retry m = (_, go over)
report-Ends now (Reporting.failing q) m = (_, go (go over))
report-Ends now (Reporting.releasing q) m = (_, go over)
report-Ends now (Reporting.completing q) m = (_, completing-Runs now q m)
report-Ends now (Reporting.leaving q) m = (_, go (go (go over)))
report-Ends now (Reporting.counting q) m = (_, go (go over))
report-Ends now (Reporting.observing q) m = (_, go over)

submit-Ends : (now : ℕ) (t : SubmitAt) (m : Manager) → Ends (submit_step now) t m
unfolding submit_step
submit-Ends now (Submitting.logging id q) m = (_, submit_job_rpc-Runs now id q m)
submit-Ends now (Submitting.inserting id q) m =
    let d = as_pending (job_data id q) in
    elim (Option-cases (write_row now d m)) [
      | inl e ↦ (m, go_as (m, none) (rw (e, submit_step) refl) over)
      | inr (m', e) ↦
          (_, go_as (m', some (Submitting.enqueueing d)) (rw (e, submit_step) refl) (go (go over)))
    ]
submit-Ends now (Submitting.enqueueing d) m = (_, go (go over))
submit-Ends now Submitting.counting m = (_, go over)

monitor-Ends : (now timeout : ℕ) (t : MonitorAt) (m : Manager) → Ends (monitor_step now timeout) t m
unfolding monitor_step
monitor-Ends now timeout Monitoring.querying m = (_, monitor_round-Runs now timeout m)
monitor-Ends now timeout (Monitoring.scanning offline) m =
    (_, go (looping-Runs now timeout offline _ m))
monitor-Ends now timeout (Monitoring.looping offline js) m =
    (_, looping-Runs now timeout offline js m)
monitor-Ends now timeout (Monitoring.retrying j offline js) m =
    (_, go (go (looping-Runs now timeout offline js _)))
monitor-Ends now timeout (Monitoring.enqueueing d offline js) m =
    (_, go (looping-Runs now timeout offline js _))
monitor-Ends now timeout Monitoring.marking m = (_, remarking-Runs now timeout m)
monitor-Ends now timeout Monitoring.marking_again m = (_, go (go over))
monitor-Ends now timeout Monitoring.tallying m = (_, go over)

module _ (fl : Floats) (cfg : Config fl) (ids : ℕ → String) (now : ℕ) where
  -- Turns of the thread at the head of the list, until there is one thread less.
  first_ends :
      (t : Thread) (ts : List Thread) (m : Manager)
      → (n : ℕ) × (last : Manager) × (interleave fl cfg
            (turns n now ids)
            (record { manager = m; threads = t ∷ ts })
          ≡ record { manager = last; threads = ts })
  unfolding thread_step next_threads
  first_ends (scheduling t) ts m =
      let (last, runs) = scheduler-Ends fl cfg.alloc ids now cfg.master_port t m in
      let (n, e) = alone fl cfg ids now ts scheduling (λ x y. refl) runs in (n, last, e)
  first_ends (reporting t) ts m =
      let (last, runs) = report-Ends now t m in
      let (n, e) = alone fl cfg ids now ts reporting (λ x y. refl) runs in (n, last, e)
  first_ends (submitting t) ts m =
      let (last, runs) = submit-Ends now t m in
      let (n, e) = alone fl cfg ids now ts submitting (λ x y. refl) runs in (n, last, e)
  first_ends (monitoring t) ts m =
      let (last, runs) = monitor-Ends now cfg.monitor_timeout t m in
      let (n, e) = alone fl cfg ids now ts monitoring (λ x y. refl) runs in (n, last, e)

  turns-append :
      (n k total : ℕ) → total ≡ n + k → turns total now ids ≡ turns n now ids ++ turns k now ids
  unfolding turns
  turns-append zero k total e = ap (λ (x : ℕ). turns x now ids) (total_is total k e)
    where
      total_is : (x y : ℕ) → x ≡ zero + y → x ≡ y
      total_is x y h = omega arith
  turns-append (suc n) k zero e = absurd (omega arith)
  turns-append (suc n) k (suc t) e =
      ap (λ (l : List (ℕ × Action)). (now, resume 0 ids) ∷ l) (turns-append n k t (omega arith))

  drain :
      (ts : List Thread) (m : Manager)
      → (n : ℕ) × (last : Manager) × (interleave fl cfg
            (turns n now ids)
            (record { manager = m; threads = ts })
          ≡ quiet last)
  unfolding interleave turns
  drain [] m = (0, m, refl)
  drain (t ∷ ts) m =
      let (n, between, first) = first_ends t ts m in
      let (k, last, rest) = drain ts between in
      (
        n + k,
        last,
        ap
              (λ (l : List (ℕ × Action)).
                interleave fl cfg l (record { manager = m; threads = t ∷ ts }))
              (turns-append n k (n + k) refl)
            ∙ interleave-append fl cfg (turns n now ids) (turns k now ids) _
            ∙ ap (λ (s : System). interleave fl cfg (turns k now ids) s) first
            ∙ rest,
      )

  -- From every state of the system, whatever calls and rounds are in progress and wherever they
  -- stand, some number of turns of the first thread that is left brings all of them to their end.
  pub interleave-drained :
      (s : System)
      → (n : ℕ) × (last : Manager) × (interleave fl cfg (turns n now ids) s ≡ quiet last)
  interleave-drained s = drain s.threads s.manager
