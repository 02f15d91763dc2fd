-- ===== src/Manager/Steps/Alone/Monitor.antt =====
-- dmlf/manager/cluster_manager.py: the accesses of a round of the monitor one after the other are the
-- round.
use distributed_ml_training.Base.{
  ℕ, ◌+◌, pos, int_ltb, ◌≡◌, refl, inl, inr, String, none, some, List, [], ◌∷◌, Bool-cases,
}
use distributed_ml_training.Registry.JobState
use distributed_ml_training.Registry.Schema.{Job}
use distributed_ml_training.Registry.Nodes.{get_all_nodes, mark_offline_nodes, offline_timeout}
use distributed_ml_training.Registry.Jobs.{dict_of_row, update_job_status, get_jobs}
use distributed_ml_training.Queue.{retry_job}
use distributed_ml_training.Manager.State.{Manager, crashed, write_log, manager_entry}
use distributed_ml_training.Manager.Rpcs.{with_registry}
use distributed_ml_training.Manager.Monitor.{
  offline_nodes, touches, fail_job, fail_jobs, update_gauges, monitor_round,
}
use distributed_ml_training.Manager.Steps.{write_retry, enqueue}
use distributed_ml_training.Manager.Steps.Monitoring.{
  MonitorAt, querying, scanning, looping, retrying, marking, monitor_step,
}
use distributed_ml_training.Manager.Steps.Alone.{Runs, over, go, go_as}

module _ (now timeout : ℕ) where
  abbrev Round : Manager → MonitorAt → Manager → Type 0
  Round last t m = Runs (monitor_step now timeout) last (some t) m

  -- The end of the round.
  abbrev tally : Manager → Manager
  tally m =
      update_gauges now
        (with_registry (λ r. record r { nodes = mark_offline_nodes now offline_timeout r.nodes }) m)

  pub marking-Runs : (m : Manager) → Round (tally m) marking m
  unfolding monitor_step update_gauges get_all_nodes
  marking-Runs m = go (go (go over))

  pub looping-Runs :
      (offline : List String) (js : List Job) (m : Manager)
      → Round (tally (fail_jobs now offline js m)) (looping offline js) m
  unfolding monitor_step fail_jobs fail_job write_retry enqueue retry_job dict_of_row
  looping-Runs offline [] m = go (marking-Runs m)
  looping-Runs offline (j ∷ js) m = elim (Bool-cases (touches offline j)) [
    | inl hit ↦ elim (Bool-cases (int_ltb (pos j.retries) j.max_retries)) [
      | inl room ↦
          rw (hit, fail_jobs)
            (go_as
              (
                write_log
                    (manager_entry now j.job_id "WARNING" (crashed (j.retries + 1) j.max_retries))
                    m,
                some (retrying j offline js),
              )
              (rw (hit, room, monitor_step) refl)
              (rw (room, fail_job) (go (go (looping-Runs offline js _)))))
      | inr full ↦
          rw (hit, fail_jobs)
            (go_as
              (
                with_registry (update_job_status now j.job_id JobState.failed none (some (pos 1)))
                    m,
                some (looping offline js),
              )
              (rw (hit, full, monitor_step) refl) (rw (full, fail_job) (looping-Runs offline js _)))
    ]
    | inr miss ↦
        rw (miss, fail_jobs)
          (go_as (m, some (looping offline js)) (rw (miss, monitor_step) refl)
            (looping-Runs offline js m))
  ]

  querying-Runs :
      (m : Manager) (o : List String)
      → offline_nodes now timeout m.registry ≡ o
      → Round (monitor_round now timeout m) querying m
  unfolding monitor_round monitor_step
  querying-Runs m [] e =
      rw (e, monitor_round) (go_as (m, some marking) (rw (e, monitor_step) refl) (marking-Runs m))
  querying-Runs m (o ∷ os) e =
      rw (e, monitor_round)
        (go_as (m, some (scanning (o ∷ os))) (rw (e, monitor_step) refl)
          (go (looping-Runs (o ∷ os) (get_jobs (some JobState.running) m.registry) m)))

  pub monitor_round-Runs : (m : Manager) → Round (monitor_round now timeout m) querying m
  monitor_round-Runs m = querying-Runs m (offline_nodes now timeout m.registry) refl
