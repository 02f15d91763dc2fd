-- ===== src/Examples/Interleavings.antt =====
-- Interleavings of the manager's threads on small inputs.
use mathlib.Core.List.{Mem}
use distributed_ml_training.Base.{
  ℕ, ◌+◌, ◌≤◌, ◌≡◌, refl, String, none, some, List, [], ◌∷◌, ◌++◌, length,
}
use distributed_ml_training.Registry.Nodes.{register_node, upsert_node}
use distributed_ml_training.Registry.Jobs.{row_of_dict, insert_job, find_job, get_job}
use distributed_ml_training.Queue.{key_lt, pop_top_job}
use distributed_ml_training.Sort.{insert_desc, sort_desc}
use distributed_ml_training.Manager.State.{Manager, inc_jobs_queued, write_log}
use distributed_ml_training.Manager.Rpcs.{register_node_rpc, job_data}
use distributed_ml_training.Manager.Events.{submit, register, schedule, monitor, step}
use distributed_ml_training.Manager.Lifecycle.Pool.{Flows}
use distributed_ml_training.Manager.Lifecycle.Durable.{queue_ids}
use distributed_ml_training.Manager.Steps.{write_row, enqueue}
use distributed_ml_training.Manager.Steps.Submitting.{submit_step}
use distributed_ml_training.Manager.Steps.Scheduling.{scheduler_step}
use distributed_ml_training.Manager.Interleave.{
  System, waiting, Action, arrive, resume, then_at, thread_step, resume_at, arrive_step,
  action_step, interleave,
}
use distributed_ml_training.Manager.Interleave.Flows.{pool}
use distributed_ml_training.Manager.Interleave.Waiting.{
  new_system, interleave-new_system, interleave-pending_waits, interleave-retries_bounded,
}
use distributed_ml_training.Manager.Interleave.Atomic.{quiet, turns, interleave-turns}
use distributed_ml_training.Manager.Interleave.Drain.{interleave-drained}
use distributed_ml_training.Manager.Interleave.Races.{overlap, overlapping_failures}
use distributed_ml_training.Examples.Samples.{
  whole, config, machine, training, running, job, failed_report,
}
use distributed_ml_training.Examples.Runs.{after, runs_end, second_report}

-- A thread goes on, with a fixed identifier.
abbrev go : ℕ → ℕ × Action
go now = (now, resume 0 (λ _. "c"))

-- A job is submitted, and the scheduler has popped it and not chosen nodes yet.
abbrev popped : List (ℕ × Action)
popped =
    (1, arrive (register "n1" "s1" machine))
    ∷ (2, arrive (submit "j1" training))
    ∷ go 2
    ∷ go 2
    ∷ go 2
    ∷ go 2
    ∷ (3, arrive (schedule (λ _. "c")))
    ∷ go 3
    ∷ []

abbrev end : System
end = interleave whole config popped new_system

row_waits : get_job "j1" end.manager.registry ≡ some (job "PENDING" 0 [] none)
unfolding register_node upsert_node row_of_dict insert_job find_job get_job key_lt pop_top_job
    insert_desc sort_desc inc_jobs_queued write_log register_node_rpc job_data step write_row
    enqueue submit_step scheduler_step then_at thread_step resume_at arrive_step action_step
    interleave
row_waits = refl

interleave-pending_waits_example : Mem "j1" (queue_ids (waiting end.threads end.manager.queue))
interleave-pending_waits_example =
    interleave-pending_waits whole config popped "j1" (job "PENDING" 0 [] none) row_waits refl

interleave-retries_bounded_example : 0 ≤ 3
interleave-retries_bounded_example =
    interleave-retries_bounded whole config popped "j1" (job "PENDING" 0 [] none) row_waits

interleave-new_system_example : Flows (pool end) (pool new_system)
interleave-new_system_example = interleave-new_system whole config popped

interleave-turns_example :
    (ids : ℕ → String) × (n : ℕ) × (interleave whole config
        ((60000000, arrive monitor) ∷ turns n 60000000 ids)
        (quiet (after running))
      ≡ quiet (step whole config 60000000 monitor (after running)))
interleave-turns_example = interleave-turns whole config 60000000 monitor (after running)

-- The first handler logs and frees its node, and then the two take turns.
abbrev mixed : List (ℕ × Action)
mixed =
    (4, resume 1 (λ _. ""))
    ∷ (5, resume 1 (λ _. ""))
    ∷ (5, resume 0 (λ _. ""))
    ∷ (6, resume 1 (λ _. ""))
    ∷ []

overlapping_failures_example :
    (n : ℕ) × (m' : Manager) × (interleave whole config
        (overlap 4 failed_report second_report ++ mixed ++ turns n 4 (λ _. ""))
        (quiet (after running))
      ≡ quiet m')
    × (get_job "j1" m'.registry ≡ some (job "PENDING" 1 ("n1" ∷ []) (some 3)))
    × (length m'.queue ≡ length (after running).queue + 2)
    × (m'.job_retries ≡ (after running).job_retries + 2)
overlapping_failures_example =
    overlapping_failures whole config 4 failed_report second_report
      (job "RUNNING" 0 ("n1" ∷ []) (some 3)) (after running) mixed runs_end.5 runs_end.5 runs_end.0
      runs_end.0 refl (tt, (tt, (tt, (tt, tt))))

interleave-drained_example :
    (n : ℕ) × (last : Manager) × (interleave whole config (turns n 4 (λ _. "c")) end ≡ quiet last)
interleave-drained_example = interleave-drained whole config (λ _. "c") 4 end
