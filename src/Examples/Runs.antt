-- ===== src/Examples/Runs.antt =====
-- Runs of the manager on small inputs.
use mathlib.Core.List.{Mem}
use distributed_ml_training.Base
use distributed_ml_training.Text
use distributed_ml_training.Base.{
  ℕ, ◌+◌, length, ◌≤◌, ◌≡◌, ◌≢◌, refl, ℤ, pos, String, none, some, Option, List, [], ◌∷◌, Distinct,
  Bool, true, false, arith,
}
use distributed_ml_training.Registry.Nodes.{
  register_node, upsert_node, update_node_state, update_node, mark_offline_nodes,
  get_available_nodes, is_stale,
}
use distributed_ml_training.Registry.Jobs.{
  dict_of_row, row_of_dict, insert_job, update_job, set_status, update_job_status,
  update_job_retries, find_job, get_job, JobDict,
}
use distributed_ml_training.Queue.{key_lt, submit_job, pop_top_job, retry_job, requeue_job}
use distributed_ml_training.Sort.{insert_desc, sort_desc}
use distributed_ml_training.Allocator.{slice_to, score_node, score_lt, allocate}
use distributed_ml_training.Allocator.Memory.{
  span, match_unit, match_fraction, match_here, search_memory, parse_memory,
}
use distributed_ml_training.Manager.State.{
  inc_jobs_queued, dec_jobs_queued, inc_jobs_running, dec_jobs_running, inc_job_retries, write_log,
  send_command, new_manager, Manager,
}
use distributed_ml_training.Manager.Dispatch.{
  payload, send_all, log_allocation, start_job, dispatch_allocated_job,
}
use distributed_ml_training.Manager.Rpcs.{
  register_node_rpc, classify, report_failure, report_job_status, job_data, submit_job_rpc,
}
use distributed_ml_training.Manager.Pass.{reserve, select_nodes, place, scheduler_round}
use distributed_ml_training.Manager.Events.{step, run}
use distributed_ml_training.Manager.Lifecycle.Durable.{queue_ids}
use distributed_ml_training.Registry.Rows.{job_ids}
use distributed_ml_training.Registry.Nodes.{get_all_nodes}
use distributed_ml_training.Manager.Rpcs.{failure, JobStatusRequest}
use distributed_ml_training.Manager.Lifecycle.{view, Changes}
use distributed_ml_training.Manager.Events.{Event, report}
use distributed_ml_training.Manager.Monitor.{monitor_round}
use distributed_ml_training.Manager.Monitor.Blind.{monitor_round_blind}
use distributed_ml_training.Manager.Pass.{dispatched}
use distributed_ml_training.Manager.Pass.Placement.{Placed, scheduler_round-Placed}
use distributed_ml_training.Base.{lookup}
use distributed_ml_training.Manager.Monitor.{offline_nodes}
use distributed_ml_training.Manager.Refinement.Latency.{job_latency-run}
use distributed_ml_training.Manager.Refinement.Crash.{row_after, find_job-monitor_round}
use distributed_ml_training.Manager.Refinement.{step-Changes, run-pending_queued}
use distributed_ml_training.Examples.Samples.{
  whole, allocator, config, waiting, running, events, job, failed_report, node,
}

abbrev pub after : List (ℕ × Event) → Manager
after es = run whole config es new_manager

-- The job's row and the queue after the job was started, and after its failure; the row of the node
-- that was chosen for it.
pub runs_end :
    (get_job "j1" (after running).registry ≡ some (job "RUNNING" 0 ("n1" ∷ []) (some 3)))
    × (job_ids (after running).registry.jobs ≡ "j1" ∷ [])
    × (get_job "j1" (after events).registry ≡ some (job "PENDING" 1 ("n1" ∷ []) (some 3)))
    × ((after events).queue ≡ dict_of_row (job "PENDING" 1 ("n1" ∷ []) (some 3)) ∷ [])
    × (scheduler_round whole allocator (λ n. "c") 3 29500 (after waiting)
        ≡ (after running, dispatched (node "n1" (pos 8) ∷ [])))
    × (classify "failed" ≡ failure)
unfolding register_node upsert_node update_node_state update_node mark_offline_nodes
    get_available_nodes is_stale dict_of_row row_of_dict insert_job update_job set_status
    update_job_status update_job_retries find_job get_job key_lt submit_job pop_top_job retry_job
    requeue_job insert_desc sort_desc slice_to score_node score_lt allocate span match_unit
    match_fraction match_here search_memory parse_memory inc_jobs_queued dec_jobs_queued
    inc_jobs_running dec_jobs_running inc_job_retries write_log send_command payload send_all
    log_allocation start_job dispatch_allocated_job register_node_rpc classify report_failure
    report_job_status job_data submit_job_rpc reserve select_nodes place scheduler_round step run
    Base.lookup Base.insert Text.lower Text.same_text Text.to_lower
runs_end = (refl, refl, refl, refl, refl, refl)

run-pending_queued_example : Mem "j1" (queue_ids (after events).queue)
run-pending_queued_example =
    run-pending_queued whole config events "j1" (job "PENDING" 1 ("n1" ∷ []) (some 3)) runs_end.2
      refl

Distinct-running : Distinct (job_ids (after running).registry.jobs)
Distinct-running = rw (runs_end.1) (tt, tt)

step-Changes_example :
    Changes
      (view (step whole config 4 (report failed_report) (after running)).jobs)
      (view (after running).jobs)
step-Changes_example =
    step-Changes whole config 4 (report failed_report) (after running) Distinct-running

scheduler_round-Placed_example :
    (d : JobDict) × Placed 3 (node "n1" (pos 8) ∷ []) d (after waiting) (after running)
scheduler_round-Placed_example =
    scheduler_round-Placed whole allocator (λ n. "c") 3 29500 (after waiting) (after running)
      (node "n1" (pos 8) ∷ []) runs_end.4

abbrev pub second_report : JobStatusRequest
second_report = record { node_id = "n2"; job_id = "j1"; status = "failed" }

monitor_round_blind_example :
    view
      (monitor_round 60000000 15000000 (record (after running) {
        jobs = record (after running).jobs {
          registry = (get_all_nodes 60000000 (after running).registry).0;
        };
      })).jobs
    ≡ view (after running).jobs
monitor_round_blind_example = monitor_round_blind 60000000 15000000 (after running) (omega arith)

job_latency-run_example : (after events).job_latency ≡ []
job_latency-run_example = job_latency-run whole config events

find_job-monitor_round_example :
    get_job "j1" (monitor_round 60000000 15000000 (after running)).registry
    ≡ some (
        row_after 60000000
          (offline_nodes 60000000 15000000 (after running).registry)
          (job "RUNNING" 0 ("n1" ∷ []) (some 3)))
find_job-monitor_round_example =
    find_job-monitor_round 60000000 15000000 (after running) "j1"
      (job "RUNNING" 0 ("n1" ∷ []) (some 3)) Distinct-running runs_end.0
