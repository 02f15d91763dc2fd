-- ===== src/Examples/Rounds.antt =====
-- Rounds of the scheduler, dispatches and heartbeats on small inputs.
use distributed_ml_training.Base
use distributed_ml_training.Text
use distributed_ml_training.Base.{
  ℕ, ◌+◌, length, ◌≤◌, ◌≡◌, ◌≢◌, refl, ℤ, pos, String, none, some, Option, List, [], ◌∷◌, Distinct,
  Bool, true, false, arith,
}
use distributed_ml_training.Registry.Nodes.{
  register_node, upsert_node, update_node_state, update_node, mark_offline_nodes,
  get_available_nodes, is_stale,
}
use distributed_ml_training.Registry.Jobs.{
  dict_of_row, row_of_dict, insert_job, update_job, set_status, update_job_status,
  update_job_retries, find_job, get_job, JobDict,
}
use distributed_ml_training.Queue.{key_lt, submit_job, pop_top_job, retry_job, requeue_job}
use distributed_ml_training.Sort.{insert_desc, sort_desc}
use distributed_ml_training.Allocator.{slice_to, score_node, score_lt, allocate}
use distributed_ml_training.Allocator.Memory.{
  span, match_unit, match_fraction, match_here, search_memory, parse_memory,
}
use distributed_ml_training.Manager.State.{
  inc_jobs_queued, dec_jobs_queued, inc_jobs_running, dec_jobs_running, inc_job_retries, write_log,
  send_command,
}
use distributed_ml_training.Manager.Dispatch.{
  payload, send_all, log_allocation, start_job, dispatch_allocated_job,
}
use distributed_ml_training.Manager.Rpcs.{
  register_node_rpc, classify, report_failure, report_job_status, job_data, submit_job_rpc,
}
use distributed_ml_training.Manager.Pass.{reserve, select_nodes, place, scheduler_round}
use distributed_ml_training.Manager.Events.{step, run}
use distributed_ml_training.Registry.Schema.{Node}
use distributed_ml_training.Manager.Pass.{dispatched}
use distributed_ml_training.Manager.Pass.Progress.{scheduler_round-dispatched}
use distributed_ml_training.Base.{lookup}
use distributed_ml_training.Manager.State.{launch_job}
use distributed_ml_training.Manager.Dispatch.Delivery.{queue_with, lookup-dispatch_allocated_job}
use distributed_ml_training.Examples.Samples.{
  whole, allocator, waiting, running, job, node, training, launch,
}
use distributed_ml_training.Base.{In, inl}
use distributed_ml_training.Manager.Rpcs.{HeartbeatRequest, send_heartbeat}
use distributed_ml_training.Manager.Rpcs.Heartbeats.{send_heartbeat-IsAvailable}
use distributed_ml_training.Examples.Runs.{after}

abbrev waiting_dict : JobDict
waiting_dict = record (job_data "j1" training) { status = "PENDING" }

abbrev started_dict : JobDict
started_dict = dict_of_row (job "PENDING" 0 [] none)

abbrev reserved_node : Node
reserved_node = record (node "n1" (pos 8)) { status = "RESERVED" }

abbrev idle_heartbeat : HeartbeatRequest
idle_heartbeat = record {
  node_id = "n1";
  sample = record {
    cpu_percent = pos 0;
    ram_percent = pos 0;
    gpu_utilization = pos 0;
    gpu_memory_mb = pos 0;
  };
  current_status = "IDLE";
  send_timestamp = 3;
}

-- The queue and the number of available nodes before the round, in time and a minute later, and the
-- nodes after it.
waiting_end :
    ((after waiting).queue ≡ waiting_dict ∷ [])
    × (length (get_available_nodes 3 (after waiting).registry).1 ≡ 1)
    × (length (get_available_nodes 60000000 (after waiting).registry).1 ≡ 0)
    × ((after running).registry.nodes ≡ reserved_node ∷ [])
unfolding register_node upsert_node update_node_state update_node mark_offline_nodes
    get_available_nodes is_stale dict_of_row row_of_dict insert_job update_job set_status
    update_job_status update_job_retries find_job get_job key_lt submit_job pop_top_job retry_job
    requeue_job insert_desc sort_desc slice_to score_node score_lt allocate span match_unit
    match_fraction match_here search_memory parse_memory inc_jobs_queued dec_jobs_queued
    inc_jobs_running dec_jobs_running inc_job_retries write_log send_command payload send_all
    log_allocation start_job dispatch_allocated_job register_node_rpc classify report_failure
    report_job_status job_data submit_job_rpc reserve select_nodes place scheduler_round step run
    Base.lookup Base.insert Text.lower Text.same_text Text.to_lower
waiting_end = (refl, refl, refl, refl)

scheduler_round-dispatched_example :
    (ns : List Node) × ((scheduler_round whole allocator (λ n. "c") 3 29500 (after waiting)).1
      ≡ dispatched ns)
    × (length ns ≡ 1)
unfolding job_data
scheduler_round-dispatched_example =
    scheduler_round-dispatched whole allocator (λ n. "c") 3 29500 (after waiting) waiting_dict [] 0
      waiting_end.0 refl (omega (arith, waiting_end.1))

lookup-dispatch_allocated_job_example :
    lookup "n1"
      (dispatch_allocated_job
        (λ n. "c")
        3
        29500
        started_dict
        (node "n1" (pos 8) ∷ [])
        (after waiting)).0.command_queues
    ≡ queue_with (launch_job "c" launch ∷ []) (lookup "n1" (after waiting).command_queues)
unfolding payload dict_of_row
lookup-dispatch_allocated_job_example =
    lookup-dispatch_allocated_job (λ n. "c") 3 29500 started_dict (node "n1" (pos 8)) [] "n1"
      (after waiting)

send_heartbeat-IsAvailable_example :
    In
      (record reserved_node { last_heartbeat = 4; status = "IDLE" })
      (get_available_nodes 5 (send_heartbeat 4 idle_heartbeat (after running)).registry).1
send_heartbeat-IsAvailable_example =
    send_heartbeat-IsAvailable 4 5 idle_heartbeat (after running) reserved_node
      (rw (waiting_end.3) (inl refl)) refl refl (omega arith)
