-- ===== src/Examples/Clusters.antt =====
-- The manager with its agents, its threads and its health answers, on small inputs.
use distributed_ml_training.Cluster.Output.{end_report, log_generator, stream_output}
use distributed_ml_training.Cluster.Output.Cut.{entry_of, stream_output-cut}
use distributed_ml_training.Agent.Launcher.{log_messages}
use distributed_ml_training.Base.{String, List, ◌⊎◌, take, map}
use distributed_ml_training.Manager.Rpcs.{report_job_status}
use distributed_ml_training.Manager.State.{Manager, new_manager}
use distributed_ml_training.Base.{
  ◌+◌, ◌≤◌, ◌<◌, ◌↔◌, ◌≡◌, refl, pos, none, some, true, false, length, [], ◌∷◌, lookup,
}
use distributed_ml_training.Registry.JobState
use distributed_ml_training.Registry.Schema.{Job}
use distributed_ml_training.Registry.Jobs.{dict_of_row, get_job, set_status}
use distributed_ml_training.Manager.State.{Manager, new_manager}
use distributed_ml_training.Manager.Dispatch.{dispatch_allocated_job}
use distributed_ml_training.Agent.State.{NodeAgent, new_agent, alive, launch_torchrun}
use distributed_ml_training.Registry.Nodes.{get_available_nodes}
use distributed_ml_training.Health.{cluster_handler}
use distributed_ml_training.Health.Counts.{cluster_handler-bounds}
use distributed_ml_training.Threads.{
  Background, in_round, ThreadStep, start, stop, advance, start_thread, advance_thread, thread_step,
  thread_run,
}
use distributed_ml_training.Threads.Stopped.{steps_left, stop-no_rounds}
use distributed_ml_training.Cluster.{Cluster, deliver, job_ends}
use distributed_ml_training.Cluster.Reports.{ended_row}
use distributed_ml_training.Cluster.EndToEnd.{job_ends-dispatched}
use distributed_ml_training.Examples.Samples.{node, job}

abbrev agent : NodeAgent
agent = record new_agent { node_id = some "n1" }

abbrev waiting_job : Job
waiting_job = job "PENDING" 0 [] none

abbrev cluster : Cluster
cluster = record {
  manager = record new_manager {
    jobs = record {
      registry = record { nodes = node "n1" (pos 8) ∷ []; metrics = []; jobs = waiting_job ∷ [] };
      queue = [];
    };
    command_queues = ("n1", []) ∷ [];
  };
  agents = ("n1", agent) ∷ [];
}

-- The cluster after a dispatch to the node, and the delivery of its command.
abbrev sent : Cluster
sent = deliver "n1" (record cluster {
  manager =
      (dispatch_allocated_job (λ k. "c") 3 29500 (dict_of_row waiting_job) (node "n1" (pos 8) ∷ [])
        cluster.manager).0;
})

job_ends-dispatched_example :
    (lookup "n1" sent.agents ≡ some (record agent { status = "TRAINING"; process = alive "j1" }))
    × (get_job "j1" (job_ends 9 "n1" (pos 1) sent).manager.registry
        ≡ some (
            ended_row 9
              (pos 1)
              (set_status 3 JobState.running (some ("n1" ∷ [])) none waiting_job)))
unfolding lookup get_job launch_torchrun dict_of_row
job_ends-dispatched_example =
    job_ends-dispatched (λ k. "c") 3 9 29500 (dict_of_row waiting_job) (node "n1" (pos 8)) [] agent
      waiting_job (pos 1) cluster refl refl refl refl refl

cluster_handler-bounds_example :
    ((cluster_handler 5 cluster.manager.registry).1.idle_nodes
        + (cluster_handler 5 cluster.manager.registry).1.busy_nodes
        + (cluster_handler 5 cluster.manager.registry).1.offline_nodes
      ≤ (cluster_handler 5 cluster.manager.registry).1.total_nodes)
    × ((cluster_handler 5 cluster.manager.registry).1.idle_nodes
        ≡ length (get_available_nodes 5 cluster.manager.registry).1)
    × (((cluster_handler 5 cluster.manager.registry).1.can_schedule ≡ true)
        ↔ (0 < length (get_available_nodes 5 cluster.manager.registry).1))
cluster_handler-bounds_example = cluster_handler-bounds 5 cluster.manager.registry

abbrev running_thread : Background
running_thread = record { stop_set = false; place = in_round; rounds = 4 }

abbrev hasty_steps : List ThreadStep
hasty_steps = start ∷ advance ∷ start ∷ advance ∷ []

stop-no_rounds_example :
    ((thread_run hasty_steps (thread_step stop running_thread)).rounds ≡ 4)
    × (steps_left (thread_run hasty_steps (thread_step stop running_thread)).place ≡ 0)
unfolding thread_step start_thread advance_thread
stop-no_rounds_example = stop-no_rounds hasty_steps running_thread (λ e. cc, (λ e. cc, tt))

abbrev output : List String
output = "epoch 0\n" ∷ "epoch 1\n" ∷ []

abbrev cut_log : Manager
cut_log = record new_manager {
  log_file = map entry_of (take 1 (log_messages (λ n. "t") "n1" "j1" 0 output));
}

stream_output-cut_example :
    (2 < 2)
      × (stream_output 5 1 (log_generator (λ n. "t") "n1" "j1" (pos 0) 2 0 output) new_manager
          ≡ report_job_status 5 (end_report "n1" "j1" (pos 0)) cut_log)
    ⊎ (2 ≤ 2)
      × (stream_output 5 1 (log_generator (λ n. "t") "n1" "j1" (pos 0) 2 0 output) new_manager
          ≡ cut_log)
stream_output-cut_example = stream_output-cut (λ n. "t") "n1" "j1" output (pos 0) 2 1 5 new_manager
