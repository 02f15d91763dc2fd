-- ===== src/Examples/Parts.antt =====
-- The registry, the queue and the allocator on small inputs.
use mathlib.Core.List.{Perm}
use mathlib.Core.Option.{get_or}
use distributed_ml_training.Base.{
  ◌≡◌, refl, ◌↔◌, pos, some, List, [], ◌∷◌, ◌++◌, ◌==◌, map, keep, All, In, false, length, arith,
}
use distributed_ml_training.Registry.Schema.{Node, Job, Registry}
use distributed_ml_training.Registry.Nodes.{get_available_nodes}
use distributed_ml_training.Registry.Jobs.{JobDict, dict_of_row, insert_job}
use distributed_ml_training.Registry.Availability.{IsAvailable, get_available_nodes_iff}
use distributed_ml_training.Queue.{JobQueue, submit_job, pop_top_job, recover_pending_jobs}
use distributed_ml_training.Queue.Order.{as_pending, submit_job_overtakes}
use distributed_ml_training.Queue.Recovery.{ServedInOrder, recover_pending_jobs_lem}
use distributed_ml_training.Allocator.{allocate, score_lt}
use distributed_ml_training.Allocator.Best.{length-allocate, allocate_best}
use distributed_ml_training.Allocator.Memory.{search_memory, gb}
use distributed_ml_training.Allocator.Format.{search_memory-get_ram_total}
use distributed_ml_training.Agent.Hardware.{get_ram_total}
use distributed_ml_training.Text.{to_upper, is_digit}
use distributed_ml_training.Manager.Rpcs.{job_data}
use distributed_ml_training.Examples.Samples.{
  whole, whole-IsOrdered, allocator, job, node, training,
}

abbrev two_nodes : List Node
two_nodes = node "n1" (pos 4) ∷ node "n2" (pos 8) ∷ []

abbrev stored : Registry
stored = record {
  nodes = two_nodes;
  metrics = [];
  jobs = job "PENDING" 1 ("n1" ∷ []) (some 3) ∷ [];
}

abbrev queued : JobQueue
queued = record {
  registry = stored;
  queue = dict_of_row (job "PENDING" 1 ("n1" ∷ []) (some 3)) ∷ [];
}

abbrev second : JobDict
second = job_data "j2" training

abbrev submitted : JobQueue
submitted = get_or (submit_job 5 second queued) queued

submitted_eq : submit_job 5 second queued ≡ some submitted
unfolding submit_job insert_job job_data
submitted_eq = refl

allocate_best_example :
    (rest : List Node) × Perm (allocate whole allocator two_nodes (pos 1) ++ rest) two_nodes
    × All
        (λ c. All (λ r. score_lt whole allocator c r ≡ false) rest)
        (allocate whole allocator two_nodes (pos 1))
allocate_best_example = allocate_best whole whole-IsOrdered allocator two_nodes 1 (omega arith)

length-allocate_example : length (allocate whole allocator two_nodes (pos 1)) ≡ 1
length-allocate_example = length-allocate whole allocator two_nodes (pos 1)

get_available_nodes_iff_example :
    In (node "n1" (pos 4)) (get_available_nodes 2 stored).1
    ↔ (In (node "n1" (pos 4)) two_nodes × IsAvailable 2 (node "n1" (pos 4)))
get_available_nodes_iff_example = get_available_nodes_iff 2 stored (node "n1" (pos 4))

recover_pending_jobs_lem_example :
    ((rows : List Job) × ((recover_pending_jobs stored).queue ≡ map dict_of_row rows)
      × Perm rows (keep (λ j. j.status == "PENDING") stored.jobs)
      × ServedInOrder rows)
    × ((recover_pending_jobs stored).registry ≡ stored)
recover_pending_jobs_lem_example = recover_pending_jobs_lem stored

popped : pop_top_job queued ≡ (
  record { registry = stored; queue = [] },
  some (dict_of_row (job "PENDING" 1 ("n1" ∷ []) (some 3))),
)
unfolding pop_top_job
popped = refl

submit_job_overtakes_example : submitted.queue ≡ as_pending second ∷ queued.queue
unfolding job_data dict_of_row
submit_job_overtakes_example =
    submit_job_overtakes 5 second queued submitted refl refl ((refl, omega arith), tt) (tt, tt)
      submitted_eq

search_memory-get_ram_total_example :
    search_memory (map to_upper (get_ram_total (b'1' ∷ b'6' ∷ []) b'0'))
    ≡ some (b'1' ∷ b'6' ∷ b'.' ∷ b'0' ∷ [], gb)
search_memory-get_ram_total_example =
    search_memory-get_ram_total b'1' (b'6' ∷ []) b'0' (unfold is_digit in (refl, (refl, tt)))
      (unfold is_digit in refl)
