-- ===== src/Queue.antt =====
-- dmlf/manager/queue.py: the in-memory job queue over the durable store.
--
-- A `JobQueue` here is the object with the registry that it shares with the rest of the manager.
-- A method takes its lock round each access of the list, and is one step.
pub mod Order
pub mod Recovery
use distributed_ml_training.Base.{
  ℕ, ◌+◌, ℤ, pos, Option, none, some, Bool, ◌&&◌, ◌||◌, List, [], ◌∷◌, ◌++◌, map, ltb, int_ltb,
  int_eqb,
}
use mathlib.Core.Option.{get_or}
use distributed_ml_training.Sort.{sort_desc}
use distributed_ml_training.Registry.JobState
use distributed_ml_training.Registry.Schema.{Registry}
use distributed_ml_training.Registry.Jobs.{
  JobDict, dict_of_row, insert_job, update_job_retries, get_jobs,
}

pub record JobQueue : Type 0 where
  pub registry : Registry
  pub queue : List JobDict

abbrev pub priority_of : JobDict → ℤ
priority_of j = get_or j.priority (pos 0)

abbrev pub created_of : JobDict → ℕ
created_of j = get_or j.created_at 0

-- `<` on the keys `(j.get("priority", 0), -j.get("created_at", 0))`: pairs compare by their first
-- parts unless those are equal, and the second part is negated.
unfoldable pub key_lt : JobDict → JobDict → Bool
key_lt a b =
    int_ltb (priority_of a) (priority_of b)
    || int_eqb (priority_of a) (priority_of b) && ltb (created_of b) (created_of a)

unfoldable pub recover_pending_jobs : Registry → JobQueue
unfolding get_jobs dict_of_row sort_desc key_lt
recover_pending_jobs r = record {
  registry = r;
  queue = sort_desc key_lt (map dict_of_row (get_jobs (some JobState.pending) r));
}

-- `none`: the insertion raised, and nothing was queued.
unfoldable pub submit_job : ℕ → JobDict → JobQueue → Option JobQueue
unfolding insert_job sort_desc key_lt
submit_job now d q =
    let d' : JobDict = record d { status = JobState.pending } in
    elim (insert_job now d' q.registry) [
      | none ↦ none
      | some r ↦ some (record { registry = r; queue = sort_desc key_lt (q.queue ++ d' ∷ []) })
    ]

unfoldable pub peek_top_job : JobQueue → Option JobDict
peek_top_job q = elim q.queue [ [] ↦ none | j ∷ js ↦ some j ]

unfoldable pub pop_top_job : JobQueue → JobQueue × Option JobDict
pop_top_job q = elim q.queue [ [] ↦ (q, none) | j ∷ js ↦ (record q { queue = js }, some j) ]

unfoldable pub requeue_job : JobDict → JobQueue → JobQueue
requeue_job j q = record q { queue = j ∷ q.queue }

unfoldable pub retry_job : JobDict → JobQueue → JobQueue
unfolding update_job_retries sort_desc key_lt
retry_job j q =
    let retries : ℕ = get_or j.retries 0 + 1 in
    let j' : JobDict = record j { retries = some retries; status = JobState.pending } in
    record {
      registry = update_job_retries j.job_id JobState.pending retries q.registry;
      queue = sort_desc key_lt (q.queue ++ j' ∷ []);
    }
