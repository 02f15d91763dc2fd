-- ===== src/Manager/Lifecycle.antt =====
-- What the manager may do to its jobs, as a specification: the rows of the database and the queue
-- in memory, and the changes that they go through.
pub mod Pool
pub mod Invariants
pub mod Durable
pub mod Sound
use distributed_ml_training.Base.{
  ℕ, suc, ◌+◌, ℤ, pos, int_ltb, ◌≡◌, ◌≢◌, subst, ◌⊎◌, Option, none, some, Bool, true, List, [], ◌∷◌,
  ◌++◌, map, keep, String,
}
use distributed_ml_training.Sort.{sort_desc}
use distributed_ml_training.Registry.JobState
use distributed_ml_training.Registry.Schema.{Job}
use distributed_ml_training.Registry.Jobs.{
  JobDict, dict_of_row, row_of_dict, update_job, set_status, find_job, has_status,
}
use distributed_ml_training.Queue.{key_lt, JobQueue}
use distributed_ml_training.Queue.Order.{Enqueued, as_pending, as_retried}

-- The rows of `jobs` and the queue.
pub record JobView : Type 0 where
  pub rows : List Job
  pub queue : List JobDict

abbrev pub view : JobQueue → JobView
view q = record { rows = q.registry.jobs; queue = q.queue }

-- The row that `update_job_retries` writes.
abbrev pub retried_row : ℕ → Job → Job
retried_row n j = record j { status = JobState.pending; retries = n }

-- The queue that a restart builds.
abbrev pub rebuilt : List Job → List JobDict
rebuilt js = sort_desc key_lt (map dict_of_row (keep (has_status JobState.pending) js))

-- One change.
pub data Change (v w : JobView) : Type 0 where
  -- A new job: a key that no row has, no retries, PENDING, and behind its equals in the queue.
  submitted :
      (now : ℕ) (d : JobDict)
      → find_job d.job_id v.rows ≡ none
      → d.retries ≡ none
      → w.rows ≡ v.rows ++ row_of_dict now (as_pending d) ∷ []
      → Enqueued v.queue (as_pending d) w.queue
      → Change v w
  -- A job with retries left goes back to PENDING and into the queue, with one retry more.
  retried :
      (j : Job)
      → find_job j.job_id v.rows ≡ some j
      → int_ltb (pos j.retries) j.max_retries ≡ true
      → w.rows ≡ update_job j.job_id (retried_row (j.retries + 1)) v.rows
      → Enqueued v.queue (as_retried (dict_of_row j)) w.queue
      → Change v w
  -- A job ends, and the queue stays.
  finished :
      (now : ℕ) (id status : String) (code : ℤ)
      → (status ≡ JobState.completed) ⊎ (status ≡ JobState.failed)
      → w.rows ≡ update_job id (set_status now status none (some code)) v.rows
      → w.queue ≡ v.queue
      → Change v w
  -- The job at the head of the queue leaves it and runs on some nodes.
  started :
      (now : ℕ) (d : JobDict) (nodes : List String)
      → nodes ≢ []
      → v.queue ≡ d ∷ w.queue
      → w.rows ≡ update_job d.job_id (set_status now JobState.running (some nodes) none) v.rows
      → Change v w
  -- The queue is built again from the PENDING rows.
  restarted : w.rows ≡ v.rows → w.queue ≡ rebuilt v.rows → Change v w

-- Any number of changes.
pub data Changes (w : JobView) : JobView → Type 0 where
  here : Changes w w
  next : {v u : JobView} → Change v u → Changes w u → Changes w v

pub same-Changes : {v w : JobView} → w ≡ v → Changes w v
same-Changes {v} {w} e = subst (λ (x : JobView). Changes w x) e here

pub one-Change : {v w : JobView} → Change v w → Changes w v
one-Change c = next c here
