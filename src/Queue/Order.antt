-- ===== src/Queue/Order.antt =====
-- dmlf/manager/queue.py: the order in which jobs are served.
use mathlib.Core.List.{Perm}
use distributed_ml_training.Base.{
  ℕ, ◌<◌, ℤ, pos, negsuc, ◌≡◌, refl, ◌∙◌, none, some, List, [], ◌∷◌, ◌++◌, Bool, true, false, not,
  ◌&&◌, ◌||◌, All, keep, arith, int_ltb, int_eqb, ltb, ap, ◌+◌,
}
use mathlib.Core.Option.{get_or}
use distributed_ml_training.Sort.{insert_desc, sort_desc}
use distributed_ml_training.Sort.Laws.{
  IsDesc, sort_desc-perm, sort_desc-IsDesc, keep-sort_desc, sort_desc_of_IsDesc,
}
use distributed_ml_training.Registry.JobState
use distributed_ml_training.Registry.Jobs.{JobDict, insert_job}
use distributed_ml_training.Queue.{
  JobQueue, priority_of, created_of, key_lt, submit_job, pop_top_job, requeue_job, retry_job,
}

int_ltb_asym : (a b : ℤ) → int_ltb a b ≡ true → int_ltb b a ≡ false
int_ltb_asym a b h = ground arith

int_eqb_sym : (a b : ℤ) → int_eqb a b ≡ true → (int_ltb a b ≡ false) × (int_ltb b a ≡ false)
int_eqb_sym (pos a) (pos b) h = ground arith
int_eqb_sym (pos a) (negsuc b) h = ground arith
int_eqb_sym (negsuc a) (pos b) h = ground arith
int_eqb_sym (negsuc a) (negsuc b) h = ground arith

-- A pair of keys is not below another exactly when its first part is greater, or both first parts
-- are equal and its time is no later.
abbrev NotBelow : ℤ → ℕ → ℤ → ℕ → Type 0
NotBelow a s b t = (int_ltb a b || int_eqb a b && ltb t s) ≡ false

NotBelow-step : (a b c : ℤ) (s t u : ℕ) → NotBelow a s b t → NotBelow b t c u → NotBelow a s c u
NotBelow-step (pos a) (pos b) (pos c) s t u h k = ground arith
NotBelow-step (pos a) (pos b) (negsuc c) s t u h k = ground arith
NotBelow-step (pos a) (negsuc b) (pos c) s t u h k = ground arith
NotBelow-step (pos a) (negsuc b) (negsuc c) s t u h k = ground arith
NotBelow-step (negsuc a) (pos b) (pos c) s t u h k = ground arith
NotBelow-step (negsuc a) (pos b) (negsuc c) s t u h k = ground arith
NotBelow-step (negsuc a) (negsuc b) (pos c) s t u h k = ground arith
NotBelow-step (negsuc a) (negsuc b) (negsuc c) s t u h k = ground arith

below_asym : (a b : ℤ) (s t : ℕ) → (int_ltb a b || int_eqb a b && ltb t s) ≡ true → NotBelow b t a s
below_asym (pos a) (pos b) s t h = ground arith
below_asym (pos a) (negsuc b) s t h = ground arith
below_asym (negsuc a) (pos b) s t h = ground arith
below_asym (negsuc a) (negsuc b) s t h = ground arith

pub key_lt-asym : (a b : JobDict) → key_lt a b ≡ true → key_lt b a ≡ false
unfolding key_lt
key_lt-asym a b h = below_asym (priority_of a) (priority_of b) (created_of a) (created_of b) h

pub key_lt-step : (a b c : JobDict) → key_lt a b ≡ false → key_lt b c ≡ false → key_lt a c ≡ false
unfolding key_lt
key_lt-step a b c h k =
    NotBelow-step (priority_of a) (priority_of b) (priority_of c) (created_of a) (created_of b)
      (created_of c) h k

abbrev pub IsServed : List JobDict → Type 0
IsServed = IsDesc key_lt

pub sorted-IsServed : (l : List JobDict) → IsServed (sort_desc key_lt l)
sorted-IsServed = sort_desc-IsDesc key_lt key_lt-asym key_lt-step

-- The jobs with the key of `k`.
unfoldable pub same_key : JobDict → JobDict → Bool
same_key k j = not (key_lt k j) && not (key_lt j k)

same_key_equal : (k x y : JobDict) → same_key k x ≡ true → same_key k y ≡ true → key_lt x y ≡ false
unfolding same_key
same_key_equal k x y p q = key_lt-step x k y (ground arith) (ground arith)

pub keep-same_key :
    (k : JobDict) (l : List JobDict) → keep (same_key k) (sort_desc key_lt l) ≡ keep (same_key k) l
keep-same_key k = keep-sort_desc key_lt (same_key k) (same_key_equal k)

-- What a new queue is of an old one with a job put behind it: in order, the same jobs, and jobs
-- with equal keys first come, first served.
pub record Enqueued (old : List JobDict) (j : JobDict) (new : List JobDict) : Type 0 where
  pub served : IsServed new
  pub same : Perm new (old ++ j ∷ [])
  pub fifo : (k : JobDict) → keep (same_key k) new ≡ keep (same_key k) (old ++ j ∷ [])

pub sorted-Enqueued :
    (old : List JobDict) (j : JobDict) → Enqueued old j (sort_desc key_lt (old ++ j ∷ []))
sorted-Enqueued old j = record {
  served = sorted-IsServed (old ++ j ∷ []);
  same = sort_desc-perm key_lt (old ++ j ∷ []);
  fifo = λ k. keep-same_key k (old ++ j ∷ []);
}

abbrev pub as_pending : JobDict → JobDict
as_pending d = record d { status = JobState.pending }

pub submit_job-eq-some :
    (now : ℕ) (d : JobDict) (q q' : JobQueue)
    → submit_job now d q ≡ some q'
    → (insert_job now (as_pending d) q.registry ≡ some q'.registry)
      × (q'.queue ≡ sort_desc key_lt (q.queue ++ as_pending d ∷ []))
unfolding submit_job
submit_job-eq-some now d q q' h = ground arith

-- A submission that does not raise enqueues the job as PENDING, and appends its row.
pub submit_job-Enqueued :
    (now : ℕ) (d : JobDict) (q q' : JobQueue)
    → submit_job now d q ≡ some q'
    → Enqueued q.queue (as_pending d) q'.queue
      × (insert_job now (as_pending d) q.registry ≡ some q'.registry)
submit_job-Enqueued now d q q' h =
    let (row, queue) = submit_job-eq-some now d q q' h in
    (rw queue (sorted-Enqueued q.queue (as_pending d)), row)

abbrev pub as_retried : JobDict → JobDict
as_retried d = record d { retries = some (get_or d.retries 0 + 1); status = JobState.pending }

-- A retry enqueues the job as PENDING with one retry more.
pub retry_job-Enqueued :
    (d : JobDict) (q : JobQueue) → Enqueued q.queue (as_retried d) (retry_job d q).queue
unfolding retry_job
retry_job-Enqueued d q = sorted-Enqueued q.queue (as_retried d)

-- Putting the popped job back restores the queue.
pub requeue_job-pop_top_job :
    (q : JobQueue) {q' : JobQueue} {j : JobDict}
    → pop_top_job q ≡ (q', some j)
    → requeue_job j q' ≡ q
unfolding pop_top_job requeue_job
requeue_job-pop_top_job q {q'} {j} h = ground arith

sort_desc_snoc :
    (l : List JobDict) (d : JobDict)
    → All (λ j. key_lt j d ≡ true) l
    → sort_desc key_lt (l ++ d ∷ []) ≡ d ∷ sort_desc key_lt l
unfolding sort_desc
sort_desc_snoc [] d h = refl
sort_desc_snoc (x ∷ xs) d h = rw (sort_desc_snoc xs d h.1, h.0, insert_desc)

-- A job that came back from the database, at the priority of every submitted job.
abbrev pub IsReturned : JobDict → Type 0
IsReturned j = (priority_of j ≡ pos 0) × (0 < created_of j)

returned_below :
    (d : JobDict) (l : List JobDict)
    → d.priority ≡ none
    → d.created_at ≡ none
    → All IsReturned l
    → All (λ j. key_lt j (as_pending d) ≡ true) l
unfolding key_lt
returned_below d [] p c h = tt
returned_below d (j ∷ js) p c h = (ground arith, returned_below d js p c h.1)

-- A submitted job, whose dict has neither a priority nor a creation time, goes to the head of an
-- ordered queue of jobs that came back from the database at its priority.
pub submit_job_overtakes :
    (now : ℕ) (d : JobDict) (q q' : JobQueue)
    → d.priority ≡ none
    → d.created_at ≡ none
    → All IsReturned q.queue
    → IsServed q.queue
    → submit_job now d q ≡ some q'
    → q'.queue ≡ as_pending d ∷ q.queue
submit_job_overtakes now d q q' p c returned served h =
    (submit_job-eq-some now d q q' h).1
    ∙ sort_desc_snoc q.queue (as_pending d) (returned_below d q.queue p c returned)
    ∙ ap (◌∷◌ (as_pending d)) (sort_desc_of_IsDesc key_lt q.queue served)
