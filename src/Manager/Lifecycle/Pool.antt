-- ===== src/Manager/Lifecycle/Pool.antt =====
-- What several threads may do to the jobs: as the changes of `Lifecycle`, but the waiting jobs are a
-- bag, some of which a thread has in its hands and the others of which are in the queue.
use mathlib.Core.Logic.Or
use mathlib.Core.List.Perm
use mathlib.Core.List.{
  Perm, Mem, Mem-prop, mem-append, mem-append_left, mem-append_right, not-mem-nil, append_assoc,
  perm_append_singleton, perm_middle,
}
use distributed_ml_training.Base.{
  ℕ, ◌+◌, ℤ, pos, int_ltb, ◌≡◌, ◌≢◌, refl, sym, subst, ◌⊎◌, none, some, List, [], ◌∷◌, ◌++◌, true,
  String,
}
use distributed_ml_training.Registry.JobState
use distributed_ml_training.Registry.Schema.{Job}
use distributed_ml_training.Registry.Jobs.{
  JobDict, dict_of_row, row_of_dict, update_job, set_status, find_job,
}
use distributed_ml_training.Queue.Order.{as_pending, as_retried}
use distributed_ml_training.Manager.Lifecycle.{
  JobView, rebuilt, retried_row, Change, submitted, retried, finished, started, restarted, Changes,
  here, next,
}

pub data Flow (v w : JobView) : Type 0 where
  -- A new job waits: a key that no row has, no retries, PENDING.
  arrived :
      (now : ℕ) (d : JobDict)
      → find_job d.job_id v.rows ≡ none
      → d.retries ≡ none
      → w.rows ≡ v.rows ++ row_of_dict now (as_pending d) ∷ []
      → Perm w.queue (as_pending d ∷ v.queue)
      → Flow v w
  -- A job that had retries left when it was read waits again. Its row, which may have changed since,
  -- becomes PENDING with one retry more than was read.
  returned :
      (j x : Job)
      → find_job j.job_id v.rows ≡ some x
      → x.max_retries ≡ j.max_retries
      → int_ltb (pos j.retries) j.max_retries ≡ true
      → w.rows ≡ update_job j.job_id (retried_row (j.retries + 1)) v.rows
      → Perm w.queue (as_retried (dict_of_row j) ∷ v.queue)
      → Flow v w
  -- A job ends.
  ended :
      (now : ℕ) (id status : String) (code : ℤ)
      → (status ≡ JobState.completed) ⊎ (status ≡ JobState.failed)
      → w.rows ≡ update_job id (set_status now status none (some code)) v.rows
      → Perm w.queue v.queue
      → Flow v w
  -- A job waits no more and runs on some nodes.
  left :
      (now : ℕ) (d : JobDict) (nodes : List String)
      → nodes ≢ []
      → Perm v.queue (d ∷ w.queue)
      → w.rows ≡ update_job d.job_id (set_status now JobState.running (some nodes) none) v.rows
      → Flow v w
  -- A job passes between the queue and a thread.
  moved : w.rows ≡ v.rows → Perm w.queue v.queue → Flow v w
  -- The queue is built again from the PENDING rows, and `kept` is all that the threads have.
  recovered :
      (kept : List JobDict)
      → ((d : JobDict) → Mem d kept → Mem d v.queue)
      → w.rows ≡ v.rows
      → Perm w.queue (kept ++ rebuilt v.rows)
      → Flow v w

-- The jobs of `held` and those of the queue.
abbrev pub hold : List JobDict → JobView → JobView
hold held v = record { rows = v.rows; queue = held ++ v.queue }

hold-Perm :
    (held old : List JobDict) {new : List JobDict} (d : JobDict)
    → Perm new (d ∷ old)
    → Perm (held ++ new) (d ∷ (held ++ old))
hold-Perm held old d p = Perm.trans (Perm.append_left held p) (perm_middle held old)

-- The rows of a view with another bag.
abbrev pub with_queue : List JobDict → JobView → JobView
with_queue p v = record { rows = v.rows; queue = p }

-- The order of the bags does not matter.
pub Flow-moved :
    {v w : JobView} {p q : List JobDict}
    → Flow v w
    → Perm p v.queue
    → Perm q w.queue
    → Flow (with_queue p v) (with_queue q w)
Flow-moved (arrived now d absent fresh e s) a b =
    arrived now d absent fresh e
      (Perm.trans b (Perm.trans s (Perm.cons (as_pending d) (Perm.symm a))))
Flow-moved (returned j x found same room e s) a b =
    returned j x found same room e
      (Perm.trans b (Perm.trans s (Perm.cons (as_retried (dict_of_row j)) (Perm.symm a))))
Flow-moved (ended now id s code final e t) a b =
    ended now id s code final e (Perm.trans b (Perm.trans t (Perm.symm a)))
Flow-moved (left now d nodes some_nodes s e) a b =
    left now d nodes some_nodes (Perm.trans a (Perm.trans s (Perm.cons d (Perm.symm b)))) e
Flow-moved (moved e s) a b = moved e (Perm.trans b (Perm.trans s (Perm.symm a)))
Flow-moved (recovered kept waits e s) a b =
    recovered kept (λ d m. Perm.subset (Perm.symm a) d (waits d m)) e (Perm.trans b s)

-- A flow goes on beside the jobs that another thread has.
pub Flow-hold : {v w : JobView} (held : List JobDict) → Flow v w → Flow (hold held v) (hold held w)
Flow-hold {v} held (arrived now d absent fresh e s) =
    arrived now d absent fresh e (hold-Perm held v.queue (as_pending d) s)
Flow-hold {v} held (returned j x found same room e s) =
    returned j x found same room e (hold-Perm held v.queue (as_retried (dict_of_row j)) s)
Flow-hold held (ended now id s code final e t) =
    ended now id s code final e (Perm.append_left held t)
Flow-hold {v} {w} held (left now d nodes some_nodes s e) =
    left now d nodes some_nodes (hold-Perm held w.queue d s) e
Flow-hold held (moved e s) = moved e (Perm.append_left held s)
Flow-hold {v} {w} held (recovered kept waits e s) =
    recovered (held ++ kept)
      (λ d m.
        Or.elim Mem-prop (mem-append.0 m) (mem-append_left v.queue)
          (λ k. mem-append_right held (waits d k)))
      e
      (subst (λ (l : List JobDict). Perm (held ++ w.queue) l)
        (sym (append_assoc held kept (rebuilt v.rows))) (Perm.append_left held s))

same-Perm : {p q : List JobDict} → p ≡ q → Perm p q
same-Perm {p} {q} e = subst (λ (l : List JobDict). Perm p l) e (Perm.refl p)

snoc-Perm : {old new : List JobDict} (d : JobDict) → Perm new (old ++ d ∷ []) → Perm new (d ∷ old)
snoc-Perm {old} d p = Perm.trans p (perm_append_singleton d old)

-- A change is a flow of the queue.
pub change-Flow : {v w : JobView} → Change v w → Flow v w
change-Flow (submitted now d absent fresh e q) =
    arrived now d absent fresh e (snoc-Perm (as_pending d) q.same)
change-Flow (retried j found room e q) =
    returned j j found refl room e (snoc-Perm (as_retried (dict_of_row j)) q.same)
change-Flow (finished now id s code final e q) = ended now id s code final e (same-Perm q)
change-Flow (started now d nodes some_nodes q e) = left now d nodes some_nodes (same-Perm q) e
change-Flow (restarted e q) = recovered [] (λ d m. absurd (not-mem-nil m)) e (same-Perm q)

-- Any number of flows.
pub data Flows (w : JobView) : JobView → Type 0 where
  stay : Flows w w
  go_on : {v u : JobView} → Flow v u → Flows w u → Flows w v

pub Changes-Flows : {w v : JobView} → Changes w v → Flows w v
Changes-Flows here = stay
Changes-Flows (next c cs) = go_on (change-Flow c) (Changes-Flows cs)

pub Flows-hold :
    {w v : JobView} (held : List JobDict) → Flows w v → Flows (hold held w) (hold held v)
Flows-hold held stay = stay
Flows-hold held (go_on f fs) = go_on (Flow-hold held f) (Flows-hold held fs)

pub Flows-append : {v u w : JobView} → Flows w v → Flows v u → Flows w u
Flows-append gs stay = gs
Flows-append gs (go_on f fs) = go_on f (Flows-append gs fs)
