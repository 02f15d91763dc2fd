-- ===== src/Manager/Steps/Goes.antt =====
-- What one access of a thread does to the jobs that wait: the terms of its proof.
pub mod Scheduler
pub mod Report
pub mod Submit
pub mod Monitor
use mathlib.Core.List.Perm
use mathlib.Core.List.{Perm, perm_append_singleton}
use distributed_ml_training.Base.{refl, Option, none, some, List, [], ◌∷◌, ◌++◌}
use distributed_ml_training.Sort.{sort_desc}
use distributed_ml_training.Sort.Laws.{sort_desc-perm}
use distributed_ml_training.Registry.Schema.{Job}
use distributed_ml_training.Registry.Jobs.{JobDict}
use distributed_ml_training.Queue.{key_lt}
use distributed_ml_training.Manager.State.{Manager}
use distributed_ml_training.Manager.Lifecycle.{JobView, view}
use distributed_ml_training.Manager.Lifecycle.Pool.{Flow, moved, hold}
use distributed_ml_training.Manager.Steps.{enqueue}

-- The jobs of a thread that may be over.
unfoldable pub next_holds : {A : Type 0} → (A → List JobDict) → Option A → List JobDict
next_holds f none = []
next_holds f (some t) = f t

-- What a thread that may be over knows of the rows.
unfoldable pub NextKnows : {A : Type 0} → (List Job → A → Type 0) → List Job → Option A → Type 0
NextKnows K js none = Unit
NextKnows K js (some t) = K js t

-- From `v` a thread comes to a manager and a place in the code: a flow of the jobs, after which the
-- thread knows what it should.
abbrev pub Goes :
    {A : Type 0}
    → (A → List JobDict)
    → (List Job → A → Type 0)
    → JobView
    → Manager × Option A
    → Type 0
Goes f K v r =
    Flow v (hold (next_holds f r.1) (view r.0.jobs)) × NextKnows K (r.0).registry.jobs r.1

-- A job of the thread comes to the queue.
pub enqueue-Flow :
    (d : JobDict) (m : Manager) → Flow (hold (d ∷ []) (view m.jobs)) (view (enqueue d m).jobs)
unfolding enqueue
enqueue-Flow d m =
    moved refl
      (Perm.trans (sort_desc-perm key_lt (m.queue ++ d ∷ [])) (perm_append_singleton d m.queue))
