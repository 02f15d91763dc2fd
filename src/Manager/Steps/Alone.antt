-- ===== src/Manager/Steps/Alone.antt =====
-- A thread that nothing interrupts, from one access to the next until it is over.
pub mod Scheduler
pub mod Report
pub mod Submit
pub mod Monitor
use distributed_ml_training.Base.{Option, none, some, ◌≡◌, sym, subst}
use distributed_ml_training.Manager.State.{Manager}

-- From a place in the code and a manager, the steps `f` end with another manager.
pub data Runs {A : Type 0} (f : A → Manager → Manager × Option A) (last : Manager)
    : Option A → Manager → Type 0 where
  over : Runs f last none last
  go : {t : A} {m : Manager} → Runs f last (f t m).1 (f t m).0 → Runs f last (some t) m

-- A step whose result is known.
pub go_as :
    {A : Type 0} {f : A → Manager → Manager × Option A} {last m : Manager} {t : A}
    (r : Manager × Option A)
    → f t m ≡ r
    → Runs f last r.1 r.0
    → Runs f last (some t) m
go_as {f = f} {last = last} r e rs =
    go (subst (λ (x : Manager × Option _). Runs f last x.1 x.0) (sym e) rs)
