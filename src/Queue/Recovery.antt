-- ===== src/Queue/Recovery.antt =====
-- dmlf/manager/queue.py: the queue that a restart makes from the database.
use mathlib.Core.List.{Perm}
use distributed_ml_training.Base.{
  ℤ, pos, ◌≤◌, ◌≡◌, refl, ap, ◌∙◌, Bool, true, false, ◌==◌, List, [], ◌∷◌, map, keep, All, int_ltb,
  int_eqb, arith, ◌⊎◌, inl, inr, Bool-cases, negsuc,
}
use distributed_ml_training.Sort.{insert_desc, sort_desc}
use distributed_ml_training.Sort.Laws.{IsDesc, sort_desc-perm, sort_desc-IsDesc}
use distributed_ml_training.Registry.Schema.{Job, Registry}
use distributed_ml_training.Registry.Jobs.{dict_of_row, get_jobs}
use distributed_ml_training.Queue.{key_lt, recover_pending_jobs}
use distributed_ml_training.Queue.Order.{key_lt-asym, key_lt-step}

-- `a < b` on integers.
abbrev pub Below : ℤ → ℤ → Type 0
Below a b = int_ltb a b ≡ true

-- A row that may be served before another: it has the higher priority, or the same and is not younger.
abbrev pub ServedFirst : Job → Job → Type 0
ServedFirst a b =
    Below b.priority a.priority ⊎ (a.priority ≡ b.priority) × (a.created_at ≤ b.created_at)

-- Every row may be served before all those behind it.
abbrev pub ServedInOrder : List Job → Type 0
ServedInOrder [] = Unit
ServedInOrder (j ∷ js) = All (ServedFirst j) js × ServedInOrder js

-- The order of the dicts of two rows.
abbrev row_lt : Job → Job → Bool
row_lt a b = key_lt (dict_of_row a) (dict_of_row b)

Below-of_not_less : (a b : ℤ) → int_ltb a b ≡ false → int_eqb a b ≡ false → Below b a
Below-of_not_less a b h k = ground arith

same_int : (a b : ℤ) → int_eqb a b ≡ true → a ≡ b
same_int (pos a) (pos b) h = ap pos (ground arith)
same_int (pos a) (negsuc b) h = ground arith
same_int (negsuc a) (pos b) h = ground arith
same_int (negsuc a) (negsuc b) h = ap negsuc (ground arith)

row_lt-ServedFirst : (a b : Job) → row_lt a b ≡ false → ServedFirst a b
unfolding key_lt dict_of_row
row_lt-ServedFirst a b h = elim (Bool-cases (int_eqb a.priority b.priority)) [
  | inl e ↦ inr (same_int a.priority b.priority e, ground (arith, e, h))
  | inr e ↦ inl (Below-of_not_less a.priority b.priority (ground (arith, h)) e)
]

IsDesc-ServedInOrder : (js : List Job) → IsDesc row_lt js → ServedInOrder js
IsDesc-ServedInOrder [] h = tt
IsDesc-ServedInOrder (j ∷ js) h = (behind js h.0, IsDesc-ServedInOrder js h.1)
  where
    behind : (ks : List Job) → All (λ k. row_lt j k ≡ false) ks → All (ServedFirst j) ks
    behind [] k = tt
    behind (x ∷ ks) k = (row_lt-ServedFirst j x k.0, behind ks k.1)

map-insert_desc :
    (j : Job) (js : List Job)
    → insert_desc key_lt (dict_of_row j) (map dict_of_row js)
      ≡ map dict_of_row (insert_desc row_lt j js)
unfolding insert_desc
map-insert_desc j [] = refl
map-insert_desc j (k ∷ js) = elim (Bool-cases (row_lt j k)) [
  | inl e ↦ rw (e, map-insert_desc j js) refl
  | inr e ↦ rw e refl
]

map-sort_desc :
    (js : List Job) → sort_desc key_lt (map dict_of_row js) ≡ map dict_of_row (sort_desc row_lt js)
unfolding sort_desc
map-sort_desc [] = refl
map-sort_desc (j ∷ js) =
    ap (insert_desc key_lt (dict_of_row j)) (map-sort_desc js)
    ∙ map-insert_desc j (sort_desc row_lt js)

-- A restart queues exactly the rows of the database whose status is PENDING, each as often as it
-- stands there, as dicts: by falling priority, and among equal priorities by the time of creation. It
-- changes no row.
pub recover_pending_jobs_lem :
    (r : Registry)
    → ((rows : List Job) × ((recover_pending_jobs r).queue ≡ map dict_of_row rows)
        × Perm rows (keep (λ j. j.status == "PENDING") r.jobs)
        × ServedInOrder rows)
      × ((recover_pending_jobs r).registry ≡ r)
unfolding recover_pending_jobs get_jobs
recover_pending_jobs_lem r =
    let pending = keep (λ j. j.status == "PENDING") r.jobs in
    (
      (
        sort_desc row_lt pending,
        map-sort_desc pending,
        sort_desc-perm row_lt pending,
        IsDesc-ServedInOrder _ (
            sort_desc-IsDesc row_lt (λ a b. key_lt-asym (dict_of_row a) (dict_of_row b))
              (λ a b c. key_lt-step (dict_of_row a) (dict_of_row b) (dict_of_row c)) pending),
      ),
      refl,
    )
