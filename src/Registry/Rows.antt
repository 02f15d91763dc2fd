-- ===== src/Registry/Rows.antt =====
-- dmlf/manager/node_registry.py: reading the rows of `jobs` and `nodes` by their keys after writes.
use mathlib.Core.Option
use distributed_ml_training.Base.{
  ◌≡◌, ◌≢◌, refl, sym, ap, ◌∙◌, inl, inr, List, [], ◌∷◌, ◌++◌, map, false, any, All, In, Distinct,
  arith, String, ◌==◌, eq_iff, eq_refl, none, some, Bool-cases, if◌then◌else◌,
}
use distributed_ml_training.Registry.Schema.{Job}
use distributed_ml_training.Registry.Jobs.{has_job_id, update_job, find_job}

abbrev pub job_ids : List Job → List String
job_ids js = map (λ j. j.job_id) js

-- A change of a row that is no change of its key.
abbrev pub KeepsId : (Job → Job) → Type 0
KeepsId f = (j : Job) → (f j).job_id ≡ j.job_id

module _ (f : Job → Job) (keeps : KeepsId f) (id : String) where
  -- An update changes the row with its key and no other.
  pub find_job-update_job :
      (k : String) (js : List Job)
      → find_job k (update_job id f js)
        ≡ (if id == k then Option.map f (find_job k js) else find_job k js)
  unfolding find_job update_job
  find_job-update_job k [] = ground arith
  find_job-update_job k (j ∷ js) = ground (
    arith,
    find_job-update_job k js,
    keeps j,
    eq_iff j.job_id id,
    eq_iff j.job_id k,
    eq_iff id k,
    eq_iff (f j).job_id k,
  )

  pub job_ids-update_job : (js : List Job) → job_ids (update_job id f js) ≡ job_ids js
  unfolding update_job
  job_ids-update_job [] = refl
  job_ids-update_job (j ∷ js) = ground (arith, keeps j, job_ids-update_job js)

-- The row that is found is in the table, under its key.
pub find_job-In :
    (k : String) (js : List Job) (j : Job) → find_job k js ≡ some j → In j js × (j.job_id ≡ k)
unfolding find_job
find_job-In k [] j h = cc
find_job-In k (x ∷ xs) j h = elim (Bool-cases (x.job_id == k)) [
  | inl e ↦
      let same : x ≡ j = ground arith in
      (inl (sym same), sym (ap (λ (y : Job). y.job_id) same) ∙ (eq_iff x.job_id k).0 e)
  | inr e ↦ let (m, i) = find_job-In k xs j (rw (e, find_job) at h) in (inr m, i)
]

In-ids_ne :
    (k : String) (js : List Job) (j : Job) → All (λ y. k ≢ y) (job_ids js) → In j js → k ≢ j.job_id
In-ids_ne k [] j h m = elim m [ ]
In-ids_ne k (x ∷ xs) j h (inl e) = rw e h.0
In-ids_ne k (x ∷ xs) j h (inr m) = In-ids_ne k xs j h.1 m

-- With distinct keys every row is found by its key.
pub find_job_of_In :
    (js : List Job) (j : Job) → Distinct (job_ids js) → In j js → find_job j.job_id js ≡ some j
unfolding find_job
find_job_of_In [] j d m = elim m [ ]
find_job_of_In (x ∷ xs) j d (inl e) = rw (e, eq_refl)
find_job_of_In (x ∷ xs) j d (inr m) =
    ground
      (arith, eq_iff x.job_id j.job_id, In-ids_ne x.job_id xs j d.0 m, find_job_of_In xs j d.1 m)

-- The key of a new row is not in the table.
pub absent_key :
    (k : String) (js : List Job)
    → any (has_job_id k) js ≡ false
    → All (λ y. y ≢ k) (job_ids js) × (find_job k js ≡ none)
unfolding find_job
absent_key k [] h = (tt, refl)
absent_key k (j ∷ js) h =
    let (later, absent) = absent_key k js (ground arith) in
    ((ground (arith, eq_iff j.job_id k), later), ground arith)

pub find_job-snoc :
    (k : String) (js : List Job) (j : Job)
    → find_job k (js ++ j ∷ [])
      ≡ (elim (find_job k js) [ some x ↦ some x | none ↦ if j.job_id == k then some j else none ])
unfolding find_job
find_job-snoc k [] j = refl
find_job-snoc k (x ∷ xs) j = ground (arith, find_job-snoc k xs j)

pub job_ids-snoc : (js : List Job) (j : Job) → job_ids (js ++ j ∷ []) ≡ job_ids js ++ j.job_id ∷ []
job_ids-snoc [] j = refl
job_ids-snoc (x ∷ xs) j = ap (◌∷◌ x.job_id) (job_ids-snoc xs j)
