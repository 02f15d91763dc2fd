-- ===== src/Dashboard/Newest.antt =====
-- dmlf/dashboard.py: the jobs and the metrics that are shown are the newest.
use distributed_ml_training.Base.{
  ℕ, zero, suc, ◌≤◌, ◌≡◌, refl, ap, sym, subst, String, none, some, Bool, true, false, ◌==◌, ltb,
  List, [], ◌∷◌, ◌++◌, keep, take, drop, All, In, All-at, In-keep, In-keep_of, ◌⊎◌, inl, inr, arith,
  Bool-cases,
}
use text.Mathlib.TextEquality.{eq_iff}
use distributed_ml_training.Sort.{sort_desc, insert_desc}
use distributed_ml_training.Sort.Laws.{IsDesc, IsDesc-append, sort_desc-IsDesc}
use distributed_ml_training.Registry.Schema.{Metric, Job}
use distributed_ml_training.Dashboard.{newest_jobs, newest_from, latest_metric, older}

older-asym : (a b : Job) → older a b ≡ true → older b a ≡ false
older-asym a b h = ground arith

older-step : (a b c : Job) → older a b ≡ false → older b c ≡ false → older a c ≡ false
older-step a b c h k = ground arith

In-of_insert : (a x : Job) (ys : List Job) → In a (x ∷ ys) → In a (insert_desc older x ys)
unfolding insert_desc
In-of_insert a x [] m = m
In-of_insert a x (y ∷ ys) m = elim (Bool-cases (older x y)) [
  | inl e ↦ rw (e, insert_desc) (go (λ k. In-of_insert a x ys k) m)
  | inr e ↦ rw (e, insert_desc) m
]
  where
    go :
        (In a (x ∷ ys) → In a (insert_desc older x ys))
        → In a (x ∷ y ∷ ys)
        → In a (y ∷ insert_desc older x ys)
    go ih (inl e) = inr (ih (inl e))
    go ih (inr (inl e)) = inl e
    go ih (inr (inr k)) = inr (ih (inr k))

In-of_sort : (a : Job) (xs : List Job) → In a xs → In a (sort_desc older xs)
unfolding sort_desc
In-of_sort a [] m = m
In-of_sort a (x ∷ xs) (inl e) = In-of_insert a x (sort_desc older xs) (inl e)
In-of_sort a (x ∷ xs) (inr m) = In-of_insert a x (sort_desc older xs) (inr (In-of_sort a xs m))

take-drop : (n : ℕ) (xs : List Job) → take n xs ++ drop n xs ≡ xs
take-drop zero xs = refl
take-drop (suc n) [] = refl
take-drop (suc n) (x ∷ xs) = ap (◌∷◌ x) (take-drop n xs)

In-split : (a : Job) (xs ys : List Job) → In a (xs ++ ys) → In a xs ⊎ In a ys
In-split a [] ys m = inr m
In-split a (x ∷ xs) ys (inl e) = inl (inl e)
In-split a (x ∷ xs) ys (inr m) = elim (In-split a xs ys m) [ inl k ↦ inl (inr k) | inr k ↦ inr k ]

-- Every job is among the five that are shown, or was created no later than each of these.
pub newest_jobs-newest :
    (jobs : List Job) (shown job : Job)
    → In shown (newest_jobs jobs)
    → In job jobs
    → In job (newest_jobs jobs) ⊎ (job.created_at ≤ shown.created_at)
unfolding newest_jobs
newest_jobs-newest jobs shown job is_shown stands =
    let sorted = sort_desc older jobs in
    let front = take 5 sorted in
    let desc : IsDesc older (front ++ drop 5 sorted) =
      subst (IsDesc older) (sym (take-drop 5 sorted))
        (sort_desc-IsDesc older older-asym older-step jobs) in
    let where_in : In job (front ++ drop 5 sorted) =
      subst (In job) (sym (take-drop 5 sorted)) (In-of_sort job jobs stands) in
    elim (In-split job front (drop 5 sorted) where_in) [
      | inl m ↦ inl m
      | inr m ↦
          let not_newer =
            All-at (λ y. older shown y ≡ false) (drop 5 sorted)
              (All-at (λ x. All (λ y. older x y ≡ false) (drop 5 sorted)) front
                (IsDesc-append older front (drop 5 sorted) desc) is_shown)
              m in
          inr (ground (arith, not_newer))
    ]

-- The metric stands among the rows, and no row is newer.
abbrev IsNewest : Metric → List Metric → Type 0
IsNewest m ms = In m ms × All (λ k. k.timestamp ≤ m.timestamp) ms

newest_from-IsNewest :
    (best : Metric) (ms : List Metric) → IsNewest (newest_from best ms) (best ∷ ms)
unfolding newest_from
newest_from-IsNewest best [] = (inl refl, (omega arith, tt))
newest_from-IsNewest best (m ∷ ms) = elim (Bool-cases (ltb best.timestamp m.timestamp)) [
  | inl newer ↦
      let same : newest_from best (m ∷ ms) ≡ newest_from m ms = rw (newer, newest_from) refl in
      let (stands, (of_m, of_ms)) = newest_from-IsNewest m ms in
      subst (λ (r : Metric). IsNewest r (best ∷ m ∷ ms)) (sym same)
        (inr stands, (ground (arith, newer, of_m), (of_m, of_ms)))
  | inr not_newer ↦
      let same : newest_from best (m ∷ ms) ≡ newest_from best ms =
        rw (not_newer, newest_from) refl in
      let (stands, (of_best, of_ms)) = newest_from-IsNewest best ms in
      subst (λ (r : Metric). IsNewest r (best ∷ m ∷ ms)) (sym same)
        (
          elim stands [ inl e ↦ inl e | inr k ↦ inr (inr k) ],
          (of_best, (ground (arith, not_newer, of_best), of_ms)),
        )
]

-- A node with a metric is shown with one of its own that is not older.
pub latest_metric-newest :
    (id : String) (metrics : List Metric) (m : Metric)
    → In m metrics
    → m.node_id ≡ id
    → (latest : Metric) × (latest_metric id metrics ≡ some latest)
      × (latest.node_id ≡ id)
      × (m.timestamp ≤ latest.timestamp)
unfolding latest_metric
latest_metric-newest id metrics m stands own =
    let own_row : (m.node_id == id) ≡ true = (eq_iff m.node_id id).1 own in
    let (latest, found, (among, all)) =
      newest_of (keep of_node metrics) (In-keep_of of_node metrics stands own_row) in
    (
      latest,
      found,
      (eq_iff latest.node_id id).0 (In-keep of_node metrics among).1,
      All-at (λ k. k.timestamp ≤ latest.timestamp) _ all
          (In-keep_of of_node metrics stands own_row),
    )
  where
    of_node : Metric → Bool
    of_node k = k.node_id == id

    newest_of :
        (found : List Metric)
        → In m found
        → (latest : Metric) × ((elim found [ [] ↦ none | k ∷ ks ↦ some (newest_from k ks) ])
            ≡ some latest)
          × IsNewest latest found
    newest_of [] among = elim among [ ]
    newest_of (k ∷ ks) among = (newest_from k ks, refl, newest_from-IsNewest k ks)
