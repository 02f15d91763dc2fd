-- ===== src/Dashboard/Averages.antt =====
-- metrics.py: `calc_metrics`, whose job lines come first and its lines on the hardware last.
--
-- The parameter is SQLite's AVG on the values of a group. A GROUP BY without ORDER BY promises no
-- order of its groups: here they stand as each node's first sample does.
use distributed_ml_training.Base.{
  ℤ, ◌≡◌, ◌≢◌, refl, sym, String, Option, none, some, true, not, ◌==◌, List, [], ◌∷◌, map, keep, In,
  All-of_In, In-keep, In-keep_of, Distinct, Distinct-keep, if◌then◌else◌, inl, inr, Bool-cases,
  arith,
}
use text.Mathlib.TextEquality.{eq_iff}
use distributed_ml_training.Registry.Schema.{Metric, Registry}
use distributed_ml_training.Dashboard.{JobTimes, calc_job_metrics}

-- The keys of GROUP BY node_id.
unfoldable node_ids : List Metric → List String
node_ids [] = []
node_ids (m ∷ ms) = m.node_id ∷ keep (λ id. not (id == m.node_id)) (node_ids ms)

-- A line of the section on the hardware.
pub record HardwareLine (A : Type 0) : Type 0 where
  pub node_id : String
  pub cpu : A
  pub ram : A
  pub gpu : A
  pub latency : A

module _ {A : Type 0} (avg : List ℤ → A) where
  unfoldable hardware_line : List Metric → String → HardwareLine A
  hardware_line metrics id =
      let rows = keep (λ m. m.node_id == id) metrics in
      record {
        node_id = id;
        cpu = avg (map (λ m. m.sample.cpu_percent) rows);
        ram = avg (map (λ m. m.sample.ram_percent) rows);
        gpu = avg (map (λ m. m.sample.gpu_utilization) rows);
        latency = avg (map (λ m. m.heartbeat_latency_ms) rows);
      }

  unfoldable pub calc_hardware_metrics : Registry → List (HardwareLine A)
  unfolding hardware_line node_ids
  calc_hardware_metrics r = map (hardware_line r.metrics) (node_ids r.metrics)

  -- The job lines, and the lines on the hardware unless a job line raised TypeError.
  unfoldable calc_metrics : Registry → List JobTimes × Option (List (HardwareLine A))
  unfolding calc_hardware_metrics calc_job_metrics
  calc_metrics r =
      let (lines, done) = calc_job_metrics r in
      (lines, if done then some (calc_hardware_metrics r) else none)

differs : (a b : String) → not (b == a) ≡ true → a ≢ b
differs a b h e = let same = (eq_iff b a).1 (sym e) in ground (arith, same)

-- No node has two lines.
node_ids-Distinct : (ms : List Metric) → Distinct (node_ids ms)
unfolding node_ids
node_ids-Distinct [] = tt
node_ids-Distinct (m ∷ ms) = (
  All-of_In (λ y. m.node_id ≢ y) _
      (λ y h. differs m.node_id y (In-keep (λ id. not (id == m.node_id)) (node_ids ms) h).1),
  Distinct-keep (λ id. not (id == m.node_id)) (node_ids ms) (node_ids-Distinct ms),
)

-- Every node with a sample has a line.
node_ids-all : (m : Metric) (ms : List Metric) → In m ms → In m.node_id (node_ids ms)
unfolding node_ids
node_ids-all m [] h = elim h [ ]
node_ids-all m (k ∷ ms) (inl e) = rw e (inl refl)
node_ids-all m (k ∷ ms) (inr h) = elim (Bool-cases (m.node_id == k.node_id)) [
  | inl same ↦ inl ((eq_iff m.node_id k.node_id).0 same)
  | inr other ↦
      inr (
        In-keep_of (λ id. not (id == k.node_id)) (node_ids ms) (node_ids-all m ms h)
          (rw other refl))
]

-- A line is of a node that has a sample, so that its averages are over some value.
node_ids-sampled :
    (id : String) (ms : List Metric)
    → In id (node_ids ms)
    → (m : Metric) × In m (keep (λ k. k.node_id == id) ms)
unfolding node_ids
node_ids-sampled id [] h = elim h [ ]
node_ids-sampled id (m ∷ ms) (inl e) =
    (m, In-keep_of (λ k. k.node_id == id) (m ∷ ms) (inl refl) ((eq_iff m.node_id id).1 (sym e)))
node_ids-sampled id (m ∷ ms) (inr h) =
    let (k, j) = node_ids-sampled id ms (In-keep (λ i. not (i == m.node_id)) (node_ids ms) h).0 in
    (k, elim (Bool-cases (m.node_id == id)) [ inl e ↦ rw e (inr j) | inr e ↦ rw e j ])
