-- ===== src/Autoscaler/Policy.antt =====
-- dmlf/autoscaler/policy.py: `_evaluate`, and the loop that calls it.
use distributed_ml_training.Base.{
  ℕ, zero, suc, ◌-◌, ℤ, pos, int_ltb, String, Option, none, some, Bool, not, ◌&&◌, ◌||◌, List, [],
  ◌∷◌, ltb, if◌then◌else◌,
}
use distributed_ml_training.Floats.{Floats}
use distributed_ml_training.Registry.Schema.{Node, Registry}
use distributed_ml_training.Registry.Nodes.{get_available_nodes, get_all_nodes}

pub data Direction : Type 0 where
  scale_out scale_in : Direction

module _ (fl : Floats) where
  open fl use {Float, of_int, plus, divide, less}

  -- AutoscalerSettings, as `__init__` copies them. The cooldown is in microseconds.
  pub record Limits : Type 0 where
    pub queue_high : ℤ
    pub cpu_high : Float
    pub gpu_high : Float
    pub queue_low : ℤ
    pub cpu_low : Float
    pub gpu_low : Float
    pub cooldown : ℕ

  -- The gauges that an evaluation reads.
  pub record Readings : Type 0 where
    pub jobs_queued : ℤ
    pub node_cpu : String → Float
    pub node_gpu : String → Float

  -- The loop of `gauge_avg`. A labelled gauge always has a value, so each node is counted.
  unfoldable pub gauge_sum : (String → Float) → Float → ℕ → List Node → Float × ℕ
  gauge_sum gauge total cnt [] = (total, cnt)
  gauge_sum gauge total cnt (n ∷ ns) = gauge_sum gauge (plus total (gauge n.node_id)) (suc cnt) ns

  -- total / cnt if cnt else 0.0
  unfoldable pub average : Float × ℕ → Float
  average (total, zero) = of_int (pos 0)
  average (total, suc n) = divide total (of_int (pos (suc n)))

  unfoldable pub gauge_avg : (String → Float) → List Node → Float
  unfolding gauge_sum average
  gauge_avg gauge nodes = average (gauge_sum gauge (of_int (pos 0)) 0 nodes)

  unfoldable pub wants_out : Limits → Readings → (idle : List Node) → Bool
  unfolding gauge_avg
  wants_out s g idle =
      int_ltb s.queue_high g.jobs_queued
      || less s.cpu_high (gauge_avg g.node_cpu idle)
      || less s.gpu_high (gauge_avg g.node_gpu idle)

  -- `now - last > cooldown`, for a `last` that is not after `now`.
  unfoldable pub wants_in : Limits → Readings → (all : List Node) → (now last : ℕ) → Bool
  unfolding gauge_avg
  wants_in s g all now last =
      not (int_ltb s.queue_low g.jobs_queued)
      && less (gauge_avg g.node_cpu all) s.cpu_low
      && less (gauge_avg g.node_gpu all) s.gpu_low
      && ltb s.cooldown (now - last)

  -- The registry with the silent nodes marked, the new `_last_scale_in`, and the callback's
  -- argument.
  unfoldable pub evaluate :
      Limits → Readings → (now last_scale_in : ℕ) → Registry → Registry × ℕ × Option Direction
  evaluate s g now last r =
      let (r₁, idle_nodes) = get_available_nodes now r in
      let (r₂, all_nodes) = get_all_nodes now r₁ in
      if wants_out s g idle_nodes
      then (r₂, last, some scale_out)
      else if wants_in s g all_nodes now last
      then (r₂, now, some scale_in)
      else (r₂, last, none)
