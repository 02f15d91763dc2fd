-- ===== src/Monitoring/NodeGauges/Unset.antt =====
-- dmlf/autoscaler/policy.py: an evaluation in a process that sets no gauge of a node.
use distributed_ml_training.Base.{
  ℕ, zero, suc, pos, int_ltb, ◌≡◌, refl, sym, ap, ◌∙◌, List, [], ◌∷◌, Option, none, some, Bool,
  true, false, not, ◌&&◌, ◌||◌, ltb, ◌-◌,
}
use distributed_ml_training.Floats.{Floats}
use distributed_ml_training.Registry.Schema.{Node, Registry}
use distributed_ml_training.Autoscaler.Policy.{
  Direction, scale_out, scale_in, Limits, Readings, gauge_sum, average, gauge_avg, wants_out,
  wants_in, evaluate,
}
use distributed_ml_training.Manager.State.{Gauges}
use distributed_ml_training.Monitoring.NodeGauges.{NodeMetrics, new_node_metrics, gauge_value}

module _ (fl : Floats) where
  open fl use {Float, of_int, plus, divide, less}

  -- What an evaluation reads in the process of the manager.
  unfoldable pub readings : Gauges → NodeMetrics fl → Readings fl
  unfolding gauge_value
  readings g m = record {
    jobs_queued = g.jobs_queued;
    node_cpu = gauge_value fl m.node_cpu;
    node_gpu = gauge_value fl m.node_gpu_util;
  }

  abbrev pub zero_float : Float
  zero_float = of_int (pos 0)

  -- Sums and quotients of zeros.
  pub record HasZero : Type 0 where
    pub plus_zero : plus zero_float zero_float ≡ zero_float
    pub divide_zero : (n : ℕ) → divide zero_float (of_int (pos (suc n))) ≡ zero_float

  module _ (laws : HasZero) where
    gauge_sum-unset :
        (total : Float) (cnt : ℕ) (ns : List Node)
        → total ≡ zero_float
        → (gauge_sum fl (gauge_value fl []) total cnt ns).0 ≡ zero_float
    unfolding gauge_sum gauge_value
    gauge_sum-unset total cnt [] e = e
    gauge_sum-unset total cnt (n ∷ ns) e =
        gauge_sum-unset (plus total zero_float) (suc cnt) ns
          (ap (λ (x : Float). plus x zero_float) e ∙ laws.plus_zero)

    average-zero :
        (total : Float) (cnt : ℕ) → total ≡ zero_float → average fl (total, cnt) ≡ zero_float
    unfolding average
    average-zero total zero e = refl
    average-zero total (suc n) e =
        ap (λ (x : Float). divide x (of_int (pos (suc n)))) e ∙ laws.divide_zero n

    gauge_avg-unset : (ns : List Node) → gauge_avg fl (gauge_value fl []) ns ≡ zero_float
    unfolding gauge_avg
    gauge_avg-unset ns =
        average-zero (gauge_sum fl (gauge_value fl []) zero_float 0 ns).0
          (gauge_sum fl (gauge_value fl []) zero_float 0 ns).1
          (gauge_sum-unset zero_float 0 ns refl)

    wants_out-unset :
        (s : Limits fl) (g : Gauges) (ns : List Node)
        → wants_out fl s (readings g (new_node_metrics fl)) ns ≡ (
            int_ltb s.queue_high g.jobs_queued
            || less s.cpu_high zero_float
            || less s.gpu_high zero_float)
    unfolding wants_out readings
    wants_out-unset s g ns = rw (gauge_avg-unset ns) refl

    wants_in-unset :
        (s : Limits fl) (g : Gauges) (ns : List Node) (now last : ℕ)
        → wants_in fl s (readings g (new_node_metrics fl)) ns now last ≡ (
            not (int_ltb s.queue_low g.jobs_queued)
            && less zero_float s.cpu_low
            && less zero_float s.gpu_low
            && ltb s.cooldown (now - last))
    unfolding wants_in readings
    wants_in-unset s g ns now last = rw (gauge_avg-unset ns) refl

    -- The note and the request, by the two decisions.
    unfoldable decided : (now last : ℕ) (out_wanted in_wanted : Bool) → ℕ × Option Direction
    decided now last true in_wanted = (last, some scale_out)
    decided now last false true = (now, some scale_in)
    decided now last false false = (last, none)

    evaluate-decided :
        (s : Limits fl) (g : Readings fl) (now last : ℕ) (r : Registry) (a b : Bool)
        → ((ns : List Node) → wants_out fl s g ns ≡ a)
        → ((ns : List Node) → wants_in fl s g ns now last ≡ b)
        → ((evaluate fl s g now last r).1 ≡ (decided now last a b).0)
          × ((evaluate fl s g now last r).2 ≡ (decided now last a b).1)
    unfolding evaluate decided
    evaluate-decided s g now last r true b out into =
        (rw (out _, evaluate) refl, rw (out _, evaluate) refl)
    evaluate-decided s g now last r false true out into =
        (rw (out _, into _, evaluate) refl, rw (out _, into _, evaluate) refl)
    evaluate-decided s g now last r false false out into =
        (rw (out _, into _, evaluate) refl, rw (out _, into _, evaluate) refl)

    -- In a process that has set no gauge of a node, as the manager sets none, the request of the
    -- autoscaler and its note of the last one to scale in are the same for all registries: they
    -- depend on the queue's gauge, the limits and the times alone, not on any node.
    pub evaluate-unset :
        (s : Limits fl) (g : Gauges) (now last : ℕ) (r r' : Registry)
        → ((evaluate fl s (readings g (new_node_metrics fl)) now last r).1
            ≡ (evaluate fl s (readings g (new_node_metrics fl)) now last r').1)
          × ((evaluate fl s (readings g (new_node_metrics fl)) now last r).2
              ≡ (evaluate fl s (readings g (new_node_metrics fl)) now last r').2)
    evaluate-unset s g now last r r' =
        let at_r =
          evaluate-decided s (readings g (new_node_metrics fl)) now last r _ _ (wants_out-unset s g)
            (λ ns. wants_in-unset s g ns now last) in
        let at_r' =
          evaluate-decided s (readings g (new_node_metrics fl)) now last r' _ _
            (wants_out-unset s g) (λ ns. wants_in-unset s g ns now last) in
        (at_r.0 ∙ sym at_r'.0, at_r.1 ∙ sym at_r'.1)
