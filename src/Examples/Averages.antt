-- ===== src/Examples/Averages.antt =====
-- metrics.py: the hardware lines of `calc_metrics` on three samples of two nodes, where a list's
-- sum stands for AVG.
use distributed_ml_training.Base.{ℤ, pos, ◌+ℤ◌, ◌≡◌, refl, String, List, [], ◌∷◌}
use distributed_ml_training.Registry.Schema.{Metric, Registry}
use distributed_ml_training.Dashboard.Averages.{HardwareLine, calc_hardware_metrics}

abbrev sum : List ℤ → ℤ
sum [] = pos 0
sum (x ∷ xs) = x +ℤ sum xs

abbrev sample : String → ℤ → Metric
sample id v = record {
  node_id = id;
  timestamp = 0;
  sample = record { cpu_percent = v; ram_percent = v; gpu_utilization = v; gpu_memory_mb = v };
  heartbeat_latency_ms = v;
}

abbrev sampled : Registry
sampled = record {
  nodes = [];
  metrics = sample "n1" (pos 1) ∷ sample "n2" (pos 2) ∷ sample "n1" (pos 3) ∷ [];
  jobs = [];
}

abbrev hardware_of : String → ℤ → HardwareLine ℤ
hardware_of id v = record { node_id = id; cpu = v; ram = v; gpu = v; latency = v }

two_nodes :
    calc_hardware_metrics sum sampled ≡ hardware_of "n1" (pos 4) ∷ hardware_of "n2" (pos 2) ∷ []
unfolding calc_hardware_metrics ◌+ℤ◌
two_nodes = refl
