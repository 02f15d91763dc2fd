-- ===== src/Monitoring/NodeGauges.antt =====
-- dmlf/monitoring/prometheus.py: the gauges by node and their helpers. A labelled gauge of
-- prometheus_client is a dict, and a label that was never set reads as 0.0.
pub mod Unset
use mathlib.Core.Option.{get_or}
use distributed_ml_training.Base.{ℤ, pos, String, List, [], ◌∷◌, ◌++◌, Dict, lookup, insert}
use distributed_ml_training.Floats.{Floats}

module _ (fl : Floats) where
  open fl use {Float, of_int}

  -- NODE_CPU, NODE_RAM, NODE_GPU_UTIL, NODE_GPU_MEM, and the observations of GRPC_LATENCY with their
  -- method and side.
  pub record NodeMetrics : Type 0 where
    pub node_cpu : Dict Float
    pub node_ram : Dict Float
    pub node_gpu_util : Dict Float
    pub node_gpu_mem : Dict Float
    pub grpc_latency : List (String × String × Float)

  -- The metrics of a process that has just started.
  abbrev pub new_node_metrics : NodeMetrics
  new_node_metrics = record {
    node_cpu = [];
    node_ram = [];
    node_gpu_util = [];
    node_gpu_mem = [];
    grpc_latency = [];
  }

  unfoldable pub set_node_cpu : (node_id : String) → Float → NodeMetrics → NodeMetrics
  unfolding insert
  set_node_cpu node_id value m = record m { node_cpu = insert node_id value m.node_cpu }

  unfoldable pub set_node_ram : (node_id : String) → Float → NodeMetrics → NodeMetrics
  unfolding insert
  set_node_ram node_id value m = record m { node_ram = insert node_id value m.node_ram }

  unfoldable pub set_node_gpu : (node_id : String) (util mem_mb : Float) → NodeMetrics → NodeMetrics
  unfolding insert
  set_node_gpu node_id util mem_mb m = record m {
    node_gpu_util = insert node_id util m.node_gpu_util;
    node_gpu_mem = insert node_id mem_mb m.node_gpu_mem;
  }

  unfoldable pub observe_grpc_latency :
      (method side : String) (seconds : Float) → NodeMetrics → NodeMetrics
  observe_grpc_latency method side seconds m = record m {
    grpc_latency = m.grpc_latency ++ (method, side, seconds) ∷ [];
  }

  -- gauge.labels(node_id=…)._value.get()
  unfoldable pub gauge_value : Dict Float → String → Float
  unfolding lookup
  gauge_value gauge node_id = get_or (lookup node_id gauge) (of_int (pos 0))
