-- ===== src/Settings.antt =====
-- dmlf/settings.py: the settings and their defaults.
--
-- `Load` has `load_settings` and `get_settings`, `Once` is about the order of their calls.
pub mod Load
pub mod Once
use distributed_ml_training.Base.{ℕ, ◌*◌, ℤ, pos, pos_part, String, Bool, true, List, []}
use distributed_ml_training.Floats.{Floats}
use distributed_ml_training.Allocator.{NodeAllocator}
use distributed_ml_training.Autoscaler.Policy.{Limits}
use distributed_ml_training.Manager.Events.{Config}

pub record ManagerSettings : Type 0 where
  pub grpc_port : ℤ
  pub http_health_port : ℤ
  pub heartbeat_interval_sec : ℤ
  pub offline_timeout_sec : ℤ
  pub scheduler_interval_sec : ℤ
  pub auth_token : String

pub record AgentSettings : Type 0 where
  pub reconnect_base_sec : ℤ
  pub reconnect_max_sec : ℤ

pub record JobDefaults : Type 0 where
  pub max_retries : ℤ
  pub checkpoint_interval_minutes : ℤ
  pub backend : String

pub record MetricsSettings : Type 0 where
  pub manager_port : ℤ
  pub agent_port : ℤ

pub record SchedulerSettings : Type 0 where
  pub plugin : String

pub record DistributedSettings : Type 0 where
  pub master_port : ℤ
  pub rendezvous_timeout_sec : ℤ

pub record StorageSettings : Type 0 where
  pub database_path : String
  pub log_directory : String

pub record MonitorSettings : Type 0 where
  pub node_check_interval_sec : ℤ

module _ (fl : Floats) where
  open fl use {Float}

  pub record AllocatorSettings : Type 0 where
    pub gpu_weight : Float
    pub cpu_weight : Float
    pub ram_weight : Float

  pub record AutoscalerSettings : Type 0 where
    pub enabled : Bool
    pub interval_sec : ℤ
    pub queue_depth_high : ℤ
    pub avg_cpu_high : Float
    pub avg_gpu_high : Float
    pub queue_depth_low : ℤ
    pub avg_cpu_low : Float
    pub avg_gpu_low : Float
    pub scale_in_cooldown_sec : ℤ
    pub scale_callback : String

  pub record Settings : Type 0 where
    pub manager : ManagerSettings
    pub agent : AgentSettings
    pub allocator : AllocatorSettings
    pub job_defaults : JobDefaults
    pub metrics : MetricsSettings
    pub autoscaler : AutoscalerSettings
    pub scheduler : SchedulerSettings
    pub distributed : DistributedSettings
    pub storage : StorageSettings
    pub monitor : MonitorSettings

  -- What `serve` passes to the allocator, the dispatch and the monitor. A negative timeout is in the
  -- future, where every node is silent; the model has none.
  unfoldable pub config_of : Settings → Config fl
  config_of s = record {
    alloc = record {
      gpu_weight = s.allocator.gpu_weight;
      cpu_weight = s.allocator.cpu_weight;
      ram_weight = s.allocator.ram_weight;
    };
    master_port = pos_part s.distributed.master_port;
    monitor_timeout = pos_part s.manager.offline_timeout_sec * 1000000;
  }

  -- What `Autoscaler.__init__` copies.
  unfoldable pub limits_of : Settings → Limits fl
  limits_of s = record {
    queue_high = s.autoscaler.queue_depth_high;
    cpu_high = s.autoscaler.avg_cpu_high;
    gpu_high = s.autoscaler.avg_gpu_high;
    queue_low = s.autoscaler.queue_depth_low;
    cpu_low = s.autoscaler.avg_cpu_low;
    gpu_low = s.autoscaler.avg_gpu_low;
    cooldown = pos_part s.autoscaler.scale_in_cooldown_sec * 1000000;
  }
