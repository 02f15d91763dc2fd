-- ===== src/Settings/Load.antt =====
-- dmlf/settings.py: `Settings(**entries)`, `load_settings` and `get_settings`.
--
-- The file system, YAML and pydantic's conversions of single values are a parameter. Of pydantic the
-- model has that a field is taken from its key, or from its default where the key is missing, and
-- that a value that cannot be converted is an error.
use distributed_ml_training.Base.{
  ℤ, pos, String, Option, none, some, Bool, true, [], Dict, lookup, ◌>>=◌, ◌⊎◌, inl, inr,
}
use distributed_ml_training.Text.{codes}
use distributed_ml_training.Floats.{Floats}
use distributed_ml_training.Settings.{
  ManagerSettings, AgentSettings, JobDefaults, MetricsSettings, SchedulerSettings,
  DistributedSettings, StorageSettings, MonitorSettings, AllocatorSettings, AutoscalerSettings,
  Settings,
}

-- Values of a YAML document. A float default is given by the text in the source.
pub record Documents (fl : Floats) : Type 1 where
  pub Value : Type 0
  pub as_int : Value → Option ℤ
  pub as_float : Value → Option fl.Float
  pub as_text : Value → Option String
  pub as_bool : Value → Option Bool
  pub as_section : Value → Option (Dict Value)
  -- open(path) and yaml.safe_load(f) or {}: `none` for no such file, and inside it for no YAML.
  pub Files : Type 0
  pub read : Files → String → Option (Option (Dict Value))

module _ (fl : Floats) (docs : Documents fl) where
  open fl use {Float, of_text}
  open docs use {Value, as_int, as_float, as_text, as_bool, as_section, Files, read}

  -- A field of a section.
  unfoldable pub field : {A : Type 0} → (Value → Option A) → Dict Value → String → A → Option A
  unfolding lookup
  field convert entries key default = elim (lookup key entries) [
    | none ↦ some default
    | some v ↦ convert v
  ]

  unfoldable pub manager_of : Dict Value → Option ManagerSettings
  unfolding field
  manager_of d = do
    some (record {
      grpc_port = (← field as_int d "grpc_port" (pos 50051));
      http_health_port = (← field as_int d "http_health_port" (pos 8080));
      heartbeat_interval_sec = (← field as_int d "heartbeat_interval_sec" (pos 5));
      offline_timeout_sec = (← field as_int d "offline_timeout_sec" (pos 15));
      scheduler_interval_sec = (← field as_int d "scheduler_interval_sec" (pos 2));
      auth_token = (← field as_text d "auth_token" "CHANGE_ME_32_BYTE_HEX");
    })

  unfoldable pub agent_of : Dict Value → Option AgentSettings
  unfolding field
  agent_of d = do
    some (record {
      reconnect_base_sec = (← field as_int d "reconnect_base_sec" (pos 2));
      reconnect_max_sec = (← field as_int d "reconnect_max_sec" (pos 30));
    })

  unfoldable pub allocator_of : Dict Value → Option (AllocatorSettings fl)
  unfolding field
  allocator_of d = do
    some (record {
      gpu_weight = (← field as_float d "gpu_weight" (of_text (codes "1.0")));
      cpu_weight = (← field as_float d "cpu_weight" (of_text (codes "0.5")));
      ram_weight = (← field as_float d "ram_weight" (of_text (codes "0.1")));
    })

  unfoldable pub job_defaults_of : Dict Value → Option JobDefaults
  unfolding field
  job_defaults_of d = do
    some (record {
      max_retries = (← field as_int d "max_retries" (pos 3));
      checkpoint_interval_minutes = (← field as_int d "checkpoint_interval_minutes" (pos 5));
      backend = (← field as_text d "backend" "gloo");
    })

  unfoldable pub metrics_of : Dict Value → Option MetricsSettings
  unfolding field
  metrics_of d = do
    some (record {
      manager_port = (← field as_int d "manager_port" (pos 9090));
      agent_port = (← field as_int d "agent_port" (pos 9091));
    })

  unfoldable pub autoscaler_of : Dict Value → Option (AutoscalerSettings fl)
  unfolding field
  autoscaler_of d = do
    some (record {
      enabled = (← field as_bool d "enabled" true);
      interval_sec = (← field as_int d "interval_sec" (pos 30));
      queue_depth_high = (← field as_int d "queue_depth_high" (pos 5));
      avg_cpu_high = (← field as_float d "avg_cpu_high" (of_text (codes "80.0")));
      avg_gpu_high = (← field as_float d "avg_gpu_high" (of_text (codes "70.0")));
      queue_depth_low = (← field as_int d "queue_depth_low" (pos 0));
      avg_cpu_low = (← field as_float d "avg_cpu_low" (of_text (codes "20.0")));
      avg_gpu_low = (← field as_float d "avg_gpu_low" (of_text (codes "10.0")));
      scale_in_cooldown_sec = (← field as_int d "scale_in_cooldown_sec" (pos 300));
      scale_callback =
          (← field as_text d "scale_callback" "dmlf.autoscaler.default_callback:scale_callback");
    })

  unfoldable pub scheduler_of : Dict Value → Option SchedulerSettings
  unfolding field
  scheduler_of d = do
    some (record {
      plugin =
          (← field as_text d "plugin" "dmlf.manager.schedulers.builtin:PriorityBinPackScheduler");
    })

  unfoldable pub distributed_of : Dict Value → Option DistributedSettings
  unfolding field
  distributed_of d = do
    some (record {
      master_port = (← field as_int d "master_port" (pos 29500));
      rendezvous_timeout_sec = (← field as_int d "rendezvous_timeout_sec" (pos 30));
    })

  unfoldable pub storage_of : Dict Value → Option StorageSettings
  unfolding field
  storage_of d = do
    some (record {
      database_path = (← field as_text d "database_path" "cluster.db");
      log_directory = (← field as_text d "log_directory" "logs");
    })

  unfoldable pub monitor_of : Dict Value → Option MonitorSettings
  unfolding field
  monitor_of d = do
    some
        (record { node_check_interval_sec = (← field as_int d "node_check_interval_sec" (pos 10)) })

  -- A section, with an empty mapping where its key is missing: all its fields have their defaults.
  unfoldable pub section : {A : Type 0} → (Dict Value → Option A) → Dict Value → String → Option A
  unfolding lookup
  section build entries key = elim (lookup key entries) [
    | none ↦ build []
    | some v ↦ as_section v >>= build
  ]

  -- Settings(**entries)
  unfoldable pub settings_of : Dict Value → Option (Settings fl)
  unfolding section manager_of agent_of allocator_of job_defaults_of metrics_of autoscaler_of
      scheduler_of distributed_of storage_of monitor_of
  settings_of entries = do
    some (record {
      manager = (← section manager_of entries "manager");
      agent = (← section agent_of entries "agent");
      allocator = (← section allocator_of entries "allocator");
      job_defaults = (← section job_defaults_of entries "job_defaults");
      metrics = (← section metrics_of entries "metrics");
      autoscaler = (← section autoscaler_of entries "autoscaler");
      scheduler = (← section scheduler_of entries "scheduler");
      distributed = (← section distributed_of entries "distributed");
      storage = (← section storage_of entries "storage");
      monitor = (← section monitor_of entries "monitor");
    })

  pub data LoadError : Type 0 where
    file_not_found yaml_error validation_error : LoadError

  -- The global `_settings_instance`.
  abbrev pub Instance : Type 0
  Instance = Option (Settings fl)

  unfoldable pub load_settings : Files → String → Instance → Instance × (Settings fl ⊎ LoadError)
  unfolding settings_of
  load_settings files path instance_ = elim (read files path) [
    | none ↦ (instance_, inr file_not_found)
    | some none ↦ (instance_, inr yaml_error)
    | some (some entries) ↦ elim (settings_of entries) [
      | none ↦ (instance_, inr validation_error)
      | some s ↦ (some s, inl s)
    ]
  ]

  unfoldable pub get_settings : Files → Instance → Instance × (Settings fl ⊎ LoadError)
  unfolding load_settings
  get_settings files none = load_settings files "config.yaml" none
  get_settings files (some s) = (some s, inl s)
