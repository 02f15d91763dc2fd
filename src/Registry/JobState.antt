-- ===== src/Registry/JobState.antt =====
-- dmlf/manager/node_registry.py: `JobState`.
use distributed_ml_training.Base.{String}

abbrev pub pending : String
pending = "PENDING"

abbrev pub running : String
running = "RUNNING"

abbrev pub completed : String
completed = "COMPLETED"

abbrev pub failed : String
failed = "FAILED"
