-- ===== src/Registry/NodeState.antt =====
-- dmlf/manager/node_registry.py: `NodeState`. A status column holds any text: heartbeats write
-- what the agent sends.
use distributed_ml_training.Base.{String}

abbrev pub registering : String
registering = "REGISTERING"

abbrev pub idle : String
idle = "IDLE"

abbrev pub reserved : String
reserved = "RESERVED"

abbrev pub training : String
training = "TRAINING"

abbrev pub busy : String
busy = "BUSY"

abbrev pub maintenance : String
maintenance = "MAINTENANCE"

abbrev pub disconnected : String
disconnected = "DISCONNECTED"

abbrev pub failed : String
failed = "FAILED"
