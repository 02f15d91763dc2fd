-- ===== src/Examples/Samples.antt =====
-- Small inputs: a node, requests, a configuration, and natural numbers in place of floats.
use distributed_ml_training.Base.{
  ℕ, ◌+◌, ◌-◌, ◌*◌, ℤ, pos, pos_part, String, Option, none, some, List, [], ◌∷◌, ltb, arith,
}
use Prim.Native.Nat.{◌/◌}
use distributed_ml_training.Floats.{Floats, IsOrdered}
use distributed_ml_training.Registry.Schema.{Node, Job}
use distributed_ml_training.Allocator.{NodeAllocator}
use distributed_ml_training.Manager.State.{JobPayload}
use distributed_ml_training.Manager.Rpcs.{RegistrationRequest, JobStatusRequest, JobSubmitRequest}
use distributed_ml_training.Manager.Events.{Event, register, submit, schedule, report, Config}

-- The number that some digits write; a point is skipped.
abbrev digits : ℕ → List ℕ → ℕ
digits acc [] = acc
digits acc (c ∷ cs) = digits (acc * 10 + (c - 48)) cs

abbrev pub whole : Floats
whole = record {
  Float = ℕ;
  of_int = pos_part;
  of_text = digits 0;
  plus = ◌+◌;
  times = ◌*◌;
  divide = ◌/◌;
  less = ltb;
}

pub whole-IsOrdered : IsOrdered whole
whole-IsOrdered = record {
  asym = λ a b h. ground arith;
  not_less_trans = λ a b c h k. ground arith;
}

abbrev pub allocator : NodeAllocator whole
allocator = record { gpu_weight = 100; cpu_weight = 10; ram_weight = 1 }

abbrev pub config : Config whole
config = record { alloc = allocator; master_port = 29500; monitor_timeout = 15000000 }

abbrev pub machine : RegistrationRequest
machine = record {
  hostname = "host";
  ip_address = "10.0.0.1";
  cpu_count = pos 8;
  gpu_model = "None";
  ram_total = "16 GB";
}

abbrev pub training : JobSubmitRequest
training = record {
  script_path = "train.py";
  nnodes = pos 1;
  nproc_per_node = pos 1;
  args = "";
  max_retries = pos 3;
  checkpoint_interval_minutes = pos 10;
  backend = "gloo";
}

abbrev pub failed_report : JobStatusRequest
failed_report = record { node_id = "n1"; job_id = "j1"; status = "failed" }

abbrev pub node : String → ℤ → Node
node id cpus = record {
  node_id = id;
  hostname = "host";
  ip_address = "10.0.0.1";
  cpu_count = cpus;
  gpu_model = "None";
  ram_total = "16 GB";
  status = "IDLE";
  last_heartbeat = 1;
  node_secret = some "s3cret";
}

-- The row of the job with a status, retries, and the nodes and the time of its start.
abbrev pub job : String → ℕ → List String → Option ℕ → Job
job status retries nodes start = record {
  job_id = "j1";
  job_name = "unnamed";
  status = status;
  script_path = "train.py";
  config_path = "";
  required_nodes = pos 1;
  assigned_nodes = nodes;
  priority = pos 0;
  created_at = 2;
  started_at = start;
  completed_at = none;
  exit_code = none;
  experiment_id = "";
  nproc_per_node = pos 1;
  args = "";
  retries = retries;
  max_retries = pos 3;
  checkpoint_interval_minutes = pos 10;
  backend = "gloo";
}

-- A node registers, and a job is submitted.
abbrev pub waiting : List (ℕ × Event)
waiting = (1, register "n1" "s3cret" machine) ∷ (2, submit "j1" training) ∷ []

-- The job is started.
abbrev pub running : List (ℕ × Event)
running =
    (1, register "n1" "s3cret" machine) ∷ (2, submit "j1" training) ∷ (3, schedule (λ n. "c")) ∷ []

-- Its failure is reported.
abbrev pub events : List (ℕ × Event)
events =
    (1, register "n1" "s3cret" machine)
    ∷ (2, submit "j1" training)
    ∷ (3, schedule (λ n. "c"))
    ∷ (4, report failed_report)
    ∷ []

abbrev pub launch : JobPayload
launch = record {
  job_id = "j1";
  nnodes = pos 1;
  node_rank = 0;
  master_addr = "10.0.0.1";
  master_port = 29500;
  nproc_per_node = pos 1;
  script_path = "train.py";
  args = "";
  max_retries = pos 3;
  checkpoint_interval_minutes = pos 10;
  backend = "gloo";
}
