-- ===== src/Cli.antt =====
-- dmlf/cli.py: the request that `submit_job` builds from a job's YAML file.
pub mod Pipeline
pub mod Submission
use mathlib.Core.Option.{get_or}
use Prim.Native.String.{◌++◌ as str_append}
use distributed_ml_training.Base.{
  ℤ, pos, negsuc, int_ltb, String, Option, none, some, Bool, not, ◌&&◌,
}
use distributed_ml_training.Text.Numbers.{show_int}
use distributed_ml_training.Settings.{JobDefaults}
use distributed_ml_training.Manager.Rpcs.{JobSubmitRequest}
use distributed_ml_training.Auth.Server.{Call}
use distributed_ml_training.Auth.Client.{add_auth}

-- The keys of the sections `cluster` and `training` that are read, for values of the right type. A
-- section that is missing has none of its keys.
pub record JobFile : Type 0 where
  pub nodes : Option ℤ
  pub script_path : Option String
  pub nproc_per_node : Option ℤ
  pub args : Option String
  pub max_retries : Option ℤ
  pub checkpoint_interval_minutes : Option ℤ
  pub backend : Option String

-- The arguments that `JobSubmitRequest` is called with.
unfoldable pub build_request : JobDefaults → JobFile → JobSubmitRequest
build_request defaults f = record {
  script_path = get_or f.script_path "train.py";
  nnodes = get_or f.nodes (pos 1);
  nproc_per_node = get_or f.nproc_per_node (pos 1);
  args = get_or f.args "";
  max_retries = get_or f.max_retries defaults.max_retries;
  checkpoint_interval_minutes =
      get_or f.checkpoint_interval_minutes defaults.checkpoint_interval_minutes;
  backend = get_or f.backend defaults.backend;
}

abbrev is_int32 : ℤ → Bool
is_int32 x = int_ltb x (pos 2147483648) && not (int_ltb x (negsuc 2147483647))

-- Whether `JobSubmitRequest` takes them: it raises ValueError where a field is no int32.
unfoldable pub is_valid_request : JobSubmitRequest → Bool
is_valid_request q =
    is_int32 q.nnodes
    && is_int32 q.nproc_per_node
    && is_int32 q.max_retries
    && is_int32 q.checkpoint_interval_minutes

-- manager_addr, or the local manager
unfoldable pub manager_address : (grpc_port : ℤ) → Option String → String
unfolding show_int
manager_address port none = str_append "localhost:" (show_int port)
manager_address port (some address) = address

-- The call through a channel with the token's interceptor alone.
unfoldable pub submit_call : (token : String) → Call
unfolding add_auth
submit_call token = record {
  method = "/cml.ClusterManager/SubmitJob";
  invocation_metadata = some (add_auth token none);
}
