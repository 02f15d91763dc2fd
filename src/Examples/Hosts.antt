-- ===== src/Examples/Hosts.antt =====
-- The command line, the settings, the reports of nvidia-smi and the dashboard on small inputs.
use distributed_ml_training.Cli.Submission.Cases.{
  IsAccepted, IsRefused, IsInvalid, submit_job_file-cases,
}
use distributed_ml_training.Agent.Loop.{Stream, StreamEnd, start_agent}
use distributed_ml_training.Agent.Loop.Delays.{capped_powers, start_agent-lost}
use distributed_ml_training.Agent.State.{new_agent, heartbeat_status}
use distributed_ml_training.Manager.Rpcs.{RegistrationResponse}
use distributed_ml_training.Manager.State.{launch_job}
use distributed_ml_training.Examples.Samples.{launch}
use distributed_ml_training.Base.{◌≢◌, ◌⊎◌, true, arith}
use text.Mathlib.TextLemmas.{cons≢nil}
use distributed_ml_training.Base.{
  ℕ, ◌≡◌, refl, ℤ, pos, String, none, some, false, List, [], ◌∷◌, eqb, Dict, lookup, arith,
}
use distributed_ml_training.Floats.{Floats}
use distributed_ml_training.Text.{is_space}
use distributed_ml_training.Text.Numbers.{int_of, show_int}
use distributed_ml_training.Text.Words.{join}
use distributed_ml_training.Text.Strip.{show_int-Free, show_int-IsWord, int_of-show_int}
use distributed_ml_training.Registry.Schema.{Job}
use distributed_ml_training.Registry.Jobs.{dict_of_row, get_job}
use distributed_ml_training.Manager.State.{new_manager}
use distributed_ml_training.Manager.Dispatch.{payload}
use distributed_ml_training.Manager.Rpcs.{job_data, submit_job_rpc}
use distributed_ml_training.Agent.Launcher.{launch_command}
use distributed_ml_training.Settings.{JobDefaults}
use distributed_ml_training.Settings.Load.{Documents}
use distributed_ml_training.Cli.{JobFile, build_request}
use distributed_ml_training.Cli.Pipeline.{asked_command, submitted_command}
use distributed_ml_training.Monitoring.Gpu.{GpuUsage, get_gpu_usage}
use distributed_ml_training.Monitoring.Report.{FloatTexts, report, get_gpu_usage-report}
use distributed_ml_training.Examples.Samples.{whole, job}

abbrev defaults : JobDefaults
defaults = record { max_retries = pos 3; checkpoint_interval_minutes = pos 10; backend = "nccl" }

abbrev file : JobFile
file = record {
  nodes = some (pos 2);
  script_path = none;
  nproc_per_node = none;
  args = some (join " " ("-e" ∷ "5" ∷ []));
  max_retries = none;
  checkpoint_interval_minutes = none;
  backend = none;
}

submitted_command_example :
    (launch_command (payload (job_data "j1" (build_request defaults file)) 29500 "10.0.0.1" 1)
      ≡ asked_command file ("-e" ∷ "5" ∷ []) 29500 "10.0.0.1" 1)
    × (row : Job) × (get_job "j1"
          (submit_job_rpc 7 "j1" (build_request defaults file) new_manager).0.registry
        ≡ some row)
    × (launch_command (payload (dict_of_row row) 29500 "10.0.0.1" 1)
        ≡ asked_command file ("-e" ∷ "5" ∷ []) 29500 "10.0.0.1" 1)
unfolding is_space
submitted_command_example =
    submitted_command defaults file ("-e" ∷ "5" ∷ []) 7 29500 1 "j1" "10.0.0.1" new_manager refl
      (((refl, (refl, tt)), cons≢nil), (((refl, tt), cons≢nil), tt)) refl

-- A file system of one YAML document, whose values are texts.
abbrev documents : Documents whole
documents = record {
  Value = String;
  as_int = int_of;
  as_float = λ v. none;
  as_text = λ v. some v;
  as_bool = λ v. none;
  as_section = λ v. some (("grpc_port", v) ∷ []);
  Files = Dict (Dict String);
  read = λ files path. elim (lookup path files) [ none ↦ none | some d ↦ some (some d) ];
}

-- Floats that are integers, with their texts.
abbrev integers : Floats
integers = record {
  Float = ℤ;
  of_int = λ z. z;
  of_text = λ cs. pos 0;
  plus = λ a b. a;
  times = λ a b. a;
  divide = λ a b. a;
  less = λ a b. false;
}

integer_texts : FloatTexts integers int_of
integer_texts = record {
  float_text = show_int;
  float_of-float_text = int_of-show_int;
  float_text-IsWord = show_int-IsWord;
  float_text-Whole = λ z. show_int-Free (λ k. eqb k b',') (λ d h. ground arith) z refl;
}

abbrev gpu : GpuUsage integers int_of
gpu = record {
  index = pos 0;
  utilization_percent = pos 45;
  memory_used_mb = pos 1024;
  memory_total_mb = pos 24576;
}

get_gpu_usage-report_example :
    get_gpu_usage integers int_of (
      some (record {
        returncode = pos 0;
        stdout = report integers int_of integer_texts (gpu ∷ gpu ∷ []);
      }))
    ≡ gpu ∷ gpu ∷ []
get_gpu_usage-report_example = get_gpu_usage-report integers int_of integer_texts (gpu ∷ gpu ∷ [])

-- A job that was created at a time.
abbrev created : ℕ → Job
created time = record (job "PENDING" 0 [] none) { created_at = time }

abbrev jobs : List Job
jobs = created 1 ∷ created 2 ∷ created 3 ∷ created 4 ∷ created 5 ∷ created 6 ∷ []

submit_job_file-cases_example :
    (IsAccepted "token" "raised" "token" defaults 7 "j1" file new_manager
      ⊎ IsRefused "token" "raised" "token" defaults 7 "j1" file new_manager)
    ⊎ IsInvalid "token" "raised" "token" defaults 7 "j1" file new_manager
submit_job_file-cases_example =
    submit_job_file-cases "token" "raised" "token" defaults 7 "j1" file new_manager

abbrev lost_stream : Stream
lost_stream = record { commands = []; ending = StreamEnd.lost }

abbrev busy_stream : Stream
busy_stream = record { commands = launch_job "c" launch ∷ []; ending = StreamEnd.closed }

abbrev welcome : RegistrationResponse
welcome = record { success = true; node_id = "n1"; node_secret = "s3cret" }

start_agent-lost_example :
    ((start_agent 1 60 (some welcome) (lost_stream ∷ busy_stream ∷ []) new_agent).1
      ≡ capped_powers 1 60 0 (lost_stream ∷ busy_stream ∷ []))
    × (heartbeat_status
          (start_agent 1 60 (some welcome) (lost_stream ∷ busy_stream ∷ []) new_agent).0
        ≢ some "IDLE")
start_agent-lost_example =
    start_agent-lost 1 60 welcome lost_stream (busy_stream ∷ []) new_agent (omega arith) refl refl
      ((tt, tt), tt)
