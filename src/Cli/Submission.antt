-- ===== src/Cli/Submission.antt =====
-- dmlf/cli.py: the call of `submit_job` and what it prints, through the interceptors of both sides to
-- `SubmitJob` of dmlf/manager/cluster_manager.py.
pub mod Cases
use distributed_ml_training.Base.{ℕ, String, Bool, true, false, if◌then◌else◌}
use distributed_ml_training.Settings.{JobDefaults}
use distributed_ml_training.Auth.Server.{Verdict, proceed, abort, authenticate}
use distributed_ml_training.Manager.State.{Manager}
use distributed_ml_training.Manager.Rpcs.{JobSubmitRequest, submit_job_rpc}
use distributed_ml_training.Cli.{JobFile, build_request, is_valid_request, submit_call}

pub record JobSubmitResponse : Type 0 where
  pub success : Bool
  pub job_id : String
  pub message : String

-- What a call gives: a response, or grpc.RpcError with its details.
pub data Reply : Type 0 where
  response : JobSubmitResponse → Reply
  rpc_error : (details : String) → Reply

-- The last lines that are printed, or the traceback of the ValueError.
pub data Printed : Type 0 where
  success : (job_id message : String) → Printed
  failed_to_submit : (message : String) → Printed
  connection_error : (details : String) → Printed
  traceback : Printed

unfoldable pub print_reply : Reply → Printed
print_reply (response r) =
    if r.success then success r.job_id r.message else failed_to_submit r.message
print_reply (rpc_error details) = connection_error details

-- The manager's side of a call of `SubmitJob`. gRPC answers an exception of the handler with details
-- of its own, `raised`.
unfoldable pub serve_submit :
    (token raised : String) (call_token : String) (now : ℕ) (id : String)
    → JobSubmitRequest
    → Manager
    → Manager × Reply
unfolding authenticate submit_call submit_job_rpc
serve_submit token raised call_token now id q m =
    elim (authenticate token m.registry (submit_call call_token)) [
      | abort message ↦ (m, rpc_error message)
      | proceed ↦
          let (m', added) = submit_job_rpc now id q m in
          elim added [
            | true ↦ (
              m',
              response (record { success = true; job_id = id; message = "Job added to queue." }),
            )
            | false ↦ (m', rpc_error raised)
          ]
    ]

-- `submit_job` with the token and the defaults of its settings and the job file that it has read.
unfoldable pub submit_job_file :
    (token raised : String) (cli_token : String)
    → JobDefaults
    → (now : ℕ) (id : String) → JobFile
    → Manager
    → Manager × Printed
unfolding build_request is_valid_request serve_submit print_reply
submit_job_file token raised cli_token defaults now id f m =
    let q = build_request defaults f in
    if is_valid_request q
    then (let (m', reply) = serve_submit token raised cli_token now id q m in
        (m', print_reply reply))
    else (m, traceback)
