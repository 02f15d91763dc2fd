-- ===== src/Agent/Launcher.antt =====
-- dmlf/agent/launcher.py: the command line of torchrun, and the log messages of its output.
use Prim.Native.String.{◌++◌ as str_append}
use distributed_ml_training.Base.{ℕ, suc, pos, String, List, [], ◌∷◌, ◌++◌, ◌==◌, if◌then◌else◌}
use distributed_ml_training.Text.{strip}
use distributed_ml_training.Text.Numbers.{show_int}
use distributed_ml_training.Text.Words.{split_words}
use distributed_ml_training.Manager.State.{JobPayload}
use distributed_ml_training.Manager.Rpcs.{LogMessage}

-- The list `cmd`. The payload's limit of retries, checkpoint interval and backend are not used.
unfoldable pub launch_command : JobPayload → List String
unfolding show_int split_words
launch_command p =
    let base =
      "torchrun"
      ∷ str_append "--nnodes=" (show_int p.nnodes)
      ∷ str_append "--node_rank=" (show_int (pos p.node_rank))
      ∷ str_append "--master_addr=" p.master_addr
      ∷ str_append "--master_port=" (show_int (pos p.master_port))
      ∷ str_append "--nproc_per_node=" (show_int p.nproc_per_node)
      ∷ p.script_path
      ∷ [] in
    if p.args == "" then base else base ++ split_words p.args

-- The messages of `log_generator`, for the lines that `readline` returns before the empty one at the
-- end of the output. `clock` formats the time of each.
unfoldable pub log_messages :
    (clock : ℕ → String) (node_id job_id : String) → ℕ → List String → List LogMessage
unfolding strip
log_messages clock node job n [] = []
log_messages clock node job n (line ∷ lines) =
    record {
      timestamp = clock n;
      node_id = node;
      job_id = job;
      level = "INFO";
      message = strip line;
    }
    ∷ log_messages clock node job (suc n) lines
