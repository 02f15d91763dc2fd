-- ===== src/Monitoring/Gpu.antt =====
-- dmlf/monitoring/system.py: `get_gpu_usage` and `log_system_metrics`; dmlf/agent/agent.py: the GPU
-- fields of a heartbeat; dmlf/agent/hardware.py: `get_gpu_model`.
--
-- A run of nvidia-smi is its return code and its output, or `none` where the program is not found.
use Prim.Native.String.{◌++◌ as str_append}
use distributed_ml_training.Base.{
  ℤ, pos, int_eqb, String, Option, none, some, Bool, ◌==◌, List, [], ◌∷◌, map, if◌then◌else◌, ◌>>=◌,
}
use distributed_ml_training.Text.{strip}
use distributed_ml_training.Text.Numbers.{int_of, show_int}
use distributed_ml_training.Text.Words.{split_on}
use distributed_ml_training.Floats.{Floats}

-- subprocess.run(["nvidia-smi", …])
pub record Run : Type 0 where
  pub returncode : ℤ
  pub stdout : String

-- The lines of the stripped output.
abbrev pub lines_of : String → List String
lines_of out = split_on b'\n' (strip out)

-- `split` gives one line at least; the empty text is the line of an empty output.
unfoldable pub get_gpu_model : Option Run → String
unfolding strip split_on
get_gpu_model none = "None"
get_gpu_model (some run) =
    if int_eqb run.returncode (pos 0)
    then (elim (lines_of run.stdout) [ [] ↦ "None" | line ∷ rest ↦ line ])
    else "None"

-- float(text) is a parameter: `none` is ValueError.
module _ (fl : Floats) (float_of : String → Option fl.Float) where
  open fl use {Float, of_int}

  pub record GpuUsage : Type 0 where
    pub index : ℤ
    pub utilization_percent : Float
    pub memory_used_mb : Float
    pub memory_total_mb : Float

  -- The fields of a line, which must be four.
  unfoldable pub gpu_of_fields : List String → Option GpuUsage
  unfolding int_of
  gpu_of_fields (idx ∷ util ∷ mem_used ∷ mem_total ∷ []) = do
    index ← int_of idx
    utilization ← float_of util
    used ← float_of mem_used
    total ← float_of mem_total
    some (record {
      index = index;
      utilization_percent = utilization;
      memory_used_mb = used;
      memory_total_mb = total;
    })
  gpu_of_fields _ = none

  unfoldable pub gpu_of_line : String → Option GpuUsage
  unfolding gpu_of_fields split_on strip
  gpu_of_line line = gpu_of_fields (map strip (split_on b',' line))

  -- The loop over the lines. A ValueError ends it with no GPU.
  unfoldable pub gpus_of_lines : List String → Option (List GpuUsage)
  unfolding gpu_of_line
  gpus_of_lines [] = some []
  gpus_of_lines (line ∷ rest) =
      let later = gpus_of_lines rest in
      if line == "" then later else (do gpu ← gpu_of_line line; gpus ← later; some (gpu ∷ gpus))

  unfoldable pub get_gpu_usage : Option Run → List GpuUsage
  unfolding strip split_on gpus_of_lines
  get_gpu_usage none = []
  get_gpu_usage (some run) =
      if int_eqb run.returncode (pos 0)
      then (elim (gpus_of_lines (lines_of run.stdout)) [ none ↦ [] | some gpus ↦ gpus ])
      else []

  -- gpu_utilization and gpu_memory_mb of a heartbeat: of the first GPU, or 0.0
  unfoldable pub heartbeat_gpu : List GpuUsage → Float × Float
  heartbeat_gpu [] = (of_int (pos 0), of_int (pos 0))
  heartbeat_gpu (gpu ∷ rest) = (gpu.utilization_percent, gpu.memory_used_mb)

  -- The two values of a GPU for TensorBoard, by their tags.
  unfoldable pub gpu_scalars : (rank : ℤ) → List GpuUsage → List (String × Float)
  unfolding show_int
  gpu_scalars rank [] = []
  gpu_scalars rank (gpu ∷ rest) =
      let tag =
        str_append "System_Rank"
          (str_append (show_int rank) (str_append "/GPU" (show_int gpu.index))) in
      (str_append tag "_Utilization", gpu.utilization_percent)
      ∷ (str_append tag "_Memory_Used_MB", gpu.memory_used_mb)
      ∷ gpu_scalars rank rest

  -- What `log_system_metrics` writes at a step, if there is a writer: the two measured percentages
  -- are arguments, and so is the run of nvidia-smi.
  unfoldable pub log_system_metrics :
      (writer : Bool) (rank : ℤ) (cpu_percent mem_percent : Float)
      → Option Run
      → List (String × Float)
  unfolding get_gpu_usage gpu_scalars show_int
  log_system_metrics writer rank cpu_percent mem_percent run =
      let prefix = str_append "System_Rank" (str_append (show_int rank) "/") in
      if writer
      then (str_append prefix "CPU_Percent", cpu_percent)
        ∷ (str_append prefix "Memory_Percent", mem_percent)
        ∷ gpu_scalars rank (get_gpu_usage run)
      else []
