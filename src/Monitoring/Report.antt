-- ===== src/Monitoring/Report.antt =====
-- dmlf/monitoring/system.py: what `get_gpu_usage` reads of a report in the CSV format that it asks
-- nvidia-smi for.
use Prim.Native.Char.{code}
use Prim.Native.String.{◌++◌ as str_append}
use text.Mathlib.TextLemmas.{nil-append, cons-append}
use text.Mathlib.Text.{◌==◌}
use text.Mathlib.TextEquality.{eq_iff}
use distributed_ml_training.Base.{
  ℕ, ℤ, pos, ◌≡◌, refl, ◌∙◌, ap, String, Option, some, false, List, [], ◌∷◌, map, eqb, All, arith,
  Bool-cases, inl, inr,
}
use distributed_ml_training.Text.{is_space, strip, lstrip, rstrip, rstrip_cons}
use distributed_ml_training.Text.Numbers.{show_int}
use distributed_ml_training.Text.Words.{IsWord, join, split_on}
use distributed_ml_training.Text.Split.{Free-append, Free-imp, Whole, split_on-join}
use distributed_ml_training.Text.Strip.{
  lstrip-StartsTight, StartsTight, EndsTight, EndsTight-append, StartsTight-append, EndsTight-word,
  StartsTight-word, strip-word, show_int-Free, show_int-IsWord, int_of-show_int,
}
use distributed_ml_training.Floats.{Floats}
use distributed_ml_training.Monitoring.Gpu.{
  GpuUsage, gpu_of_fields, gpu_of_line, gpus_of_lines, get_gpu_usage,
}

-- A space in front of a text is stripped.
strip-space : (s : String) → strip (str_append " " s) ≡ strip s
unfolding strip lstrip is_space
strip-space s = ap strip (cons-append " " "" s ∙ ap (String.◌∷◌ " ") (nil-append s))

rstrip-newline : (s : String) → rstrip (str_append s "\n") ≡ rstrip s
unfolding rstrip rstrip_cons is_space
rstrip-newline String.[] = ap rstrip (nil-append "\n")
rstrip-newline (String.◌∷◌ c s) = ap rstrip (cons-append c s "\n") ∙ rw (rstrip-newline s) refl

-- What decimal texts must satisfy: they are words without a comma, and `float` reads them.
pub record FloatTexts (fl : Floats) (float_of : String → Option fl.Float) : Type 0 where
  pub float_text : fl.Float → String
  pub float_of-float_text : (x : fl.Float) → float_of (float_text x) ≡ some x
  pub float_text-IsWord : (x : fl.Float) → IsWord (float_text x)
  pub float_text-Whole : (x : fl.Float) → Whole "," (float_text x)

module _ (fl : Floats) (float_of : String → Option fl.Float) (texts : FloatTexts fl float_of) where
  open texts use {float_text}

  -- A line: the four values, with a comma and a space between them.
  abbrev pub report_line : GpuUsage fl float_of → String
  report_line gpu = join "," (
      show_int gpu.index
      ∷ str_append " " (float_text gpu.utilization_percent)
      ∷ str_append " " (float_text gpu.memory_used_mb)
      ∷ str_append " " (float_text gpu.memory_total_mb)
      ∷ [])

  -- The report: a line for each GPU, and a newline at the end.
  abbrev pub report : List (GpuUsage fl float_of) → String
  report gpus = str_append (join "\n" (map report_line gpus)) "\n"

  Whole-index : (z : ℤ) → Whole "," (show_int z)
  Whole-index z = show_int-Free (λ k. eqb k b',') (λ d h. ground arith) z refl

  Whole-field : (x : fl.Float) → Whole "," (str_append " " (float_text x))
  Whole-field x =
      Free-append (λ k. eqb k b',') " " (float_text x) (refl, tt) (texts.float_text-Whole x)

  strip-field : (x : fl.Float) → strip (str_append " " (float_text x)) ≡ float_text x
  strip-field x = strip-space (float_text x) ∙ strip-word (float_text x) (texts.float_text-IsWord x)

  gpu_of_line-report_line :
      (gpu : GpuUsage fl float_of) → gpu_of_line fl float_of (report_line gpu) ≡ some gpu
  unfolding gpu_of_line gpu_of_fields
  gpu_of_line-report_line gpu =
      rw
        (
          split_on-join "," (show_int gpu.index)
              (str_append " " (float_text gpu.utilization_percent)
                ∷ str_append " " (float_text gpu.memory_used_mb)
                ∷ str_append " " (float_text gpu.memory_total_mb)
                ∷ [])
              (Whole-index gpu.index, (Whole-field _, (Whole-field _, (Whole-field _, tt)))),
          strip-word (show_int gpu.index) (show_int-IsWord gpu.index),
          strip-field gpu.utilization_percent,
          strip-field gpu.memory_used_mb,
          strip-field gpu.memory_total_mb,
          int_of-show_int gpu.index,
          texts.float_of-float_text gpu.utilization_percent,
          texts.float_of-float_text gpu.memory_used_mb,
          texts.float_of-float_text gpu.memory_total_mb,
        )
        refl

  StartsTight-report_line : (gpu : GpuUsage fl float_of) → StartsTight (report_line gpu)
  unfolding join
  StartsTight-report_line gpu =
      StartsTight-append (show_int gpu.index) _
        (StartsTight-word (show_int gpu.index) (show_int-IsWord gpu.index))

  EndsTight-report_line : (gpu : GpuUsage fl float_of) → EndsTight (report_line gpu)
  unfolding join
  EndsTight-report_line gpu =
      let last =
        EndsTight-append " " (float_text gpu.memory_total_mb)
          (EndsTight-word _ (texts.float_text-IsWord gpu.memory_total_mb)) in
      EndsTight-append _ _ (
        EndsTight-append _ _ (
          EndsTight-append _ _
            (EndsTight-append _ _ (EndsTight-append _ _ (EndsTight-append _ _ last)))))

  one_line : (k : ℕ) → is_space k ≡ false → eqb k (code "\n") ≡ false
  unfolding is_space
  one_line k h = ground arith

  Whole-word : (w : String) → IsWord w → Whole "\n" w
  Whole-word w h = Free-imp is_space (λ k. eqb k (code "\n")) one_line w h.0

  Whole-line_field : (x : fl.Float) → Whole "\n" (str_append " " (float_text x))
  Whole-line_field x =
      Free-append (λ k. eqb k (code "\n")) " " (float_text x) (refl, tt)
        (Whole-word (float_text x) (texts.float_text-IsWord x))

  Whole-comma :
      (s t : String) → Whole "\n" s → Whole "\n" t → Whole "\n" (str_append s (str_append "," t))
  Whole-comma s t h k =
      Free-append (λ c. eqb c (code "\n")) s (str_append "," t) h
        (Free-append (λ c. eqb c (code "\n")) "," t (refl, tt) k)

  Whole-report_line : (gpu : GpuUsage fl float_of) → Whole "\n" (report_line gpu)
  unfolding join
  Whole-report_line gpu =
      Whole-comma _ _ (Whole-word (show_int gpu.index) (show_int-IsWord gpu.index)) (
        Whole-comma _ _ (Whole-line_field _)
          (Whole-comma _ _ (Whole-line_field _) (Whole-line_field _)))

  All-report_line : (gpus : List (GpuUsage fl float_of)) → All (Whole "\n") (map report_line gpus)
  All-report_line [] = tt
  All-report_line (gpu ∷ gpus) = (Whole-report_line gpu, All-report_line gpus)

  StartsTight-lines :
      (gpu : GpuUsage fl float_of) (gpus : List (GpuUsage fl float_of))
      → StartsTight (join "\n" (map report_line (gpu ∷ gpus)))
  unfolding join
  StartsTight-lines gpu [] = StartsTight-report_line gpu
  StartsTight-lines gpu (next ∷ gpus) = StartsTight-append _ _ (StartsTight-report_line gpu)

  EndsTight-lines :
      (gpu : GpuUsage fl float_of) (gpus : List (GpuUsage fl float_of))
      → EndsTight (join "\n" (map report_line (gpu ∷ gpus)))
  unfolding join
  EndsTight-lines gpu [] = EndsTight-report_line gpu
  EndsTight-lines gpu (next ∷ gpus) =
      EndsTight-append (report_line gpu) _ (EndsTight-append "\n" _ (EndsTight-lines next gpus))

  gpus_of_lines-report_line :
      (gpus : List (GpuUsage fl float_of))
      → gpus_of_lines fl float_of (map report_line gpus) ≡ some gpus
  unfolding gpus_of_lines
  gpus_of_lines-report_line [] = refl
  gpus_of_lines-report_line (gpu ∷ gpus) =
      let full : (report_line gpu == "") ≡ false = elim (Bool-cases (report_line gpu == "")) [
        | inl empty ↦ absurd ((EndsTight-report_line gpu).1 ((eq_iff _ _).0 empty))
        | inr full ↦ full
      ] in
      rw (full, gpu_of_line-report_line gpu, gpus_of_lines-report_line gpus) refl

  strip-lines : (s : String) → StartsTight s → EndsTight s → strip (str_append s "\n") ≡ s
  unfolding strip
  strip-lines s starts end =
      ap rstrip (lstrip-StartsTight (str_append s "\n") (StartsTight-append s "\n" starts))
      ∙ rstrip-newline s
      ∙ end.0

  get_gpu_usage-nothing :
      get_gpu_usage fl float_of (some (record { returncode = pos 0; stdout = report [] })) ≡ []
  unfolding get_gpu_usage join lstrip rstrip rstrip_cons is_space split_on gpus_of_lines
  get_gpu_usage-nothing = refl

  -- Of a report on some GPUs, the values of each GPU are read, in the order of the lines.
  pub get_gpu_usage-report :
      (gpus : List (GpuUsage fl float_of))
      → get_gpu_usage fl float_of (some (record { returncode = pos 0; stdout = report gpus }))
        ≡ gpus
  unfolding get_gpu_usage
  get_gpu_usage-report [] = get_gpu_usage-nothing
  get_gpu_usage-report (gpu ∷ gpus) =
      rw
        (
          strip-lines _ (StartsTight-lines gpu gpus) (EndsTight-lines gpu gpus),
          split_on-join "\n" (report_line gpu) (map report_line gpus)
              (All-report_line (gpu ∷ gpus)),
          gpus_of_lines-report_line (gpu ∷ gpus),
        )
        refl
