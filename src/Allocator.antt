-- ===== src/Allocator.antt =====
-- dmlf/manager/allocator.py: the scores of nodes and the choice of the best ones.
pub mod Memory
pub mod Best
pub mod Format
use distributed_ml_training.Base.{
  ℕ, ◌-◌, suc, ℤ, pos, negsuc, String, Bool, true, false, not, ◌&&◌, List, [], length, take,
  int_ltb, ◌==◌, if◌then◌else◌,
}
use distributed_ml_training.Sort.{sort_desc}
use distributed_ml_training.Floats.{Floats}
use distributed_ml_training.Registry.Schema.{Node}
use distributed_ml_training.Allocator.Memory.{parse_memory}

pub record NodeAllocator (fl : Floats) : Type 0 where
  pub gpu_weight : fl.Float
  pub cpu_weight : fl.Float
  pub ram_weight : fl.Float

-- l[:n]. A negative bound counts from the end.
unfoldable pub slice_to {ℓ} : {A : Type ℓ} → ℤ → List A → List A
slice_to (pos n) l = take n l
slice_to (negsuc n) l = take (length l - suc n) l

abbrev pub has_gpu : Node → Bool
has_gpu n = not (n.gpu_model == "") && not (n.gpu_model == "None")

module _ (fl : Floats) (self : NodeAllocator fl) where
  open fl use {Float, of_int, plus, times, divide, less}

  unfoldable pub score_node : Node → Float
  unfolding parse_memory
  score_node n =
      let gpu_score = times (of_int (if has_gpu n then pos 1000 else pos 0)) self.gpu_weight in
      let cpu_score = times (of_int n.cpu_count) self.cpu_weight in
      let ram_mb = parse_memory fl n.ram_total in
      let ram_score = times (divide ram_mb (of_int (pos 1024))) self.ram_weight in
      plus (plus gpu_score cpu_score) ram_score

  -- `<` on the sort key.
  unfoldable pub score_lt : Node → Node → Bool
  unfolding score_node
  score_lt a b = less (score_node a) (score_node b)

  unfoldable pub allocate : List Node → ℤ → List Node
  unfolding sort_desc score_lt slice_to
  allocate available required =
      if int_ltb (pos (length available)) required
      then []
      else slice_to required (sort_desc score_lt available)
