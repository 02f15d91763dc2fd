-- ===== src/Allocator/Best.antt =====
-- dmlf/manager/allocator.py: how many nodes `allocate` returns, and which.
use mathlib.Core.List.{Perm}
use distributed_ml_training.Base.{
  ℕ, suc, ◌-◌, ◌≤◌, ℤ, pos, negsuc, ◌≡◌, List, [], ◌++◌, Bool, true, false, All, In, take, drop,
  length, length-take, take-append-drop, In-take, arith, if◌then◌else◌, int_ltb, ltb, Bool-cases,
  inl, inr,
}
use distributed_ml_training.Sort.{sort_desc}
use distributed_ml_training.Sort.Laws.{
  IsDesc, sort_desc-perm, length-sort_desc, sort_desc-IsDesc, IsDesc-append, In-sort_desc,
}
use distributed_ml_training.Floats.{Floats, IsOrdered}
use distributed_ml_training.Registry.Schema.{Node}
use distributed_ml_training.Allocator.{NodeAllocator, slice_to, score_lt, allocate}

-- How many of some available nodes are chosen for a request.
abbrev pub chosen_count : ℕ → ℤ → ℕ
chosen_count available (pos n) = if ltb available n then 0 else n
chosen_count available (negsuc n) = available - suc n

ltb-false : {a b : ℕ} → ltb a b ≡ false → b ≤ a
ltb-false h = ground arith

module _ (fl : Floats) (self : NodeAllocator fl) where
  -- The sort that `allocate` cuts.
  abbrev by_score : List Node → List Node
  by_score = sort_desc (score_lt fl self)

  -- With enough nodes the result is the front of the sorted list.
  pub allocate-take :
      (available : List Node) (n : ℕ)
      → n ≤ length available
      → allocate fl self available (pos n) ≡ take n (by_score available)
  unfolding allocate slice_to
  allocate-take available n h = ground arith

  -- A negative request is never too large, and is cut from the end.
  allocate_negative :
      (available : List Node) (n : ℕ)
      → allocate fl self available (negsuc n)
        ≡ take (length (by_score available) - suc n) (by_score available)
  unfolding allocate slice_to
  allocate_negative available n = ground arith

  -- The number of nodes that is returned: none where there are too few, as many as were asked for
  -- otherwise, and for a negative request -k all but k.
  pub length-allocate :
      (available : List Node) (required : ℤ)
      → length (allocate fl self available required) ≡ chosen_count (length available) required
  length-allocate available (pos n) = elim (Bool-cases (ltb (length available) n)) [
    | inl few ↦ unfold allocate in ground arith
    | inr enough ↦
        rw (allocate-take available n (omega (arith, ltb-false enough)), enough)
          (omega (
            arith,
            ltb-false enough,
            length-take n (by_score available),
            length-sort_desc (score_lt fl self) available,
          ))
  ]
  length-allocate available (negsuc n) = rw (allocate_negative available n) (
      omega (
        arith,
        length-take (length (by_score available) - suc n) (by_score available),
        length-sort_desc (score_lt fl self) available,
      ))

module _ (fl : Floats) (ordered : IsOrdered fl) (self : NodeAllocator fl) where
  score_lt-asym : (a b : Node) → score_lt fl self a b ≡ true → score_lt fl self b a ≡ false
  unfolding score_lt
  score_lt-asym a b h = ordered.asym _ _ h

  score_lt-step :
      (a b c : Node)
      → score_lt fl self a b ≡ false
      → score_lt fl self b c ≡ false
      → score_lt fl self a c ≡ false
  unfolding score_lt
  score_lt-step a b c h k = ordered.not_less_trans _ _ _ h k

  by_score-IsDesc : (l : List Node) → IsDesc (score_lt fl self) (by_score fl self l)
  by_score-IsDesc = sort_desc-IsDesc (score_lt fl self) score_lt-asym score_lt-step

  -- With enough nodes, and floats that `<` orders, `allocate` splits them into the chosen ones and a
  -- rest, and no node of the rest has a higher score than a chosen one.
  pub allocate_best :
      (available : List Node) (n : ℕ)
      → n ≤ length available
      → (rest : List Node) × Perm (allocate fl self available (pos n) ++ rest) available
        × All
            (λ c. All (λ r. score_lt fl self c r ≡ false) rest)
            (allocate fl self available (pos n))
  allocate_best available n h =
      let sorted = by_score fl self available in
      let split = take-append-drop n sorted in
      (
        drop n sorted,
        rw (allocate-take fl self available n h, split)
            (sort_desc-perm (score_lt fl self) available),
        rw (allocate-take fl self available n h) (
            IsDesc-append (score_lt fl self) (take n sorted) (drop n sorted)
              (rw split (by_score-IsDesc available))),
      )

-- A slice of a list is taken from the list.
In-slice_to : (z : ℤ) (nodes : List Node) (n : Node) → In n (slice_to z nodes) → In n nodes
unfolding slice_to
In-slice_to (pos k) nodes n h = In-take n k nodes h
In-slice_to (negsuc k) nodes n h = In-take n (length nodes - suc k) nodes h

-- Only available nodes are chosen.
pub In-allocate :
    (fl : Floats) (self : NodeAllocator fl) (available : List Node) (required : ℤ) (n : Node)
    → In n (allocate fl self available required)
    → In n available
unfolding allocate
In-allocate fl self available required n m = go (int_ltb (pos (length available)) required) m
  where
    sorted : List Node
    sorted = sort_desc (score_lt fl self) available

    go : (b : Bool) → In n (if b then [] else slice_to required sorted) → In n available
    go true k = elim k [ ]
    go false k = In-sort_desc (score_lt fl self) n available (In-slice_to required sorted n k)
