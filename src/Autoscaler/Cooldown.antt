-- ===== src/Autoscaler/Cooldown.antt =====
-- dmlf/autoscaler/policy.py: `_run_loop`, and the pause between two requests to scale in.
use distributed_ml_training.Base.{
  ℕ, ◌-◌, ◌<◌, ◌≡◌, sym, subst, ◌⊎◌, Option, none, some, Bool, true, false, List, [], ◌∷◌, arith,
  inl, inr, Bool-cases, if◌then◌else◌,
}
use distributed_ml_training.Floats.{Floats}
use distributed_ml_training.Registry.Schema.{Node, Registry}
use distributed_ml_training.Registry.Nodes.{get_available_nodes, get_all_nodes}
use distributed_ml_training.Autoscaler.Policy.{
  Direction, scale_out, scale_in, Limits, Readings, wants_in, evaluate,
}

module _ (fl : Floats) where
  -- What a round of the loop finds: the time, the gauges and the database, and whether the callback,
  -- if it is called, returns.
  pub record Round : Type 0 where
    pub now : ℕ
    pub readings : Readings fl
    pub registry : Registry
    pub returns : Bool

  -- The rounds by their time, with the call that each makes and whether it returns. `_run_loop`
  -- catches what the callback raises, which `_evaluate` passes on before it notes the time.
  unfoldable pub run_loop : Limits fl → ℕ → List Round → List (ℕ × Option Direction × Bool)
  run_loop s last [] = []
  run_loop s last (r ∷ rs) =
      let e = evaluate fl s r.readings r.now last r.registry in
      (r.now, e.2, r.returns) ∷ run_loop s (if r.returns then e.1 else last) rs

-- The rounds whose callback returns, or is not called.
abbrev pub returned : List (ℕ × Option Direction × Bool) → List (ℕ × Option Direction)
returned [] = []
returned ((t, d, true) ∷ es) = (t, d) ∷ returned es
returned ((t, d, false) ∷ es) = returned es

-- Each request to scale in comes more than `cooldown` after `last` and the one before it.
abbrev pub Spaced : ℕ → ℕ → List (ℕ × Option Direction) → Type 0
Spaced cooldown last [] = Unit
Spaced cooldown last ((t, some scale_in) ∷ es) = (cooldown < t - last) × Spaced cooldown t es
Spaced cooldown last ((t, some scale_out) ∷ es) = Spaced cooldown last es
Spaced cooldown last ((t, none) ∷ es) = Spaced cooldown last es

-- An evaluation asks to scale in, after the cooldown, and notes the time; or it does not ask to,
-- and keeps the time of the last request.
abbrev Asked : (cooldown now last next : ℕ) → Option Direction → Type 0
Asked cooldown now last next o =
    (o ≡ some scale_in) × (next ≡ now) × (cooldown < now - last)
    ⊎ (next ≡ last) × ((o ≡ some scale_out) ⊎ (o ≡ none))

Spaced-cons :
    (cooldown now last next : ℕ) (o : Option Direction) (es : List (ℕ × Option Direction))
    → Asked cooldown now last next o
    → Spaced cooldown next es
    → Spaced cooldown last ((now, o) ∷ es)
Spaced-cons cooldown now last next o es (inl (e, t, h)) s =
    subst (λ (x : Option Direction). Spaced cooldown last ((now, x) ∷ es)) (sym e)
      (h, subst (λ (x : ℕ). Spaced cooldown x es) t s)
Spaced-cons cooldown now last next o es (inr (t, inl e)) s =
    subst (λ (x : Option Direction). Spaced cooldown last ((now, x) ∷ es)) (sym e)
      (subst (λ (x : ℕ). Spaced cooldown x es) t s)
Spaced-cons cooldown now last next o es (inr (t, inr e)) s =
    subst (λ (x : Option Direction). Spaced cooldown last ((now, x) ∷ es)) (sym e)
      (subst (λ (x : ℕ). Spaced cooldown x es) t s)

module _ (fl : Floats) (s : Limits fl) where
  wants_in-cooldown :
      (g : Readings fl) (all : List Node) (now last : ℕ)
      → wants_in fl s g all now last ≡ true
      → s.cooldown < now - last
  unfolding wants_in
  wants_in-cooldown g all now last h = ground arith

  evaluate-Asked :
      (last now : ℕ) (g : Readings fl) (r : Registry)
      → Asked s.cooldown now last (evaluate fl s g now last r).1 (evaluate fl s g now last r).2
  unfolding evaluate
  evaluate-Asked last now g r =
      ground
        (arith, wants_in-cooldown g (get_all_nodes now (get_available_nodes now r).0).1 now last)

  -- In every run of the loop, the requests to scale in whose callback returns are more than the
  -- cooldown apart, whatever calls raise between them, and the first is that long after the time
  -- noted before.
  pub run_loop-Spaced :
      (last : ℕ) (rounds : List (Round fl))
      → Spaced s.cooldown last (returned (run_loop fl s last rounds))
  unfolding run_loop
  run_loop-Spaced last [] = tt
  run_loop-Spaced last (r ∷ rs) = elim (Bool-cases r.returns) [
    | inl e ↦ rw e (
        Spaced-cons s.cooldown r.now last _ _ _ (evaluate-Asked last r.now r.readings r.registry)
          (run_loop-Spaced (evaluate fl s r.readings r.now last r.registry).1 rs))
    | inr e ↦ rw e (run_loop-Spaced last rs)
  ]
