-- ===== src/Agent/Backoff.antt =====
-- dmlf/agent/agent.py: the delays of the loop of `start` between two streams.
use Prim.Native.Nat.{min}
use native.Mathlib.Nat.{pow-suc}
use distributed_ml_training.Base.{ℕ, zero, suc, ◌*◌, ◌≤◌, ◌≡◌, arith}
use Prim.Native.Nat.{◌^◌}

-- The value of `backoff` before the n-th sleep.
unfoldable pub backoff : (base cap : ℕ) → ℕ → ℕ
backoff base cap zero = base
backoff base cap (suc n) = min (backoff base cap n * 2) cap

-- From a base that is at most the cap, the delay doubles up to the cap, and is never reset.
pub backoff_lem : (base cap n : ℕ) → base ≤ cap → backoff base cap n ≡ min (base * 2 ^ n) cap
unfolding backoff
backoff_lem base cap zero h = omega arith
backoff_lem base cap (suc n) h = rw (backoff_lem base cap n h, pow-suc) (omega arith)
