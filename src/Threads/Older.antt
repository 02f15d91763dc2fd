-- ===== src/Threads/Older.antt =====
-- dmlf/manager/scheduler.py: start, stop and the loop of the older `Scheduler`.
--
-- The loop looks at `running` before it sleeps only, and `start` does not look for a thread that is
-- alive. A step is a call of `start`, the first part of `stop`, or the end of the sleep of one of the
-- threads with the round behind it and the test of the loop.
use distributed_ml_training.Base.{
  ℕ, zero, suc, ◌+◌, ◌≡◌, ◌≢◌, refl, ap, ◌∙◌, Bool, true, false, List, [], ◌∷◌, All, arith,
  if◌then◌else◌,
}

pub data OlderStep : Type 0 where
  start stop wake : OlderStep

-- `running`, the number of threads that sleep in the loop, and the number of rounds that were run.
pub record OlderScheduler : Type 0 where
  pub running : Bool
  pub sleeping : ℕ
  pub rounds : ℕ

unfoldable pub wake_older : (sleeping : ℕ) → OlderScheduler → OlderScheduler
wake_older zero s = s
wake_older (suc k) s = record s { sleeping = if s.running then suc k else k; rounds = suc s.rounds }

unfoldable pub older_step : OlderStep → OlderScheduler → OlderScheduler
unfolding wake_older
older_step start s = record s { running = true; sleeping = suc s.sleeping }
older_step stop s = record s { running = false }
older_step wake s = wake_older s.sleeping s

unfoldable pub older_run : List OlderStep → OlderScheduler → OlderScheduler
unfolding older_step
older_run [] s = s
older_run (e ∷ es) s = older_run es (older_step e s)

wake_older-stopped :
    (k : ℕ) (s : OlderScheduler)
    → k ≡ s.sleeping
    → s.running ≡ false
    → ((wake_older k s).running ≡ false)
      × ((wake_older k s).rounds + (wake_older k s).sleeping ≡ s.rounds + s.sleeping)
unfolding wake_older
wake_older-stopped zero s e h = (h, refl)
wake_older-stopped (suc k) s e h =
    (h, ap (λ (b : Bool). suc s.rounds + (if b then suc k else k)) h ∙ omega (arith, e))

-- Every thread that sleeps at a stop runs one more round, and no thread runs more than that: of
-- steps without a start after it, the rounds and the threads that still sleep are as many as before.
pub older_stop-rounds :
    (es : List OlderStep) (s : OlderScheduler)
    → All (λ s. s ≢ start) es
    → (older_run es (older_step stop s)).rounds + (older_run es (older_step stop s)).sleeping
      ≡ s.rounds + s.sleeping
unfolding older_run older_step
older_stop-rounds es s h = go es (record s { running = false }) h refl
  where
    go :
        (ts : List OlderStep) (u : OlderScheduler)
        → All (λ s. s ≢ start) ts
        → u.running ≡ false
        → (older_run ts u).rounds + (older_run ts u).sleeping ≡ u.rounds + u.sleeping
    go [] u k stopped = refl
    go (start ∷ ts) u k stopped = absurd (k.0 refl)
    go (stop ∷ ts) u k stopped = go ts (record u { running = false }) k.1 refl
    go (wake ∷ ts) u k stopped =
        let (still, same) = wake_older-stopped u.sleeping u refl stopped in
        go ts (wake_older u.sleeping u) k.1 still ∙ same
