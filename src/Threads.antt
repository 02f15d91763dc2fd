-- ===== src/Threads.antt =====
-- dmlf/manager/schedulers/base.py and dmlf/autoscaler/policy.py: `start`, `stop` and the loop of the
-- background thread, which are the same code in both.
--
-- A step is a call of `start` or `stop`, or a step of the thread: the test at the head of the loop,
-- the end of the sleep with the test behind it, or the end of a round. `stop` waits for the thread
-- for five seconds; how far the thread comes in that time is the order of the steps.
pub mod Stopped
pub mod Older
use distributed_ml_training.Base.{ℕ, suc, Bool, true, false, List, [], ◌∷◌, if◌then◌else◌}

-- Where `_thread` is: none that is alive, before the test of `while`, in the sleep, or in a round.
pub data Place : Type 0 where
  ended at_head asleep in_round : Place

-- The flag `_stop`, the thread, and the number of rounds that have begun.
pub record Background : Type 0 where
  pub stop_set : Bool
  pub place : Place
  pub rounds : ℕ

-- `__init__`
abbrev pub new_background : Background
new_background = record { stop_set = false; place = ended; rounds = 0 }

pub data ThreadStep : Type 0 where
  start stop advance : ThreadStep

unfoldable pub start_thread : Background → Background
start_thread b = elim b.place [
  | ended ↦ record b { stop_set = false; place = at_head }
  | at_head ↦ b
  | asleep ↦ b
  | in_round ↦ b
]

abbrev pub stop_thread : Background → Background
stop_thread b = record b { stop_set = true }

-- `_scheduler_loop`, `_run_loop`
unfoldable pub advance_thread : Background → Background
advance_thread b = elim b.place [
  | ended ↦ b
  | at_head ↦ record b { place = if b.stop_set then ended else asleep }
  | asleep ↦
      if b.stop_set
      then record b { place = ended }
      else record b { place = in_round; rounds = suc b.rounds }
  | in_round ↦ record b { place = at_head }
]

unfoldable pub thread_step : ThreadStep → Background → Background
unfolding start_thread advance_thread
thread_step start b = start_thread b
thread_step stop b = stop_thread b
thread_step advance b = advance_thread b

unfoldable pub thread_run : List ThreadStep → Background → Background
unfolding thread_step
thread_run [] b = b
thread_run (s ∷ ss) b = thread_run ss (thread_step s b)
