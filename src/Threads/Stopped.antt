-- ===== src/Threads/Stopped.antt =====
-- dmlf/manager/schedulers/base.py and dmlf/autoscaler/policy.py: what follows a `stop`.
use distributed_ml_training.Base.{
  ℕ, suc, ◌-◌, ◌≡◌, ◌≢◌, refl, sym, subst, ◌∙◌, Bool, true, List, [], ◌∷◌, arith,
}
use distributed_ml_training.Threads.{
  Background, Place, ended, at_head, asleep, in_round, ThreadStep, start, stop, advance,
  start_thread, stop_thread, advance_thread, thread_step, thread_run,
}

-- Every start among the steps finds the old thread alive.
abbrev pub NoRestart : List ThreadStep → Background → Type 0
NoRestart [] b = Unit
NoRestart (start ∷ ss) b = (b.place ≢ ended) × NoRestart ss (thread_step start b)
NoRestart (stop ∷ ss) b = NoRestart ss (thread_step stop b)
NoRestart (advance ∷ ss) b = NoRestart ss (thread_step advance b)

-- The steps of a thread to its end, once the flag is set: a round in progress comes to its own end.
abbrev pub steps_left : Place → ℕ
steps_left ended = 0
steps_left at_head = 1
steps_left asleep = 1
steps_left in_round = 2

abbrev pub advances : List ThreadStep → ℕ
advances [] = 0
advances (advance ∷ ss) = suc (advances ss)
advances (start ∷ ss) = advances ss
advances (stop ∷ ss) = advances ss

-- A start of a living thread does nothing.
start_thread-living : (b : Background) → b.place ≢ ended → start_thread b ≡ b
unfolding start_thread
start_thread-living b living = go b.place living
  where
    go : (p : Place) → p ≢ ended → start_thread (record b { place = p }) ≡ record b { place = p }
    go ended h = absurd (h refl)
    go at_head h = refl
    go asleep h = refl
    go in_round h = refl

-- A step of a thread with the flag begins no round and is one less to its end.
advance_thread-stopped :
    (b : Background)
    → b.stop_set ≡ true
    → ((advance_thread b).stop_set ≡ true)
      × ((advance_thread b).rounds ≡ b.rounds)
      × (steps_left (advance_thread b).place ≡ steps_left b.place - 1)
unfolding advance_thread
advance_thread-stopped b stopped =
    subst (λ (f : Bool). Nearer (record b { stop_set = f })) (sym stopped) (go b.place)
  where
    Nearer : Background → Type 0
    Nearer x =
        ((advance_thread x).stop_set ≡ true)
        × ((advance_thread x).rounds ≡ x.rounds)
        × (steps_left (advance_thread x).place ≡ steps_left x.place - 1)

    go : (p : Place) → Nearer (record b { stop_set = true; place = p })
    go ended = (refl, refl, refl)
    go at_head = (refl, refl, refl)
    go asleep = (refl, refl, refl)
    go in_round = (refl, refl, refl)

thread_run-stopped :
    (ss : List ThreadStep) (b : Background)
    → b.stop_set ≡ true
    → NoRestart ss b
    → ((thread_run ss b).rounds ≡ b.rounds)
      × (steps_left (thread_run ss b).place ≡ steps_left b.place - advances ss)
unfolding thread_run thread_step
thread_run-stopped [] b stopped h = (refl, omega arith)
thread_run-stopped (start ∷ ss) b stopped h =
    let same = start_thread-living b h.0 in
    let rest : NoRestart ss b = subst (λ (x : Background). NoRestart ss x) same h.1 in
    subst
      (λ (x : Background).
        ((thread_run ss x).rounds ≡ b.rounds)
        × (steps_left (thread_run ss x).place ≡ steps_left b.place - advances ss))
      (sym same) (thread_run-stopped ss b stopped rest)
thread_run-stopped (stop ∷ ss) b stopped h = thread_run-stopped ss (stop_thread b) refl h
thread_run-stopped (advance ∷ ss) b stopped h =
    let (still, same, left) = advance_thread-stopped b stopped in
    let (rounds, place) = thread_run-stopped ss (advance_thread b) still h in
    (rounds ∙ same, omega (arith, left, place))

-- After a stop, wherever the thread is, no round begins until a start that comes after the thread has
-- ended, whatever starts and stops come before that; and the thread comes a step nearer to its end
-- with every step that it makes, and ends with the second one at the latest.
pub stop-no_rounds :
    (ss : List ThreadStep) (b : Background)
    → NoRestart ss (thread_step stop b)
    → ((thread_run ss (thread_step stop b)).rounds ≡ b.rounds)
      × (steps_left (thread_run ss (thread_step stop b)).place ≡ steps_left b.place - advances ss)
unfolding thread_step
stop-no_rounds ss b h = thread_run-stopped ss (stop_thread b) refl h
