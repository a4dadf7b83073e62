-- ===== src/Judge/WorkerPool/Tests.antt =====
-- A worker pool from its start to the end of its shutdown.
use mathlib.Core.List.{Perm}
use oj_vibe_coding.Base.{ℕ, ◌≡◌, refl, Bool, true, false, List, [], ◌∷◌, ◌++◌, arith}
use oj_vibe_coding.Base.Result.{ok}
use oj_vibe_coding.Judge.WorkerPool.{
  State, make_pool, submit, shutdown, wake, Work, wakes, works, submits, shuts_down, Reach, here,
  step, finishes,
}
use oj_vibe_coding.Judge.WorkerPool.Drain.{Reach-in_order, Reach-drained}

-- A pool of one worker that runs one task and is shut down.
abbrev stage : List ℕ → Bool → ℕ → List ℕ → ℕ → List ℕ → List ℕ → List ℕ → State ℕ
stage tasks stopping waiting busy_with gone_count finished accepted started = record {
  worker_count = 1;
  tasks = tasks;
  stopping = stopping;
  waiting = waiting;
  running = busy_with;
  exited = gone_count;
  finished = finished;
  accepted = accepted;
  started = started;
}

abbrev staffed : State ℕ
staffed = stage [] false 1 [] 0 [] [] []

abbrev queued : State ℕ
queued = stage (7 ∷ []) false 1 [] 0 [] (7 ∷ []) []

abbrev stopping_queued : State ℕ
stopping_queued = stage (7 ∷ []) true 1 [] 0 [] (7 ∷ []) []

abbrev busy : State ℕ
busy = stage [] true 0 (7 ∷ []) 0 [] (7 ∷ []) (7 ∷ [])

abbrev through : State ℕ
through = stage [] true 1 [] 0 (7 ∷ []) (7 ∷ []) (7 ∷ [])

abbrev joined_pool : State ℕ
joined_pool = stage [] true 0 [] 1 (7 ∷ []) (7 ∷ []) (7 ∷ [])

staffed-made : make_pool 1 ≡ ok staffed
unfolding make_pool
staffed-made = refl

stopping_queued-Reach : Reach staffed stopping_queued
unfolding submit shutdown
stopping_queued-Reach = step (step here (submits 7 refl)) (shuts_down refl)

taken : Work stopping_queued busy
unfolding wake
taken = wakes (omega arith) refl

done : Work busy through
done = finishes [] 7 [] refl refl

left : Work through joined_pool
unfolding wake
left = wakes (omega arith) refl

joined_pool-Reach : Reach staffed joined_pool
joined_pool-Reach = step (step (step stopping_queued-Reach (works taken)) (works done)) (works left)

Reach-drained_example :
    (joined_pool.tasks ≡ [])
    × (joined_pool.running ≡ [])
    × Perm joined_pool.accepted joined_pool.finished
Reach-drained_example = Reach-drained 1 staffed joined_pool staffed-made joined_pool-Reach refl

Reach-in_order_example :
    (joined_pool.accepted ≡ joined_pool.started ++ joined_pool.tasks)
    × Perm joined_pool.started (joined_pool.finished ++ joined_pool.running)
Reach-in_order_example = Reach-in_order 1 staffed joined_pool staffed-made joined_pool-Reach
