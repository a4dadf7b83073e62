-- ===== src/Db/Tests.antt =====
-- Runs of the connection pool's model.
use mathlib.Core.List.{Perm}
use oj_vibe_coding.Base.{
  ℕ, ◌+◌, ◌≤◌, ◌≡◌, refl, true, false, not, ◌||◌, List, [], ◌∷◌, length, is_empty,
}
use oj_vibe_coding.Base.Result.{Exception, ok, err}
use oj_vibe_coding.Text.{bytes}
use oj_vibe_coding.Db.Pool.{
  Calls, State, create_connection, ensure_healthy, acquire, finish_acquire, capacity, idle_count,
  in_use_count, and_then, open_loop, ended, make_pool, acquires, Reach, here, step, settles,
}
use oj_vibe_coding.Db.Pool.Invariant.{all_made, everywhere}
use oj_vibe_coding.Db.Pool.Conserved.{Reach-conserved}
use oj_vibe_coding.Db.Pool.Shrinking.{acquire-exhausted}

abbrev healthy : Calls
healthy = record { pings = true; initialises = true; connects = true; error = [] }

-- The server is gone.
abbrev dead : Calls
dead = record { pings = false; initialises = true; connects = false; error = bytes "gone away" }

abbrev stage : List ℕ → ℕ → List ℕ → List ℕ → ℕ → List ℕ → State
stage idle in_use checking leases made closed = record {
  pool_size = 2;
  idle = idle;
  in_use = in_use;
  stopping = false;
  checking = checking;
  leases = leases;
  made = made;
  closed = closed;
}

abbrev filled : State
filled = stage (0 ∷ 1 ∷ []) 0 [] [] 2 []

filled-made : make_pool true (healthy ∷ healthy ∷ []) ≡ (ok tt, filled)
unfolding make_pool open_loop and_then create_connection ended
filled-made = refl

abbrev one_checked : State
one_checked = stage (1 ∷ []) 1 (0 ∷ []) [] 2 []

abbrev one_lost : State
one_lost = stage (1 ∷ []) 0 [] [] 3 (2 ∷ 0 ∷ [])

abbrev other_checked : State
other_checked = stage [] 1 (1 ∷ []) [] 3 (2 ∷ 0 ∷ [])

abbrev both_lost : State
both_lost = stage [] 0 [] [] 4 (3 ∷ 1 ∷ 2 ∷ 0 ∷ [])

acquires_one : acquire filled ≡ ok one_checked
unfolding acquire
acquires_one = refl

loses_one : one_lost ≡ finish_acquire dead 0 [] one_checked
unfolding finish_acquire ensure_healthy create_connection
loses_one = refl

acquires_other : acquire one_lost ≡ ok other_checked
unfolding acquire
acquires_other = refl

loses_other : both_lost ≡ finish_acquire dead 1 [] other_checked
unfolding finish_acquire ensure_healthy create_connection
loses_other = refl

both_lost-Reach : Reach filled both_lost
both_lost-Reach =
    step
      (step (step (step here (acquires acquires_one)) (settles [] 0 [] dead refl loses_one))
        (acquires acquires_other))
      (settles [] 1 [] dead refl loses_other)

Reach-conserved_example :
    Perm (all_made 4) (everywhere both_lost)
    × (in_use_count both_lost ≡ length both_lost.checking + length both_lost.leases)
    × (idle_count both_lost + in_use_count both_lost ≤ capacity both_lost)
    × (not both_lost.stopping || is_empty both_lost.idle ≡ true)
Reach-conserved_example =
    Reach-conserved (healthy ∷ healthy ∷ []) filled both_lost filled-made both_lost-Reach

acquire-exhausted_example : (e : Exception) × (acquire both_lost ≡ err e)
unfolding idle_count in_use_count
acquire-exhausted_example =
    acquire-exhausted (healthy ∷ healthy ∷ []) filled both_lost both_lost filled-made
      both_lost-Reach refl refl here
