-- ===== src/Judge/WorkerPool/Progress.antt =====
-- Shutting the worker pool down (backend/src/judge/worker_pool.cpp) comes to an end.
use oj_vibe_coding.Base.{ℕ, suc, ◌+◌, ◌*◌, ◌≤◌, ◌≡◌, true, List, length}
use oj_vibe_coding.Base.Result.{ok}
use oj_vibe_coding.Judge.WorkerPool.{State, Work, submit, shutdown}

module _ {A : Type 0} where
  -- The steps of the workers that are still to come, at most.
  abbrev pub work_left : State A → ℕ
  work_left s = 3 * length s.tasks + 2 * length s.running + s.waiting

  -- `n` steps of the workers, with any calls of `submit` and `shutdown` in between.
  pub data Run (s : State A) : ℕ → State A → Type 0 where
    idle : Run s 0 s
    then_work : {n : ℕ} {t u : State A} → Run s n t → Work t u → Run s (suc n) u
    then_submit : {n : ℕ} {t u : State A} (task : A) → Run s n t → submit task t ≡ ok u → Run s n u
    then_shutdown : {n : ℕ} {t : State A} → Run s n t → Run s n (shutdown t).0

  -- What a run of a pool that is stopping keeps.
  abbrev Keeps : State A → ℕ → State A → Type 0
  Keeps s n t = (t.stopping ≡ true) × (t.accepted ≡ s.accepted) × (n + work_left t ≤ work_left s)
