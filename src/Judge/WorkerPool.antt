-- ===== src/Judge/WorkerPool.antt =====
-- backend/src/judge/worker_pool.hpp and worker_pool.cpp. A task is a value; the threads are counted
-- by what they do, and every critical section under the mutex is one step. An exception of a task is
-- swallowed by its worker, so a task that throws ends like any other.
pub mod Drain
pub mod Progress
mod Tests
use oj_vibe_coding.Base.{
  ℕ, ◌+◌, ◌-◌, ◌<◌, ◌≡◌, Bool, true, false, not, ◌||◌, Option, none, some, List, [], ◌∷◌, ◌++◌,
  ◌==◌, if◌then◌else◌, length, is_empty,
}
use oj_vibe_coding.Base.Result.{invalid_argument, other, Result, ok, err}
use oj_vibe_coding.Text.{bytes}

-- `waiting` workers stand at the condition variable or are on their way to it, `running` is what
-- the busy ones run, `exited` have left `workerLoop`. `accepted` and `started` are the history: the
-- tasks that `submit` took, and those that workers took, in order.
pub record State (A : Type 0) : Type 0 where
  pub worker_count : ℕ
  pub tasks : List A
  pub stopping : Bool
  pub waiting : ℕ
  pub running : List A
  pub exited : ℕ
  pub finished : List A
  pub accepted : List A
  pub started : List A

module _ {A : Type 0} where
  -- The constructor.
  unfoldable pub make_pool : ℕ → Result (State A)
  make_pool worker_count =
      if worker_count == 0
      then err (invalid_argument (bytes "worker count must be greater than 0"))
      else ok (record {
        worker_count = worker_count;
        tasks = [];
        stopping = false;
        waiting = worker_count;
        running = [];
        exited = 0;
        finished = [];
        accepted = [];
        started = [];
      })

  unfoldable pub submit : A → State A → Result (State A)
  submit task s =
      if s.stopping
      then err (other (bytes "worker pool is shutting down"))
      else ok (record s { tasks = s.tasks ++ (task ∷ []); accepted = s.accepted ++ (task ∷ []) })

  -- The critical section of `shutdown`. The caller that finds the flag down goes on to join.
  unfoldable pub shutdown : State A → State A × Bool
  shutdown s = if s.stopping then (s, false) else (record s { stopping = true }, true)

  -- `shutdown` returns from its joins when every worker has left its loop.
  abbrev pub IsJoined : State A → Type 0
  IsJoined s = s.exited ≡ s.worker_count

  unfoldable pub pending : State A → ℕ
  pending s = length s.tasks

  pub take_front : List A → State A → State A
  take_front [] s = record s { waiting = s.waiting - 1; exited = s.exited + 1 }
  take_front (task ∷ rest) s = record s {
    tasks = rest;
    waiting = s.waiting - 1;
    running = task ∷ s.running;
    started = s.started ++ (task ∷ []);
  }

  -- The critical section of `workerLoop`, entered by a waiting worker: `none` goes on waiting.
  unfoldable pub wake : State A → Option (State A)
  unfolding take_front
  wake s = if s.stopping || not (is_empty s.tasks) then some (take_front s.tasks s) else none

  -- A worker is through with a task, and is back at the head of its loop.
  abbrev finish_task : A → List A → State A → State A
  finish_task task others s = record s {
    waiting = s.waiting + 1;
    running = others;
    finished = task ∷ s.finished;
  }

  -- What the workers do by themselves.
  pub data Work (s : State A) (t : State A) : Type 0 where
    wakes : 0 < s.waiting → wake s ≡ some t → Work s t
    finishes :
        (xs : List A) (task : A) (ys : List A)
        → s.running ≡ xs ++ (task ∷ ys)
        → t ≡ finish_task task (xs ++ ys) s
        → Work s t

  pub data Step (s : State A) (t : State A) : Type 0 where
    works : Work s t → Step s t
    submits : (task : A) → submit task s ≡ ok t → Step s t
    shuts_down : t ≡ (shutdown s).0 → Step s t

  -- The states that a pool of `n` workers can reach, and those behind a given state.
  pub data Reach (s : State A) : State A → Type 0 where
    here : Reach s s
    step : {t u : State A} → Reach s t → Step t u → Reach s u
