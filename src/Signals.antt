-- ===== src/Signals.antt =====
-- backend/src/util/signal.hpp and signal.cpp: the thread in `waitForShutdown`, the signals that
-- interrupt it, and the hooks it runs then. A hook is a function over the world `W` that it changes; it
-- may throw what stands below std::exception.
pub mod Waiting
mod Tests
use oj_vibe_coding.Base.{
  ℕ, suc, ◌+◌, ◌≡◌, Bool, true, false, ◌||◌, List, [], ◌∷◌, ◌++◌, if◌then◌else◌,
}
use oj_vibe_coding.Base.Result.{what, Result, ok, err}
use oj_vibe_coding.Text.{Bytes, bytes}

-- Where the waiting thread is. `g_cv.wait(lock, ready)` is `while (!ready()) g_cv.wait(lock)`: it tests,
-- and where the test fails it enters the wait, in which it sleeps until it is woken.
pub data Phase : Type 0 where
  testing entering asleep draining : Phase

-- `armed` says that `g_stopping_ptr` points at the guard's flag.
pub record State : Type 0 where
  pub armed : Bool
  pub stopping : Bool
  pub phase : Phase

-- The state behind the constructor of `SignalGuard`, with the thread that calls `waitForShutdown` next.
abbrev pub guarding : State
guarding = record { armed = true; stopping = false; phase = testing }

unfoldable pub disarm : State → State
disarm s = record s { armed = false }

-- `g_cv.notify_all()` wakes a thread that sleeps, and no other.
unfoldable pub notify_all : Phase → Phase
notify_all asleep = testing
notify_all testing = testing
notify_all entering = entering
notify_all draining = draining

-- The handler takes no lock, so it may run at any point of the other thread.
unfoldable pub on_signal : State → State
unfolding notify_all
on_signal s = record s { stopping = s.armed || s.stopping; phase = notify_all s.phase }

-- The next step of the waiting thread by itself.
unfoldable pub advance_from : Phase → State → State
advance_from testing s =
    if s.stopping then record s { phase = draining } else record s { phase = entering }
advance_from entering s = record s { phase = asleep }
advance_from asleep s = s
advance_from draining s = s

unfoldable pub advance : State → State
advance s = advance_from s.phase s

-- The states that a guarded thread may be in after this many signals.
pub data Reach : ℕ → State → Type 0 where
  begins : Reach 0 guarding
  advances : {n : ℕ} {s : State} → Reach n s → Reach n (advance s)
  wakes :
      {n : ℕ} {s : State} → Reach n s → s.phase ≡ asleep → Reach n (record s { phase = testing })
  interrupts : {n : ℕ} {s : State} → Reach n s → Reach (suc n) (on_signal s)

abbrev pub Hook : Type 0 → Type 0
Hook W = W → Result (Unit {0}) × W

unfoldable pub register_hook : {W : Type 0} → List (Hook W) → Hook W → List (Hook W)
register_hook hooks hook = hooks ++ (hook ∷ [])

unfoldable pub failure : Result (Unit {0}) → Bytes
failure (ok done) = []
failure (err e) = bytes "shutdown hook failed: " ++ what e ++ (10 ∷ [])

-- The loop over the hooks: the world behind them, and what is written to the error stream.
unfoldable pub run_hooks : {W : Type 0} → List (Hook W) → W → W × Bytes
run_hooks [] w = (w, [])
run_hooks (hook ∷ hooks) w =
    let (out, w') = hook w in
    let (final, lines) = run_hooks hooks w' in (final, failure out ++ lines)

-- What `waitForShutdown` does behind the wait.
unfoldable pub drain : {W : Type 0} → List (Hook W) → W → W × Bytes
drain hooks w =
    let (final, lines) = run_hooks hooks w in
    (final, bytes "shutdown signal received, draining hooks..." ++ (10 ∷ []) ++ lines)
