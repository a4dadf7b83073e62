-- ===== src/Signals/Tests.antt =====
-- A signal that comes while the thread sleeps, one that comes too early, and two hooks.
use oj_vibe_coding.Base.{ℕ, ◌+◌, ◌*◌, ◌≡◌, refl, [], ◌∷◌}
use oj_vibe_coding.Base.Result.{other, ok, err}
use oj_vibe_coding.Text.{bytes}
use oj_vibe_coding.Signals.{
  asleep, State, guarding, notify_all, on_signal, advance_from, advance, begins, advances,
  register_hook, run_hooks, drain,
}
use oj_vibe_coding.Signals.Waiting.{Notices, first_signal_iff}

abbrev sleeping : State
sleeping = advance (advance guarding)

early_signal : (advance (advance (on_signal (advance guarding)))).phase ≡ asleep
unfolding advance advance_from on_signal notify_all
early_signal = refl

first_signal_iff_example : Notices sleeping
first_signal_iff_example = first_signal_iff sleeping (advances (advances begins))

-- The second hook runs although the first one throws.
hooks_test :
    (drain
      (register_hook ((λ (n : ℕ). (err (other (bytes "x")), n + 1)) ∷ []) (λ n. (ok tt, n * 2)))
      5).0
    ≡ 12
unfolding drain run_hooks register_hook bytes
hooks_test = refl
