-- ===== src/Signals/Waiting.antt =====
-- Which signals `waitForShutdown` of backend/src/util/signal.cpp notices.
use oj_vibe_coding.Base.{ℕ, ◌≡◌, refl, ◌≢◌, ◌↔◌, true, false, arith}
use oj_vibe_coding.Signals.{
  Phase, testing, entering, asleep, draining, State, notify_all, on_signal, advance_from, advance,
  Reach, begins, advances, interrupts, wakes,
}

record IsUnsignaled (s : State) : Type 0 where
  on : s.armed ≡ true
  still : s.stopping ≡ false
  waits : s.phase ≢ draining

advance_from-IsUnsignaled :
    (s : State) (p : Phase) → IsUnsignaled s → IsUnsignaled (advance_from p s)
unfolding advance_from
advance_from-IsUnsignaled s testing u =
    rw u.still (record { on = u.on; still = refl; waits = λ d. cc d })
advance_from-IsUnsignaled s entering u = record { on = u.on; still = u.still; waits = λ d. cc d }
advance_from-IsUnsignaled s asleep u = u
advance_from-IsUnsignaled s draining u = u

advance-IsUnsignaled : (s : State) → IsUnsignaled s → IsUnsignaled (advance s)
unfolding advance
advance-IsUnsignaled s u = advance_from-IsUnsignaled s s.phase u

Reach-IsUnsignaled : {n : ℕ} {s : State} → Reach n s → n ≡ 0 → IsUnsignaled s
Reach-IsUnsignaled begins z = record { on = refl; still = refl; waits = λ d. cc d }
Reach-IsUnsignaled (advances r) z = advance-IsUnsignaled _ (Reach-IsUnsignaled r z)
Reach-IsUnsignaled (wakes r e) z =
    let u = Reach-IsUnsignaled r z in record { on = u.on; still = u.still; waits = λ d. cc d }
Reach-IsUnsignaled (interrupts r) z = absurd (omega (arith, z))

-- Where the first signal leaves the waiting thread after two further steps of its own.
abbrev pub Notices : State → Type 0
Notices s =
    let after = advance (advance (on_signal s)) in
    (after.stopping ≡ true)
    × ((after.phase ≡ draining) ↔ (s.phase ≢ entering))
    × ((after.phase ≡ asleep) ↔ (s.phase ≡ entering))

notices : (s : State) (p : Phase) → IsUnsignaled s → s.phase ≡ p → Notices s
unfolding on_signal advance advance_from notify_all
notices s testing u e = rw (e, u.on) (refl, (λ d h. cc h, λ h. refl), (λ d. cc d, λ h. cc h))
notices s entering u e =
    rw (e, u.on) (refl, (λ d. cc d, λ h. absurd (h refl)), (λ d. refl, λ h. refl))
notices s asleep u e = rw (e, u.on) (refl, (λ d h. cc h, λ h. refl), (λ d. cc d, λ h. cc h))
notices s draining u e = absurd (u.waits e)

-- After the first signal and two further steps of the waiting thread, the flag is set, and the thread
-- runs the hooks exactly if the signal did not come between the test of the flag and the wait; if it came
-- there, and only then, the thread is asleep.
pub first_signal_iff : (s : State) → Reach 0 s → Notices s
first_signal_iff s r = notices s s.phase (Reach-IsUnsignaled r refl) refl
