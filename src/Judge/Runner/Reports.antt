-- ===== src/Judge/Runner/Reports.antt =====
-- The verdict of `runBinary` (backend/src/judge/runner.cpp) on a child that was waited for, and the memory
-- test behind it.
use oj_vibe_coding.Base.{
  ℕ, ◌*◌, ◌≤◌, ◌<◌, ◌≡◌, refl, sym, ap, ◌∙◌, ◌≢◌, ◌↔◌, ◌⊎◌, inl, inr, Bool, true, false, Option,
  none, some, arith, ltb, ◌==◌, ==_iff, Bool-cases,
}
use oj_vibe_coding.Judge.Runner.{
  RunStatus, run_ok, timeout, memory_limit, runtime_error, spawn_error, RunRequest, RunResult,
  WaitStatus, exited, signaled, stopped, Waited, memory_in_mb, Host, classify, conclude,
}
use oj_vibe_coding.Base.{
  ℕ, ◌*◌, ◌≤◌, ◌<◌, ◌≡◌, refl, sym, ap, ◌∙◌, ◌≢◌, ◌↔◌, ◌⊎◌, inl, inr, Bool, true, false, Option,
  none, some, arith, ltb, ◌==◌, ==_iff, Bool-cases,
}
use oj_vibe_coding.Text.{Bytes}

-- `rssExceeded` of the source.
abbrev pub rss_exceeded : RunRequest → Host → Bool
rss_exceeded request host = ltb request.memory_limit_bytes (memory_in_mb host.max_rss * 1024 * 1024)

-- For a limit of whole megabytes, and a reading that fits 32 bits of megabytes, the test on the
-- rounded reading is the exact one: the peak in kilobytes is above the limit.
pub rss_exceeded_iff :
    (request : RunRequest) (host : Host) (megabytes : ℕ)
    → request.memory_limit_bytes ≡ megabytes * 1024 * 1024
    → host.max_rss ≤ 4_398_046_510_080
    → (rss_exceeded request host ≡ true) ↔ (megabytes * 1024 < host.max_rss)
unfolding memory_in_mb
rss_exceeded_iff request host megabytes limit fits = ground arith

-- Which ending of the child is reported as which status.
abbrev pub Reports : RunStatus → Bool → Waited → Type 0
Reports run_ok over w =
    (w.killed_by_timeout ≡ false) × (over ≡ false) × (w.status ≡ some (exited 0))
Reports timeout over w = w.killed_by_timeout ≡ true
Reports memory_limit over w =
    (w.killed_by_timeout ≡ false)
    × (over ≡ true)
    × (((code : ℕ) × (w.status ≡ some (exited code)))
        ⊎ ((number : ℕ) × (w.status ≡ some (signaled number))))
Reports runtime_error over w =
    (w.killed_by_timeout ≡ false)
    × (((code : ℕ) × (over ≡ false) × (code ≢ 0) × (w.status ≡ some (exited code)))
        ⊎ ((number : ℕ) × (over ≡ false) × (w.status ≡ some (signaled number)))
        ⊎ (w.status ≡ some stopped)
        ⊎ (w.status ≡ none))
Reports spawn_error over w = ⊥

classify-Reports :
    (r : RunResult) (over sent : Bool) (st : Option WaitStatus)
    → Reports
        (classify r over st).status
        over
        (record { killed_by_timeout = false; kill_sent = sent; status = st })
unfolding classify
classify-Reports r true sent (some (exited code)) = (refl, refl, inl (code, refl))
classify-Reports r false sent (some (exited code)) = elim (Bool-cases (code == 0)) [
  | inl zero_code ↦
      rw (zero_code, classify) (refl, refl, ap (λ c. some (exited c)) ((==_iff code 0).0 zero_code))
  | inr failed ↦
      rw (failed, classify)
        (refl, inl (code, refl, (λ e. cc (sym failed ∙ (==_iff code 0).1 e)), refl))
]
classify-Reports r true sent (some (signaled number)) = (refl, refl, inr (number, refl))
classify-Reports r false sent (some (signaled number)) = (refl, inr (inl (number, refl, refl)))
classify-Reports r over sent (some stopped) = (refl, inr (inr (inl refl)))
classify-Reports r over sent none = (refl, inr (inr (inr refl)))

pub conclude-Reports :
    (request : RunRequest) (host : Host) (w : Waited) (out errors : Bytes)
    → Reports (conclude request host w out errors).status (rss_exceeded request host) w
unfolding conclude
conclude-Reports request host w out errors = elim (Bool-cases w.killed_by_timeout) [
  | inl killed ↦ rw (killed, conclude) refl
  | inr ended ↦
      rw (ended, conclude) (classify-Reports _ (rss_exceeded request host) w.kill_sent w.status)
]

pub conclude-outputs :
    (request : RunRequest) (host : Host) (w : Waited) (out errors : Bytes)
    → ((conclude request host w out errors).stdout_output ≡ out)
      × ((conclude request host w out errors).stderr_output ≡ errors)
unfolding conclude classify
conclude-outputs request host w out errors = (ground arith, ground arith)
