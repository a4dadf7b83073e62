-- ===== src/Judge/Runner/Status.antt =====
-- What `runBinary` (backend/src/judge/runner.cpp) returns, and that it returns.
use oj_vibe_coding.Base.{
  ◌≡◌, refl, sym, ap, ◌∙◌, subst, ◌⊎◌, inl, inr, Bool, true, false, some, Bool-cases, Option-cases,
  is_empty,
}
use oj_vibe_coding.Judge.Runner.{
  spawn_error, RunRequest, RunResult, Waited, wait_loop, wait_fuel, Host, conclude, run_forked,
  watch, collect, run_binary, both_start,
}
use oj_vibe_coding.Judge.Runner.Pipes.{write_all, drain_pipe}
use mathlib.Core.Option.{some-injective}
use oj_vibe_coding.Base.{
  ◌≡◌, refl, sym, ap, ◌∙◌, subst, ◌⊎◌, inl, inr, Bool, true, false, some, Bool-cases, Option-cases,
  is_empty,
}
use oj_vibe_coding.Base.Result.{ok, returned-injective}
use oj_vibe_coding.Judge.Runner.{Readers, second_fails, first_fails}
use oj_vibe_coding.Text.{Bytes}
use oj_vibe_coding.Judge.Runner.Waiting.{Sleeps, wait_loop-total}
use oj_vibe_coding.Judge.Runner.Reports.{rss_exceeded, Reports, conclude-Reports, conclude-outputs}

-- A test in front of the fork fails.
abbrev pub Blocked : RunRequest → Host → Type 0
Blocked request host =
    (is_empty request.binary_path ≡ true)
    ⊎ (host.executable ≡ false)
    ⊎ (host.pipes ≡ false)
    ⊎ (host.forks ≡ false)

-- No call of the run blocks without end, and both threads start.
pub record IsResponsive (request : RunRequest) (host : Host) : Type 0 where
  pub sleeps : Sleeps host.polls
  pub written : (out : Bool × Bytes) × (write_all host.writes request.stdin_content ≡ some out)
  pub started : host.readers ≡ both_start
  pub out_ends : (out : Bytes) × (drain_pipe host.stdout_reads ≡ some out)
  pub errors_end : (errors : Bytes) × (drain_pipe host.stderr_reads ≡ some errors)

-- The input was taken or refused, both threads started, the wait loop ended in this way, both pipes came
-- to their end, the status reports the ending of the loop, and the output is what came through the pipe.
pub record Ran (request : RunRequest) (host : Host) (r : RunResult) : Type 0 where
  pub w : Waited
  pub written : (out : Bool × Bytes) × (write_all host.writes request.stdin_content ≡ some out)
  pub started : host.readers ≡ both_start
  pub waited :
      wait_loop request.time_limit (wait_fuel request.time_limit) host.polls host.reaped 0 ≡ some w
  pub output : drain_pipe host.stdout_reads ≡ some r.stdout_output
  pub errors : drain_pipe host.stderr_reads ≡ some r.stderr_output
  pub reported : Reports r.status (rss_exceeded request host) w

module _ (request : RunRequest) (host : Host) where
  collect-eq-ok :
      (w : Waited) (r : RunResult)
      → collect request host w ≡ some (ok r)
      → (drain_pipe host.stdout_reads ≡ some r.stdout_output)
        × (drain_pipe host.stderr_reads ≡ some r.stderr_output)
        × Reports r.status (rss_exceeded request host) w
  unfolding collect
  collect-eq-ok w r e = elim (Option-cases (drain_pipe host.stdout_reads)) [
    | inl open_ended ↦ cc (rw (collect, open_ended) at e)
    | inr (out, ends) ↦ elim (Option-cases (drain_pipe host.stderr_reads)) [
      | inl open_ended ↦ cc (rw (collect, ends, open_ended) at e)
      | inr (errors, ends_too) ↦
          let same = returned-injective (rw (collect, ends, ends_too) at e) in
          (
            ends
                ∙ ap some (
                    sym (conclude-outputs request host w out errors).0
                    ∙ ap (λ x. x.stdout_output) same),
            ends_too
                ∙ ap some (
                    sym (conclude-outputs request host w out errors).1
                    ∙ ap (λ x. x.stderr_output) same),
            subst (λ x. Reports x.status (rss_exceeded request host) w) same
                (conclude-Reports request host w out errors),
          )
    ]
  ]

  watch-eq-ok :
      (readers : Readers) (r : RunResult)
      → watch request host readers ≡ some (ok r)
      → (readers ≡ both_start)
        × ((w : Waited) × (wait_loop request.time_limit
                (wait_fuel request.time_limit)
                host.polls
                host.reaped
                0
              ≡ some w)
            × (collect request host w ≡ some (ok r)))
  unfolding watch
  watch-eq-ok second_fails r e = cc e
  watch-eq-ok (first_fails message) r e = cc (some-injective _ _ e)
  watch-eq-ok both_start r e =
      elim (Option-cases
        (wait_loop request.time_limit (wait_fuel request.time_limit) host.polls host.reaped 0)) [
          | inl stuck ↦ cc (rw (watch, stuck) at e)
          | inr (w, ended) ↦ (refl, (w, ended, rw (watch, ended) at e))
        ]

  run_forked-Ran : (r : RunResult) → run_forked request host ≡ some (ok r) → Ran request host r
  unfolding run_forked
  run_forked-Ran r e = elim (Option-cases (write_all host.writes request.stdin_content)) [
    | inl stuck ↦ cc (rw (run_forked, stuck) at e)
    | inr (out, written) ↦
        let (started, (w, waited, collected)) =
          watch-eq-ok host.readers r (rw (run_forked, written) at e) in
        let (output, errors, reported) = collect-eq-ok w r collected in
        record {
          w = w;
          written = (out, written);
          started = started;
          waited = waited;
          output = output;
          errors = errors;
          reported = reported;
        }
  ]

  -- A test in front of the fork fails, or none does and the rest decides.
  run_binary-cases :
      ((r : RunResult) × (run_binary request host ≡ some (ok r))
        × (r.status ≡ spawn_error)
        × Blocked request host)
      ⊎ ((run_binary request host ≡ run_forked request host) × (¬ Blocked request host))
  unfolding run_binary
  run_binary-cases =
      by_tests (Bool-cases (is_empty request.binary_path)) (Bool-cases host.executable)
        (Bool-cases host.pipes) (Bool-cases host.forks)
    where
      Goal : Type 0
      Goal =
          ((r : RunResult) × (run_binary request host ≡ some (ok r))
            × (r.status ≡ spawn_error)
            × Blocked request host)
          ⊎ ((run_binary request host ≡ run_forked request host) × (¬ Blocked request host))

      by_tests :
          (is_empty request.binary_path ≡ true) ⊎ (is_empty request.binary_path ≡ false)
          → (host.executable ≡ true) ⊎ (host.executable ≡ false)
          → (host.pipes ≡ true) ⊎ (host.pipes ≡ false)
          → (host.forks ≡ true) ⊎ (host.forks ≡ false)
          → Goal
      by_tests (inl a) _ _ _ = rw (a, run_binary) (inl (_, refl, refl, inl refl))
      by_tests (inr a) (inr b) _ _ = rw (a, b, run_binary) (inl (_, refl, refl, inr (inl refl)))
      by_tests (inr a) (inl b) (inr c) _ =
          rw (a, b, c, run_binary) (inl (_, refl, refl, inr (inr (inl refl))))
      by_tests (inr a) (inl b) (inl c) (inr d) =
          rw (a, b, c, d, run_binary) (inl (_, refl, refl, inr (inr (inr refl))))
      by_tests (inr a) (inl b) (inl c) (inl d) = inr (
        simp (run_binary, a, b, c, d),
        (λ blocked. elim blocked [
          | inl h ↦ cc (sym a ∙ h)
          | inr (inl h) ↦ cc (sym b ∙ h)
          | inr (inr (inl h)) ↦ cc (sym c ∙ h)
          | inr (inr (inr h)) ↦ cc (sym d ∙ h)
        ]),
      )

  run_forked-total :
      IsResponsive request host → (r : RunResult) × (run_forked request host ≡ some (ok r))
  unfolding run_forked watch collect conclude
  run_forked-total a =
      let (w, e, _) = wait_loop-total request.time_limit host.polls host.reaped a.sleeps in
      let (out, out_ends) = a.out_ends in
      let (errors, errors_end) = a.errors_end in
      (
        conclude request host w out errors,
        rw (run_forked, a.written.1, watch, a.started, e, collect, out_ends, errors_end) refl,
      )

-- Whenever `runBinary` returns a result, either a test in front of the fork failed and the status is
-- `SpawnError`, or none did, the whole input was taken or a write refused it, both reader threads
-- started, both pipes came to their end, the outputs are what came through them, and the wait loop ended
-- in some way, which the status reports: `Ok` means exit code 0 in time and with the memory test passed,
-- `Timeout` that the loop gave up, and `MemoryLimit` that the child ended in time and the peak that
-- getrusage(RUSAGE_CHILDREN) reports, rounded up to whole megabytes, is above the limit.
pub run_binary-Ran :
    (request : RunRequest) (host : Host) (r : RunResult)
    → run_binary request host ≡ some (ok r)
    → ((r.status ≡ spawn_error) × Blocked request host)
      ⊎ ((¬ Blocked request host) × Ran request host r)
run_binary-Ran request host r e = elim (run_binary-cases request host) [
  | inl (x, same, status, blocked) ↦
      inl (ap (λ y. y.status) (returned-injective (sym e ∙ same)) ∙ status, blocked)
  | inr (forked, passed) ↦ inr (passed, run_forked-Ran request host r (sym forked ∙ e))
]

-- If no call of the run blocks without end, `runBinary` returns: the input is taken or refused, both
-- reader threads start, both pipes come to their end, and the clock is driven by the sleeps. The result
-- then has the status `SpawnError` if a test in front of the fork fails; if none does, the wait loop
-- ended in some way, which the status reports, and the outputs are what came through the pipes.
pub run_binary-total :
    (request : RunRequest) (host : Host)
    → IsResponsive request host
    → (r : RunResult) × (run_binary request host ≡ some (ok r))
      × (((r.status ≡ spawn_error) × Blocked request host)
          ⊎ ((¬ Blocked request host) × Ran request host r))
run_binary-total request host responsive = elim (run_binary-cases request host) [
  | inl (r, e, status, blocked) ↦ (r, e, inl (status, blocked))
  | inr (forked, passed) ↦
      let (r, e) = run_forked-total request host responsive in
      (r, forked ∙ e, inr (passed, run_forked-Ran request host r e))
]
