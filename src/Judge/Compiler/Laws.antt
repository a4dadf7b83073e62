-- ===== src/Judge/Compiler/Laws.antt =====
-- When `compileSource` (backend/src/judge/compiler.cpp) succeeds, and that it returns.
use oj_vibe_coding.Base.{
  ◌≡◌, refl, ap, ◌∙◌, subst, ◌↔◌, ◌⊎◌, inl, inr, true, false, none, some, arith, Bool-cases,
  Option-cases, is_empty,
}
use oj_vibe_coding.Base.{
  ◌≡◌, refl, ap, ◌∙◌, subst, ◌↔◌, ◌⊎◌, inl, inr, true, false, none, some, arith, Bool-cases,
  Option-cases, is_empty,
}
use oj_vibe_coding.Base.Result.{ok}
use oj_vibe_coding.Judge.Runner.Pipes.{drain_pipe}
use oj_vibe_coding.Judge.Runner.{exited, Waited, wait_loop, wait_fuel}
use oj_vibe_coding.Judge.Runner.Waiting.{
  Sleeps, FirstDecides, wait_loop-total, wait_loop-FirstDecides, wait_loop-ended,
  FirstDecides-unique, ended,
}
use oj_vibe_coding.Judge.Compiler.{
  CompileRequest, CompileResult, CompileHost, success, judge_compile, compile_source, watch_compile,
  spawn_error, Bytes,
}

-- `writeSourceFile` did not throw, the child was forked, and a round of the wait loop found it ended with
-- exit code 0, with every earlier reading of the clock within the limit.
abbrev pub Compiled : CompileRequest → CompileHost → Type 0
Compiled request host =
    (is_empty request.working_directory ≡ false)
    × (host.write_error ≡ none)
    × (host.pipes ≡ true)
    × (host.forks ≡ true)
    × FirstDecides request.timeout host.reaped host.polls 0
        (record { killed_by_timeout = false; kill_sent = false; status = some (exited 0) })

-- `ok` and `status` agree.
abbrev pub IsConsistent : CompileResult → Type 0
IsConsistent r = (r.ok ≡ true) ↔ (r.status ≡ success)

judge_compile-IsConsistent :
    (host : CompileHost) (w : Waited) (out : Bytes) → IsConsistent (judge_compile host w out)
unfolding judge_compile
judge_compile-IsConsistent host w out = ground arith

judge_compile-ok_iff :
    (host : CompileHost) (w : Waited) (out : Bytes)
    → ((judge_compile host w out).ok ≡ true)
      ↔ ((w.killed_by_timeout ≡ false) × ((w.status ≡ some (exited 0)) ⊎ (w.status ≡ none)))
unfolding judge_compile
judge_compile-ok_iff host w out = ground arith

-- No call of the compilation blocks without end, and the reader thread starts.
pub record IsResponsive (host : CompileHost) : Type 0 where
  pub sleeps : Sleeps host.polls
  pub started : host.reader_error ≡ none
  pub errors_end : (out : Bytes) × (drain_pipe host.stderr_reads ≡ some out)

module _ (request : CompileRequest) (host : CompileHost) (responsive : IsResponsive host)
    (w : Waited)
    (loop : wait_loop request.timeout (wait_fuel request.timeout) host.polls host.reaped 0
      ≡ some w) where
  -- The tests in front of the loop.
  abbrev IsStarted : Type 0
  IsStarted =
      (is_empty request.working_directory ≡ false)
      × (host.write_error ≡ none)
      × (host.pipes ≡ true)
      × (host.forks ≡ true)

  -- What a compilation that was started is judged to be.
  abbrev judged : CompileResult
  judged = judge_compile host w responsive.errors_end.0

  watched : watch_compile request host ≡ some (ok judged)
  unfolding watch_compile
  watched = rw (watch_compile, loop, responsive.errors_end.1) refl

  -- A compilation that was not started failed, any other is judged by the way in which it ended.
  compile_source-cases :
      (r : CompileResult) × (compile_source request host ≡ some (ok r))
      × ((IsStarted × (r ≡ judged)) ⊎ ((¬ IsStarted) × (r.status ≡ spawn_error) × (r.ok ≡ false)))
  unfolding compile_source
  compile_source-cases =
      by_tests (Bool-cases (is_empty request.working_directory)) (Option-cases host.write_error)
        (Bool-cases host.pipes) (Bool-cases host.forks)
    where
      Goal : Type 0
      Goal =
          (r : CompileResult) × (compile_source request host ≡ some (ok r))
          × ((IsStarted × (r ≡ judged))
              ⊎ ((¬ IsStarted) × (r.status ≡ spawn_error) × (r.ok ≡ false)))

      by_tests :
          (is_empty request.working_directory ≡ true) ⊎ (is_empty request.working_directory ≡ false)
          → (host.write_error ≡ none) ⊎ ((m : Bytes) × (host.write_error ≡ some m))
          → (host.pipes ≡ true) ⊎ (host.pipes ≡ false)
          → (host.forks ≡ true) ⊎ (host.forks ≡ false)
          → Goal
      by_tests (inl a) _ _ _ = rw (a, compile_source) (_, refl, inr (λ h. cc h.0, refl, refl))
      by_tests (inr a) (inr (m, b)) _ _ =
          rw (a, b, compile_source) (_, refl, inr (λ h. cc h.1, refl, refl))
      by_tests (inr a) (inl b) (inr c) _ =
          rw (a, b, c, compile_source) (_, refl, inr (λ h. cc h.2, refl, refl))
      by_tests (inr a) (inl b) (inl c) (inr d) =
          rw (a, b, c, d, compile_source) (_, refl, inr (λ h. cc h.3, refl, refl))
      by_tests (inr a) (inl b) (inl c) (inl d) =
          (judged, simp (a, b, c, d, responsive.started, watched), inl ((a, b, c, d), refl))

  judged-Compiled : IsStarted → (judged.ok ≡ true) ↔ Compiled request host
  judged-Compiled (a, b, c, d) = (sound, complete)
    where
      out : Bytes
      out = responsive.errors_end.0

      first : FirstDecides request.timeout host.reaped host.polls 0 w
      first =
          wait_loop-FirstDecides request.timeout host.polls host.reaped (wait_fuel request.timeout)
            0 w loop

      sound : judged.ok ≡ true → Compiled request host
      sound h =
          let (in_time, status) = (judge_compile-ok_iff host w out).0 h in
          let (code, e) =
            wait_loop-ended request.timeout (wait_fuel request.timeout) host.polls host.reaped w
              loop in_time in
          let exit_zero : w ≡ ended (exited 0) = ground arith in
          (
            a,
            b,
            c,
            d,
            subst (λ v. FirstDecides request.timeout host.reaped host.polls 0 v) exit_zero first,
          )

      complete : Compiled request host → judged.ok ≡ true
      complete (_, _, _, _, f) =
          let e =
            FirstDecides-unique request.timeout host.polls host.reaped w (ended (exited 0)) first
              f in
          (judge_compile-ok_iff host w out).1
            (ap (λ v. v.killed_by_timeout) e, inl (ap (λ v. v.status) e))

-- If no call of the compilation blocks without end, `compileSource` returns: the reader thread starts,
-- the pipe comes to its end, and the clock is driven by the sleeps. It then reports success exactly if
-- there is a working directory, `writeSourceFile` did not throw, the pipe and the fork succeeded, and the
-- child was found ended in time with exit code 0; and the flag `ok` agrees with the status on every path.
pub compile_source-total :
    (request : CompileRequest) (host : CompileHost)
    → IsResponsive host
    → (r : CompileResult) × (compile_source request host ≡ some (ok r))
      × ((r.ok ≡ true) ↔ (r.status ≡ success))
      × ((r.ok ≡ true) ↔ Compiled request host)
compile_source-total request host responsive =
    let (w, loop, _) = wait_loop-total request.timeout host.polls host.reaped responsive.sleeps in
    let (r, e, cases) = compile_source-cases request host responsive w loop in
    elim cases [
      | inl (started, same) ↦ (
        judged request host responsive w loop,
        e ∙ ap (λ x. some (ok x)) same,
        judge_compile-IsConsistent host w responsive.errors_end.0,
        judged-Compiled request host responsive w loop started,
      )
      | inr (blocked, status, failed) ↦
          (r, e, ((λ h. cc), λ h. cc), ((λ h. cc), λ c. absurd (blocked (c.0, c.1, c.2, c.3))))
    ]
