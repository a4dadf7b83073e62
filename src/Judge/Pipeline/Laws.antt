-- ===== src/Judge/Pipeline/Laws.antt =====
-- What a submission's result means (backend/src/judge/pipeline.cpp).
use oj_vibe_coding.Base.{
  ℕ, suc, ◌≡◌, refl, sym, ap, ◌∙◌, subst, inl, inr, true, false, ◌&&◌, none, some, List, [], ◌∷◌,
  ◌++◌, arith, if◌then◌else◌, Bool-cases, Option-cases, length, is_empty, length-append,
}
use oj_vibe_coding.Text.{Bytes, bytes}
use oj_vibe_coding.Types.{
  TestCase, Verdict, ce, re, CaseResult, SubmissionResult, empty_result, is_ac,
}
use oj_vibe_coding.Judge.Pipeline.{
  PipelineInput, JudgeHost, run_request, Progress, start, case_loop, finish, compile_request,
  run_compiled, run_in_work_dir, run_pipeline,
}
use oj_vibe_coding.Judge.Pipeline.Judged.{
  Judged, all_judged, max_time_of, max_memory_of, case_loop-Extends, stop, next,
}
use oj_vibe_coding.Judge.Runner.Status as Run
use oj_vibe_coding.Judge.Compiler.Laws as Compile
use oj_vibe_coding.Base.{
  ℕ, suc, ◌≡◌, refl, sym, ap, ◌∙◌, subst, inl, inr, true, false, ◌&&◌, none, some, List, [], ◌∷◌,
  ◌++◌, arith, if◌then◌else◌, Bool-cases, Option-cases, length, is_empty, length-append,
}
use oj_vibe_coding.Base.Result.{ok, returned-injective, then_run-eq-ok}
use oj_vibe_coding.Judge.Compiler.{CompileResult, compile_source}
use mathlib.Core.Option.{some-injective}

-- What is asked of the runs from the `k`-th on.
abbrev pub AllResponsive : PipelineInput → JudgeHost → ℕ → List TestCase → Type 0
AllResponsive input host k [] = Unit {0}
AllResponsive input host k (t ∷ ts) =
    Run.IsResponsive (run_request input (host.work_dir ++ bytes "/main.out") t) (host.runs k)
    × AllResponsive input host (suc k) ts

-- There is a temporary directory, and no call of the compilation or of a run blocks without end.
pub record IsResponsive (input : PipelineInput) (host : JudgeHost) : Type 0 where
  pub temp_dir : host.temp_dir_error ≡ none
  pub compiles : Compile.IsResponsive host.compile
  pub runs : AllResponsive input host 0 input.testcases

-- The three ways in which a submission is judged.
pub data Outcome (input : PipelineInput) (host : JudgeHost) (r : SubmissionResult) : Type 0 where
  no_work_dir :
      (message : Bytes)
      → host.work_dir_error ≡ some message
      → r.verdict ≡ re
      → r.per_case ≡ []
      → Outcome input host r
  not_compiled :
      (c : CompileResult)
      → host.work_dir_error ≡ none
      → compile_source (compile_request input host) host.compile ≡ some (ok c)
      → c.ok ≡ false
      → r ≡ record empty_result { verdict = ce; compile_output = c.stderr_output }
      → Outcome input host r
  judged :
      (c : CompileResult) (v : Verdict)
      → host.work_dir_error ≡ none
      → compile_source (compile_request input host) host.compile ≡ some (ok c)
      → c.ok ≡ true
      → Judged input host 0 input.testcases r.per_case v
      → r.verdict ≡ (if is_empty input.testcases then re else v)
      → r.time_ms ≡ max_time_of r.per_case
      → r.memory_mb ≡ max_memory_of r.per_case
      → r.compile_output ≡ c.stderr_output
      → Outcome input host r

module _ (input : PipelineInput) (host : JudgeHost) where
  -- A verdict `AC` with no case means that there was none to judge.
  finish-verdict :
      (ts : List TestCase) (cs : List CaseResult) (v : Verdict)
      → Judged input host 0 ts cs v
      → (if is_ac v && is_empty cs then re else v) ≡ (if is_empty ts then re else v)
  finish-verdict _ _ _ (all_judged k) = refl
  finish-verdict _ _ _ (stop k t ts c run bad) = ground arith
  finish-verdict _ _ _ (next k t ts c cs v run good j) = ground arith

  finish-Outcome :
      (c : CompileResult) (q : Progress)
      → host.work_dir_error ≡ none
      → compile_source (compile_request input host) host.compile ≡ some (ok c)
      → c.ok ≡ true
      → case_loop input host input.testcases start ≡ some (ok q)
      → Outcome input host (finish c.stderr_output q)
  unfolding finish
  finish-Outcome c q made compiled built loop =
      let (cs, j, per, time, memory) =
        case_loop-Extends input host input.testcases start q refl loop in
      let j' = subst (λ l. Judged input host 0 input.testcases l q.verdict) (sym per) j in
      judged c q.verdict made compiled built j'
        (finish-verdict input.testcases q.per_case q.verdict j')
        (time ∙ omega arith ∙ ap max_time_of (sym per))
        (memory ∙ omega arith ∙ ap max_memory_of (sym per)) refl

  run_compiled-Outcome :
      (c : CompileResult) (r : SubmissionResult)
      → host.work_dir_error ≡ none
      → compile_source (compile_request input host) host.compile ≡ some (ok c)
      → run_compiled input host c ≡ some (ok r)
      → Outcome input host r
  unfolding run_compiled
  run_compiled-Outcome c r made compiled e = elim (Bool-cases c.ok) [
    | inr failed ↦
        not_compiled c made compiled failed
          (sym (returned-injective (rw (failed, run_compiled) at e)))
    | inl built ↦
        let (q, loop, same) =
          then_run-eq-ok (case_loop input host input.testcases start) _ r
            (rw (built, run_compiled) at e) in
        subst (Outcome input host) (returned-injective same)
          (finish-Outcome c q made compiled built loop)
  ]

  run_in_work_dir-Outcome :
      (r : SubmissionResult) → run_in_work_dir input host ≡ some (ok r) → Outcome input host r
  unfolding run_in_work_dir
  run_in_work_dir-Outcome r e = elim (Option-cases host.work_dir_error) [
    | inr (m, broken) ↦
        subst (Outcome input host) (returned-injective (rw (run_in_work_dir, broken) at e))
          (no_work_dir m broken refl refl)
    | inl made ↦
        let (c, compiled, e') =
          then_run-eq-ok (compile_source (compile_request input host) host.compile) _ r
            (rw (run_in_work_dir, made) at e) in
        run_compiled-Outcome c r made compiled e'
  ]

  -- What it returns, whenever it returns.
  pub run_pipeline-Outcome :
      (r : SubmissionResult) → run_pipeline input host ≡ some (ok r) → Outcome input host r
  unfolding run_pipeline
  run_pipeline-Outcome r e = elim (Option-cases host.temp_dir_error) [
    | inr (m, broken) ↦ cc (some-injective _ _ (rw (run_pipeline, broken) at e))
    | inl there ↦ run_in_work_dir-Outcome r (rw (run_pipeline, there) at e)
  ]
