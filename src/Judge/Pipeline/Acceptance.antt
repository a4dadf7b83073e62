-- ===== src/Judge/Pipeline/Acceptance.antt =====
-- When a submission is accepted (backend/src/judge/pipeline.cpp).
use oj_vibe_coding.Base.{
  ℕ, suc, ◌%◌, ◌^◌, ◌≡◌, refl, sym, ap, ◌∙◌, ◌≢◌, ◌↔◌, inl, inr, true, none, some, List, [], ◌∷◌,
  ◌++◌, arith, if◌then◌else◌, Bool-cases, is_empty, is_empty-eq,
}
use oj_vibe_coding.Text.{bytes}
use oj_vibe_coding.Types.{TestCase, Verdict, ac, re, CaseResult, SubmissionResult, is_ac}
use oj_vibe_coding.Judge.Pipeline.{
  PipelineInput, JudgeHost, map_run_status, case_result, run_request, run_case, compile_request,
  run_pipeline,
}
use oj_vibe_coding.Judge.Pipeline.Judged.{Judged, all_judged, stop, next}
use oj_vibe_coding.Judge.Pipeline.Laws.{
  Outcome, run_pipeline-Outcome, no_work_dir, not_compiled, judged,
}
use oj_vibe_coding.Judge.Diff.{outputs_match}
use oj_vibe_coding.Judge.Runner.{RunResult, run_ok, run_binary}
use oj_vibe_coding.Judge.Compiler.{CompileResult, compile_source}
use oj_vibe_coding.Base.Result.{ok, returned-injective, then_run-eq-ok}

-- What acceptance of the k-th case means.
abbrev pub Accepted : PipelineInput → JudgeHost → ℕ → TestCase → Type 0
Accepted input host k t =
    (run : RunResult) × (run_binary (run_request input (host.work_dir ++ bytes "/main.out") t)
        (host.runs k)
      ≡ some (ok run))
    × (run.status ≡ run_ok)
    × (outputs_match t.expected_output run.stdout_output ≡ true)

abbrev pub AllAccepted : PipelineInput → JudgeHost → ℕ → List TestCase → Type 0
AllAccepted input host k [] = Unit {0}
AllAccepted input host k (t ∷ ts) = Accepted input host k t × AllAccepted input host (suc k) ts

module _ (input : PipelineInput) (host : JudgeHost) where
  case_result-ac_iff :
      (index : ℕ) (t : TestCase) (run : RunResult)
      → (is_ac (case_result index t run).verdict ≡ true)
        ↔ ((run.status ≡ run_ok) × (outputs_match t.expected_output run.stdout_output ≡ true))
  unfolding case_result map_run_status
  case_result-ac_iff index t run = ground arith

  run_case-Accepted :
      (k : ℕ) (t : TestCase) (c : CaseResult)
      → run_case input host k t ≡ some (ok c)
      → (is_ac c.verdict ≡ true) ↔ Accepted input host k t
  unfolding run_case
  run_case-Accepted k t c e =
      let (run, ran, e') =
        then_run-eq-ok
          (run_binary (run_request input (host.work_dir ++ bytes "/main.out") t) (host.runs k)) _ c
          e in
      let same = returned-injective e' in
      let (to, from) = case_result-ac_iff (suc k % 2 ^ 32) t run in
      (
        (λ h.
            let (status, same_output) = to (ap (λ x. is_ac x.verdict) same ∙ h) in
            (run, ran, status, same_output)),
        λ (run', ran', status, same_output).
            let one = returned-injective (sym ran ∙ ran') in
            ap (λ x. is_ac x.verdict) (sym same)
            ∙ from (
              ap (λ x. x.status) one ∙ status,
              ap (λ x. outputs_match t.expected_output x.stdout_output) one ∙ same_output,
            ),
      )

  Judged-ac_iff :
      (k : ℕ) (ts : List TestCase) (cs : List CaseResult) (v : Verdict)
      → Judged input host k ts cs v
      → (v ≡ ac) ↔ AllAccepted input host k ts
  Judged-ac_iff _ _ _ _ (all_judged k) = ((λ e. tt), λ a. refl)
  Judged-ac_iff _ _ _ _ (stop k t ts c run bad) =
      ((λ e. cc (sym bad ∙ ap is_ac e)), λ a. cc (sym bad ∙ (run_case-Accepted k t c run).1 a.0))
  Judged-ac_iff _ _ _ _ (next k t ts c cs v run good j) =
      let (to, from) = Judged-ac_iff (suc k) ts cs v j in
      ((λ e. ((run_case-Accepted k t c run).0 good, to e)), λ a. from a.1)

-- The result that `runPipeline` returns has the verdict AC exactly if the work directory was made, the
-- source compiled, there is at least one test case, and on every test case the program ended with status
-- `Ok` and an output that matches the expected one.
pub run_pipeline-ac_iff :
    (input : PipelineInput) (host : JudgeHost) (r : SubmissionResult)
    → run_pipeline input host ≡ some (ok r)
    → (r.verdict ≡ ac) ↔ (
        (host.work_dir_error ≡ none)
        × ((c : CompileResult) × (compile_source (compile_request input host) host.compile
              ≡ some (ok c))
            × (c.ok ≡ true))
        × (input.testcases ≢ [])
        × AllAccepted input host 0 input.testcases)
run_pipeline-ac_iff input host r e = by_outcome (run_pipeline-Outcome input host r e)
  where
    Goal : Type 0
    Goal = (r.verdict ≡ ac) ↔ (
        (host.work_dir_error ≡ none)
        × ((c : CompileResult) × (compile_source (compile_request input host) host.compile
              ≡ some (ok c))
            × (c.ok ≡ true))
        × (input.testcases ≢ [])
        × AllAccepted input host 0 input.testcases)

    by_outcome : Outcome input host r → Goal
    by_outcome (no_work_dir m made verdict cases) = ((λ h. cc), λ (none_made, _, _, _). cc)
    by_outcome (not_compiled c made compiled failed same) =
        ((λ h. cc (sym h ∙ ap (λ x. x.verdict) same)), λ (_, (c', compiled', built), _, _). cc)
    by_outcome (judged c v made compiled built j verdict _ _ _) =
        let (to, from) = Judged-ac_iff input host 0 input.testcases r.per_case v j in
        elim (Bool-cases (is_empty input.testcases)) [
          | inl none_given ↦ (
            (λ h. cc (sym h ∙ verdict ∙ ap (λ b. if b then re else v) none_given)),
            λ (_, _, given, _). absurd (given (is_empty-eq input.testcases none_given)),
          )
          | inr given ↦
              let same : r.verdict ≡ v = verdict ∙ ap (λ b. if b then re else v) given in
              (
                (λ h. (
                  made,
                  (c, compiled, built),
                  (λ e. cc (sym given ∙ ap is_empty e)),
                  to (sym same ∙ h),
                )),
                λ (_, _, _, all_good). same ∙ from all_good,
              )
        ]
