-- ===== src/Judge/Pipeline.antt =====
-- backend/src/judge/pipeline.cpp. The operating system's answers are the argument `JudgeHost`; the
-- removal of the work directory has no effect on the result and is left out. A submission whose judging
-- blocks without end is `none`.
pub mod Judged
pub mod Laws
pub mod Acceptance
use oj_vibe_coding.Base.{
  ℕ, suc, ◌+◌, ◌/◌, ◌%◌, ◌^◌, max, Bool, true, false, not, ◌&&◌, Option, none, some, List, [], ◌∷◌,
  ◌++◌, if◌then◌else◌, length, is_empty,
}
use oj_vibe_coding.Text.{Bytes, bytes}
use oj_vibe_coding.Base.Result.{other, Result, ok, err, then_run}
use oj_vibe_coding.Types.{
  TestCase, Verdict, ac, wa, tle, ce, mle, re, CaseResult, SubmissionResult, empty_result, is_ac,
}
use oj_vibe_coding.Judge.Diff.{outputs_match}
use oj_vibe_coding.Judge.Runner.{
  RunStatus, run_ok, timeout, memory_limit, runtime_error, spawn_error, RunRequest, RunResult, Host,
  run_binary,
}
use oj_vibe_coding.Judge.Compiler.{CompileRequest, CompileResult, CompileHost, compile_source}

pub record PipelineInput : Type 0 where
  pub source_code : Bytes
  pub testcases : List TestCase
  pub compile_timeout : ℕ
  pub run_timeout : ℕ
  pub memory_limit_bytes : ℕ
  pub output_limit_bytes : ℕ

-- What `temp_directory_path` (which may throw), `makeWorkDir` and `create_directories` answer, the host
-- of the compilation, and the host of each run, counted from 0.
pub record JudgeHost : Type 0 where
  pub temp_dir_error : Option Bytes
  pub work_dir : Bytes
  pub work_dir_error : Option Bytes
  pub compile : CompileHost
  pub runs : ℕ → Host

unfoldable pub map_run_status : RunStatus → Verdict
map_run_status run_ok = ac
map_run_status timeout = tle
map_run_status memory_limit = mle
map_run_status runtime_error = re
map_run_status spawn_error = re

unfoldable pub aggregate_verdict : Verdict → Verdict → Verdict
aggregate_verdict overall next = if is_ac overall then next else overall

abbrev pub is_run_ok : RunStatus → Bool
is_run_ok run_ok = true
is_run_ok _ = false

-- The `CaseResult` of one run.
unfoldable pub case_result : ℕ → TestCase → RunResult → CaseResult
unfolding map_run_status
case_result index testcase run =
    if not (is_run_ok run.status)
    then record measured { verdict = map_run_status run.status }
    else if outputs_match testcase.expected_output run.stdout_output
    then record measured { verdict = ac }
    else record measured {
      verdict = wa;
      expected = testcase.expected_output;
      actual = run.stdout_output;
    }
  where
    measured : CaseResult
    measured = record {
      index = index;
      verdict = ac;
      time_ms = run.time_ms;
      memory_mb = run.memory_mb;
      expected = [];
      actual = [];
    }

unfoldable pub run_request : PipelineInput → Bytes → TestCase → RunRequest
run_request input binary_path testcase = record {
  binary_path = binary_path;
  stdin_content = testcase.input;
  time_limit = input.run_timeout;
  memory_limit_bytes = input.memory_limit_bytes;
  output_limit_bytes = input.output_limit_bytes;
}

-- One run and its `CaseResult`, as the `k`-th of the loop.
unfoldable pub run_case : PipelineInput → JudgeHost → ℕ → TestCase → Option (Result CaseResult)
run_case input host k testcase =
    then_run
      (run_binary (run_request input (host.work_dir ++ bytes "/main.out") testcase) (host.runs k))
      λ run. some (ok (case_result (suc k % 2 ^ 32) testcase run))

-- The variables of the loop: `result.verdict`, `result.per_case`, `max_time` and `max_memory`.
pub record Progress : Type 0 where
  pub verdict : Verdict
  pub per_case : List CaseResult
  pub max_time : ℕ
  pub max_memory : ℕ

abbrev pub start : Progress
start = record { verdict = ac; per_case = []; max_time = 0; max_memory = 0 }

unfoldable pub record_case : Progress → CaseResult → Progress
unfolding aggregate_verdict
record_case p c = record {
  verdict = aggregate_verdict p.verdict c.verdict;
  per_case = p.per_case ++ (c ∷ []);
  max_time = max p.max_time c.time_ms;
  max_memory = max p.max_memory c.memory_mb;
}

-- The loop over the test cases, with its `break`.
unfoldable pub case_loop :
    PipelineInput → JudgeHost → List TestCase → Progress → Option (Result Progress)
unfolding record_case
case_loop input host [] p = some (ok p)
case_loop input host (testcase ∷ rest) p =
    then_run (run_case input host (length p.per_case) testcase) λ c.
      elim (is_ac (record_case p c).verdict) [
        | true ↦ case_loop input host rest (record_case p c)
        | false ↦ some (ok (record_case p c))
      ]

-- What is built after the loop.
unfoldable pub finish : Bytes → Progress → SubmissionResult
finish compile_output p = record {
  verdict = if is_ac p.verdict && is_empty p.per_case then re else p.verdict;
  time_ms = p.max_time;
  memory_mb = p.max_memory;
  compile_output = compile_output;
  per_case = p.per_case;
}

unfoldable pub compile_request : PipelineInput → JudgeHost → CompileRequest
compile_request input host = record {
  source_code = input.source_code;
  source_filename = bytes "main.cpp";
  binary_filename = bytes "main.out";
  timeout = input.compile_timeout;
  working_directory = host.work_dir;
}

-- What follows the compilation.
unfoldable pub run_compiled :
    PipelineInput → JudgeHost → CompileResult → Option (Result SubmissionResult)
unfolding finish
run_compiled input host compiled =
    if not compiled.ok
    then some (ok (record empty_result { verdict = ce; compile_output = compiled.stderr_output }))
    else then_run (case_loop input host input.testcases start)
        λ p. some (ok (finish compiled.stderr_output p))

-- What follows `makeWorkDir`.
unfoldable pub run_in_work_dir : PipelineInput → JudgeHost → Option (Result SubmissionResult)
run_in_work_dir input host = elim host.work_dir_error [
  | some message ↦ some (
      ok (record empty_result {
        verdict = re;
        compile_output = bytes "failed to create work directory: " ++ message;
      }))
  | none ↦
      then_run (compile_source (compile_request input host) host.compile) (run_compiled input host)
]

unfoldable pub run_pipeline : PipelineInput → JudgeHost → Option (Result SubmissionResult)
run_pipeline input host = elim host.temp_dir_error [
  | some message ↦ some (err (other message))
  | none ↦ run_in_work_dir input host
]
