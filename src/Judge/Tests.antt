-- ===== src/Judge/Tests.antt =====
-- Runs of the judge's model on concrete submissions.
use oj_vibe_coding.Base.{
  ℕ, zero, suc, ◌*◌, ◌≡◌, refl, ap, ◌≢◌, ◌↔◌, ◌⊎◌, true, none, some, [], ◌∷◌, ◌++◌, arith,
}
use oj_vibe_coding.Text.{Bytes, bytes, eqb}
use oj_vibe_coding.Types.{TestCase, ac, SubmissionResult}
use oj_vibe_coding.Judge.Diff.{outputs_match}
use oj_vibe_coding.Judge.Diff.Laws.{DifferInBlankEnds, outputs_match_iff}
use oj_vibe_coding.Judge.Runner.{
  RunStatus, run_ok, RunRequest, RunResult, WaitStatus, exited, signaled, Poll, gone, running,
  Waited, wait_loop, wait_fuel, memory_in_mb, Host, both_start, run_forked, watch, collect,
  classify, conclude, run_binary,
}
use oj_vibe_coding.Judge.Runner.Pipes.{
  delivered, ended, drain_pipe, took, interrupted, write_all, IsSent, write_all-IsSent,
}
use oj_vibe_coding.Judge.Runner.Waiting.{Sleeps, FirstDecides, wait_loop-total}
use oj_vibe_coding.Judge.Runner.Status.{
  Blocked, IsResponsive, Ran, run_binary-Ran, run_binary-total,
}
use oj_vibe_coding.Judge.Compiler.{
  success, CompileRequest, CompileResult, judge_compile, watch_compile, compile_written,
  compile_source,
}
use oj_vibe_coding.Judge.Compiler.Laws.{Compiled, compile_source-total}
use oj_vibe_coding.Judge.Pipeline.{
  PipelineInput, JudgeHost, map_run_status, aggregate_verdict, case_result, run_request, run_case,
  record_case, case_loop, finish, compile_request, run_compiled, run_in_work_dir, run_pipeline,
}
use oj_vibe_coding.Judge.Pipeline.Laws as Pipe
use oj_vibe_coding.Judge.Compiler.Laws as Compile
use oj_vibe_coding.Base.{
  ℕ, zero, suc, ◌*◌, ◌≡◌, refl, ap, ◌≢◌, ◌↔◌, ◌⊎◌, true, none, some, [], ◌∷◌, ◌++◌, arith,
}
use oj_vibe_coding.Base.Result.{ok}
use oj_vibe_coding.Judge.Pipeline.Acceptance.{AllAccepted, run_pipeline-ac_iff}

-- A child that is seen running once, and is gone at the next poll.
abbrev quick : WaitStatus → ℕ → Poll
quick status zero = running 0
quick status (suc k) = gone status

quick-Sleeps : (status : WaitStatus) → Sleeps (quick status)
quick-Sleeps status zero elapsed e = omega arith
quick-Sleeps status (suc k) elapsed e = cc

-- A child that never ends, on an exact clock.
abbrev endless : ℕ → Poll
endless k = running (5_000_000 * k)

abbrev millis : Poll → ℕ
millis (running t) = t
millis _ = 0

endless-Sleeps : Sleeps endless
endless-Sleeps k elapsed e = omega (arith, ap millis e)

abbrev child : (ℕ → Poll) → Bytes → Host
child polls out = record {
  executable = true;
  pipes = true;
  forks = true;
  writes = took 3 ∷ [];
  readers = both_start;
  polls = polls;
  reaped = signaled 9;
  stdout_reads = delivered out ∷ ended ∷ [];
  stderr_reads = ended ∷ [];
  max_rss = 2_000;
  elapsed_ms = 5;
  strerror = [];
}

abbrev sum_case : TestCase
sum_case = record {
  id = 1;
  problem_id = 1;
  input = bytes "1 2";
  expected_output = bytes "3";
  is_sample = true;
}

abbrev sum_input : PipelineInput
sum_input = record {
  source_code = bytes "int main() {}";
  testcases = sum_case ∷ sum_case ∷ [];
  compile_timeout = 10_000;
  run_timeout = 1_000;
  memory_limit_bytes = 64 * 1024 * 1024;
  output_limit_bytes = 1_048_576;
}

abbrev sum_host : JudgeHost
sum_host = record {
  temp_dir_error = none;
  work_dir = bytes "/tmp/judge_1";
  work_dir_error = none;
  compile = record {
    write_error = none;
    pipes = true;
    forks = true;
    reader_error = none;
    polls = quick (exited 0);
    reaped = signaled 9;
    stderr_reads = ended ∷ [];
    elapsed_ms = 800;
    strerror = [];
  };
  runs = λ k. child (quick (exited 0)) (bytes "3\n");
}

judge : Unit {0}
unfolding run_pipeline run_in_work_dir compile_source compile_written watch_compile judge_compile
    wait_loop run_compiled case_loop run_case run_binary run_forked watch collect write_all
    drain_pipe conclude classify case_result map_run_status record_case aggregate_verdict finish
    outputs_match eqb bytes run_request compile_request memory_in_mb
judge = tt

abbrev sum_result : SubmissionResult
sum_result = record {
  verdict = ac;
  time_ms = 5;
  memory_mb = 2;
  compile_output = [];
  per_case =
      record { index = 1; verdict = ac; time_ms = 5; memory_mb = 2; expected = []; actual = [] }
      ∷ record { index = 2; verdict = ac; time_ms = 5; memory_mb = 2; expected = []; actual = [] }
      ∷ [];
}

run_sum : run_pipeline sum_input sum_host ≡ some (ok sum_result)
unfolding judge
run_sum = refl

run_pipeline-ac_iff_example : (sum_result.verdict ≡ ac) ↔ (
    (sum_host.work_dir_error ≡ none)
    × ((c : CompileResult) × (compile_source (compile_request sum_input sum_host) sum_host.compile
          ≡ some (ok c))
        × (c.ok ≡ true))
    × (sum_input.testcases ≢ [])
    × AllAccepted sum_input sum_host 0 sum_input.testcases)
run_pipeline-ac_iff_example = run_pipeline-ac_iff sum_input sum_host sum_result run_sum

abbrev sum_request : RunRequest
sum_request = run_request sum_input (bytes "/tmp/judge_1/main.out") sum_case

-- A child that takes three bytes of input and writes this.
child-IsResponsive :
    (polls : ℕ → Poll) (out : Bytes) → Sleeps polls → IsResponsive sum_request (child polls out)
unfolding run_request write_all drain_pipe bytes
child-IsResponsive polls [] sleeps = record {
  sleeps = sleeps;
  written = ((true, bytes "1 2"), refl);
  started = refl;
  out_ends = ([], refl);
  errors_end = ([], refl);
}
child-IsResponsive polls (b ∷ out) sleeps = record {
  sleeps = sleeps;
  written = ((true, bytes "1 2"), refl);
  started = refl;
  out_ends = ((b ∷ out) ++ [], refl);
  errors_end = ([], refl);
}

sum_compile-IsResponsive : Compile.IsResponsive sum_host.compile
unfolding drain_pipe
sum_compile-IsResponsive = record {
  sleeps = quick-Sleeps (exited 0);
  started = refl;
  errors_end = ([], refl);
}

abbrev sum_run : RunResult
sum_run = record {
  status = run_ok;
  time_ms = 5;
  memory_mb = 2;
  stdout_output = bytes "3\n";
  stderr_output = [];
  exit_code = some 0;
  signal = none;
}

run_once : run_binary sum_request (sum_host.runs 0) ≡ some (ok sum_run)
unfolding judge
run_once = refl

run_binary-Ran_example :
    ((sum_run.status ≡ RunStatus.spawn_error) × Blocked sum_request (sum_host.runs 0))
    ⊎ ((¬ Blocked sum_request (sum_host.runs 0)) × Ran sum_request (sum_host.runs 0) sum_run)
run_binary-Ran_example = run_binary-Ran sum_request (sum_host.runs 0) sum_run run_once

abbrev looping : Host
looping = child endless []

run_binary-total_example :
    (r : RunResult) × (run_binary sum_request looping ≡ some (ok r))
    × (((r.status ≡ RunStatus.spawn_error) × Blocked sum_request looping)
        ⊎ ((¬ Blocked sum_request looping) × Ran sum_request looping r))
run_binary-total_example =
    run_binary-total sum_request looping (child-IsResponsive endless [] endless-Sleeps)

wait_loop-total_example :
    (w : Waited) × (wait_loop 1_000 (wait_fuel 1_000) endless (signaled 9) 0 ≡ some w)
    × FirstDecides 1_000 (signaled 9) endless 0 w
wait_loop-total_example = wait_loop-total 1_000 endless (signaled 9) endless-Sleeps

abbrev sum_compile : CompileRequest
sum_compile = compile_request sum_input sum_host

compile_source-total_example :
    (r : CompileResult) × (compile_source sum_compile sum_host.compile ≡ some (ok r))
    × ((r.ok ≡ true) ↔ (r.status ≡ success))
    × ((r.ok ≡ true) ↔ Compiled sum_compile sum_host.compile)
compile_source-total_example =
    compile_source-total sum_compile sum_host.compile sum_compile-IsResponsive

outputs_match_iff_example :
    (outputs_match (bytes "3\n") (bytes "3 \n") ≡ true)
    ↔ DifferInBlankEnds (bytes "3\n") (bytes "3 \n")
outputs_match_iff_example = outputs_match_iff (bytes "3\n") (bytes "3 \n")

-- Two bytes are taken, a signal interrupts, and the rest is taken.
write_all-IsSent_example : IsSent (bytes "1 2") true (bytes "1 2")
unfolding bytes write_all
write_all-IsSent_example =
    write_all-IsSent (took 2 ∷ interrupted ∷ took 9 ∷ []) (bytes "1 2") true (bytes "1 2") refl
