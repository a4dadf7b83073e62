-- ===== src/Judge/Compiler.antt =====
-- backend/src/judge/compiler.hpp and compiler.cpp. The operating system's answers are the argument
-- `CompileHost`; the child's own code is left out. A compilation that blocks without end is `none`.
pub mod Laws
use oj_vibe_coding.Base.{
  ℕ, ◌+◌, ◌%◌, ◌^◌, Bool, true, false, not, Option, none, some, List, ◌++◌, ◌==◌, if◌then◌else◌,
  is_empty,
}
use oj_vibe_coding.Text.{Bytes, bytes}
use oj_vibe_coding.Judge.Runner.{WaitStatus, exited, Poll, failed, Waited, wait_loop, wait_fuel}
use oj_vibe_coding.Judge.Runner.Pipes.{Got, drain_pipe}
use oj_vibe_coding.Base.Result.{other, Result, ok, err}

pub data CompileStatus : Type 0 where
  success failed_status compile_timeout spawn_error : CompileStatus

pub record CompileRequest : Type 0 where
  pub source_code : Bytes
  pub source_filename : Bytes
  pub binary_filename : Bytes
  pub timeout : ℕ
  pub working_directory : Bytes

pub record CompileResult : Type 0 where
  pub ok : Bool
  pub status : CompileStatus
  pub time_ms : ℕ
  pub stderr_output : Bytes

-- The host's answers to one call of `compileSource`. `write_error` is the message of
-- `writeSourceFile`, if it throws; `reader_error` that of the reader thread's constructor; `stderr_reads`
-- is what the calls of read give, up to one that blocks without end.
pub record CompileHost : Type 0 where
  pub write_error : Option Bytes
  pub pipes : Bool
  pub forks : Bool
  pub reader_error : Option Bytes
  pub polls : ℕ → Poll
  pub reaped : WaitStatus
  pub stderr_reads : List Got
  pub elapsed_ms : ℕ
  pub strerror : Bytes

abbrev refused : Bytes → CompileResult
refused message = record { ok = false; status = spawn_error; time_ms = 0; stderr_output = message }

abbrev pub compiler_unavailable : Bytes
compiler_unavailable =
    bytes
      "compiler unavailable: 'g++' not found in PATH (check backend Dockerfile runtime stage installs g++)"

-- The tests after the loop; a status that no `waitpid` stored is still 0, an exit with code 0.
abbrev exit_code : Option WaitStatus → Option ℕ
exit_code (some (exited code)) = some code
exit_code (some _) = none
exit_code none = some 0

abbrev code_is : Option ℕ → ℕ → Bool
code_is none n = false
code_is (some code) n = code == n

unfoldable pub judge_compile : CompileHost → Waited → Bytes → CompileResult
judge_compile host waited stderr_output =
    if waited.killed_by_timeout
    then record {
      ok = false;
      status = compile_timeout;
      time_ms = time_ms;
      stderr_output = stderr_output;
    }
    else if code_is (exit_code waited.status) 0
    then record { ok = true; status = success; time_ms = time_ms; stderr_output = stderr_output }
    else if code_is (exit_code waited.status) 127
    then record {
      ok = false;
      status = spawn_error;
      time_ms = time_ms;
      stderr_output = compiler_unavailable;
    }
    else record {
      ok = false;
      status = failed_status;
      time_ms = time_ms;
      stderr_output = stderr_output;
    }
  where
    time_ms : ℕ
    time_ms = host.elapsed_ms % 2 ^ 32

-- From the fork on: the reader thread, whose loop is that of `drainPipe`, the wait loop, which is that
-- of `runBinary`, and the join.
unfoldable pub watch_compile : CompileRequest → CompileHost → Option (Result CompileResult)
watch_compile request host =
    elim (wait_loop request.timeout (wait_fuel request.timeout) host.polls host.reaped 0) [
      | none ↦ none
      | some waited ↦ elim (drain_pipe host.stderr_reads) [
        | none ↦ none
        | some stderr_output ↦ some (ok (judge_compile host waited stderr_output))
      ]
    ]

-- Everything after the source file is written.
unfoldable pub compile_written : CompileRequest → CompileHost → Option (Result CompileResult)
compile_written request host =
    if not host.pipes
    then some (ok (refused (bytes "pipe failed: " ++ host.strerror)))
    else if not host.forks
    then some (ok (refused (bytes "fork failed: " ++ host.strerror)))
    else elim host.reader_error [
      | some message ↦ some (err (other message))
      | none ↦ watch_compile request host
    ]

unfoldable pub compile_source : CompileRequest → CompileHost → Option (Result CompileResult)
unfolding compile_written
compile_source request host =
    if is_empty request.working_directory
    then some (ok (refused (bytes "working directory is empty")))
    else elim host.write_error [
      | some message ↦ some (ok (refused (bytes "write source failed: " ++ message)))
      | none ↦ compile_written request host
    ]
