-- ===== src/Judge/Runner.antt =====
-- backend/src/judge/runner.hpp and runner.cpp. What the operating system answers is an argument
-- (`Host`, `Poll`); file descriptors and the child's own code are left out, but for the limits that
-- the child sets on itself. A run that blocks without end is `none`.
pub mod Pipes
pub mod Waiting
pub mod Reports
pub mod Status
use oj_vibe_coding.Base.{
  ℕ, zero, suc, ◌+◌, ◌*◌, ◌/◌, ◌%◌, ◌^◌, Bool, true, false, not, Option, none, some, List, [], ◌∷◌,
  ◌++◌, ltb, ◌==◌, if◌then◌else◌, is_empty,
}
use oj_vibe_coding.Base.Result.{other, Result, ok, err}
use oj_vibe_coding.Text.{Bytes, bytes}
use oj_vibe_coding.Judge.Runner.Pipes.{Wrote, Got, write_all, drain_pipe}

pub data RunStatus : Type 0 where
  run_ok timeout memory_limit runtime_error spawn_error : RunStatus

pub record RunRequest : Type 0 where
  pub binary_path : Bytes
  pub stdin_content : Bytes
  pub time_limit : ℕ
  pub memory_limit_bytes : ℕ
  pub output_limit_bytes : ℕ

-- `exit_code` and `signal` start at -1, which is `none` here.
pub record RunResult : Type 0 where
  pub status : RunStatus
  pub time_ms : ℕ
  pub memory_mb : ℕ
  pub stdout_output : Bytes
  pub stderr_output : Bytes
  pub exit_code : Option ℕ
  pub signal : Option ℕ

-- What `waitpid` stores in `status`.
pub data WaitStatus : Type 0 where
  exited signaled : ℕ → WaitStatus
  stopped : WaitStatus

-- One `waitpid(pid, &status, WNOHANG)`: the child is gone, an error, or still running, in which case
-- the clock is read (nanoseconds since the start).
pub data Poll : Type 0 where
  gone : WaitStatus → Poll
  failed : Poll
  running : ℕ → Poll

-- How the loop was left: `killed_by_timeout`, whether `kill` was sent, and the status if one was
-- stored by this loop.
pub record Waited : Type 0 where
  pub killed_by_timeout : Bool
  pub kill_sent : Bool
  pub status : Option WaitStatus

-- The wait loop from its round `k` on; `reaped` is what the blocking `waitpid` after `kill` stores.
-- `none` means that the fuel ran out.
unfoldable pub wait_loop : ℕ → ℕ → (ℕ → Poll) → WaitStatus → ℕ → Option Waited
wait_loop limit zero polls reaped k = none
wait_loop limit (suc fuel) polls reaped k =
    let rest = wait_loop limit fuel polls reaped (suc k) in
    elim (polls k) [
      | gone status ↦
          some (record { killed_by_timeout = false; kill_sent = false; status = some status })
      | failed ↦ some (record { killed_by_timeout = true; kill_sent = false; status = none })
      | running elapsed ↦
          if ltb (limit * 1_000_000) elapsed
          then some (record { killed_by_timeout = true; kill_sent = true; status = some reaped })
          else rest
    ]

-- The loop sleeps 5 ms in each round.
abbrev pub wait_fuel : ℕ → ℕ
wait_fuel limit = limit / 5 + 2

-- `setrlimit` calls of `applyLimits`: the limit, soft and hard.
pub data Limit : Type 0 where
  cpu address_space file_size : (soft hard : ℕ) → Limit

unfoldable pub limits : RunRequest → List Limit
limits request =
    let seconds = (request.time_limit + 999) / 1000 + 1 in
    let memory = request.memory_limit_bytes * 2 % 2 ^ 64 in
    cpu seconds (seconds + 1)
    ∷ address_space memory memory
    ∷ file_size request.output_limit_bytes request.output_limit_bytes
    ∷ []

-- The limits that are set, in order, until a call fails.
unfoldable pub apply_limits : List Limit → (Limit → Bool) → List Limit × Bool
apply_limits [] set = ([], true)
apply_limits (l ∷ ls) set =
    let (done, all_set) = apply_limits ls set in if set l then (l ∷ done, all_set) else ([], false)

-- `kilobytes` is `ru_maxrss`, which is not negative.
unfoldable pub memory_in_mb : ℕ → ℕ
memory_in_mb kilobytes = (kilobytes + 1023) / 1024 % 2 ^ 32

-- How the two reader threads start. If the first one does not, its constructor throws; if only the
-- second one does not, the first is destroyed unjoined, which terminates the program.
pub data Readers : Type 0 where
  both_start second_fails : Readers
  first_fails : Bytes → Readers

-- The host's answers to one call of `runBinary`, in the order in which they are asked for. `writes`,
-- `stdout_reads` and `stderr_reads` are what the calls of write and read give, up to one that blocks
-- without end.
pub record Host : Type 0 where
  pub executable : Bool
  pub pipes : Bool
  pub forks : Bool
  pub writes : List Wrote
  pub readers : Readers
  pub polls : ℕ → Poll
  pub reaped : WaitStatus
  pub stdout_reads : List Got
  pub stderr_reads : List Got
  pub max_rss : ℕ
  pub elapsed_ms : ℕ
  pub strerror : Bytes

abbrev failure : Bytes → RunResult
failure message = record {
  status = spawn_error;
  time_ms = 0;
  memory_mb = 0;
  stdout_output = [];
  stderr_output = message;
  exit_code = none;
  signal = none;
}

-- The verdict on a child that was waited for.
unfoldable pub classify : RunResult → Bool → Option WaitStatus → RunResult
classify result rss_exceeded (some (exited code)) =
    let result' = record result { exit_code = some code } in
    if rss_exceeded
    then record result' { status = memory_limit }
    else if code == 0
    then record result' { status = run_ok }
    else record result' { status = runtime_error }
classify result rss_exceeded (some (signaled number)) =
    if rss_exceeded
    then record result { status = memory_limit; signal = some 0 }
    else record result { status = runtime_error; signal = some number }
classify result rss_exceeded (some stopped) = record result { status = runtime_error }
classify result rss_exceeded none = record result { status = runtime_error }

-- What `runBinary` does with the answers after the joins.
unfoldable pub conclude : RunRequest → Host → Waited → Bytes → Bytes → RunResult
conclude request host waited stdout_sink stderr_sink =
    if waited.killed_by_timeout
    then record measured { status = timeout }
    else classify measured (ltb request.memory_limit_bytes (measured.memory_mb * 1024 * 1024))
        waited.status
  where
    measured : RunResult
    measured = record {
      status = run_ok;
      time_ms = host.elapsed_ms % 2 ^ 32;
      memory_mb = memory_in_mb host.max_rss;
      stdout_output = stdout_sink;
      stderr_output = stderr_sink;
      exit_code = none;
      signal = none;
    }

-- The joins of the reader threads, and what follows.
unfoldable pub collect : RunRequest → Host → Waited → Option (Result RunResult)
collect request host waited = elim (drain_pipe host.stdout_reads) [
  | none ↦ none
  | some stdout_sink ↦ elim (drain_pipe host.stderr_reads) [
    | none ↦ none
    | some stderr_sink ↦ some (ok (conclude request host waited stdout_sink stderr_sink))
  ]
]

-- From the start of the reader threads on.
unfoldable pub watch : RunRequest → Host → Readers → Option (Result RunResult)
watch request host both_start =
    elim (wait_loop request.time_limit (wait_fuel request.time_limit) host.polls host.reaped 0) [
      | none ↦ none
      | some waited ↦ collect request host waited
    ]
watch request host second_fails = none
watch request host (first_fails message) = some (err (other message))

-- The parent behind the fork; what `writeAll` returns is ignored.
unfoldable pub run_forked : RunRequest → Host → Option (Result RunResult)
run_forked request host = elim (write_all host.writes request.stdin_content) [
  | none ↦ none
  | some written ↦ watch request host host.readers
]

unfoldable pub run_binary : RunRequest → Host → Option (Result RunResult)
run_binary request host =
    if is_empty request.binary_path
    then some (ok (failure (bytes "binary path is empty")))
    else if not host.executable
    then some (ok (failure (bytes "binary not executable: " ++ host.strerror)))
    else if not host.pipes
    then some (ok (failure (bytes "pipe failed: " ++ host.strerror)))
    else if not host.forks
    then some (ok (failure (bytes "fork failed: " ++ host.strerror)))
    else run_forked request host
