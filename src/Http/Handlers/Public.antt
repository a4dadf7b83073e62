-- ===== src/Http/Handlers/Public.antt =====
-- backend/src/http/handlers_public.cpp
pub mod Submitting
use oj_vibe_coding.Types.{
  Difficulty, parse_difficulty, TestCase, AdminTestCase, AdminProblemDetail, ProblemDetail,
  SubmissionResult,
}
use oj_vibe_coding.Judge.Pipeline.{PipelineInput, JudgeHost, run_pipeline}
use oj_vibe_coding.Db.Problems.{list_problems, get_problem_detail, get_full_problem}
use oj_vibe_coding.Http.Message.{Request, Response, Json}
use oj_vibe_coding.Http.Cookie.{write_json, write_error}
use oj_vibe_coding.Http.Dto.{summaries_json, detail_json, submission_json}
use oj_vibe_coding.Http.Requests.Submission.{SubmissionInput, parse_submission_input}
use oj_vibe_coding.Http.Handlers.{Handler, failed, refused_input, parse_problem_id}
use oj_vibe_coding.Base.{◌*◌, ◌≡◌, not, Option, none, some, map, if◌then◌else◌, is_empty}
use oj_vibe_coding.Base.Result.{Result, ok, err}
use oj_vibe_coding.Text.{Bytes, bytes}
use oj_vibe_coding.Base.Effect.{pure, from_result, attempt}
use oj_vibe_coding.Db.Client.{Mysql, Dao}

-- How the worker pool takes a task: `submit` throws, or a worker runs the task on the host that this
-- submission meets. `verdict` is what `future.get()` gives, a result or the exception of the task; a
-- request whose judging blocks without end is never answered and is not covered.
pub record Judging : Type 0 where
  pub accepts : Result (Unit {0})
  pub host : PipelineInput → JudgeHost
  pub verdict : PipelineInput → Result SubmissionResult
  pub ends : (input : PipelineInput) → run_pipeline input (host input) ≡ some (verdict input)

-- A parameter that is there and not empty.
unfoldable pub non_empty_param : Option Bytes → Option Bytes
non_empty_param none = none
non_empty_param (some value) = if is_empty value then none else some value

unfoldable pub parse_difficulty_query : Request → Result (Option Difficulty)
parse_difficulty_query req = elim (non_empty_param (req.param (bytes "difficulty"))) [
  | none ↦ ok none
  | some raw ↦ elim (parse_difficulty raw) [ err e ↦ err e | ok d ↦ ok (some d) ]
]

abbrev pub to_testcase : AdminTestCase → TestCase
to_testcase tc = record {
  id = tc.id;
  problem_id = tc.problem_id;
  input = tc.input;
  expected_output = tc.expected_output;
  is_sample = tc.is_sample;
}

-- The limits that are not set keep the values of the struct.
unfoldable pub build_pipeline_input : AdminProblemDetail → SubmissionInput → PipelineInput
build_pipeline_input problem submission = record {
  source_code = submission.source_code;
  testcases = map to_testcase problem.testcases;
  compile_timeout = 3_000;
  run_timeout = problem.time_limit_ms;
  memory_limit_bytes = problem.memory_limit_mb * 1_024 * 1_024;
  output_limit_bytes = 16 * 1_024 * 1_024;
}

-- `submit` and `future.get()`.
unfoldable pub judged : Result (Unit {0}) → Result SubmissionResult → Result SubmissionResult
judged (err e) verdict = err e
judged (ok u) verdict = verdict

module _ (j : Json) (m : Mysql) where
  unfoldable pub list_problems_handler : Handler m
  list_problems_handler req res =
      attempt (from_result (parse_difficulty_query req)) (refused_input j m res) λ difficulty.
        attempt
          (list_problems m
            (record { difficulty = difficulty; tag = non_empty_param (req.param (bytes "tag")) }))
          (failed j m (bytes "database error: ") res)
          λ summaries. pure (write_json j 200 (summaries_json j summaries) res)

  unfoldable pub answer_detail : Response → Option ProblemDetail → Dao m Response
  answer_detail res none = pure (write_error j 404 (bytes "problem not found") res)
  answer_detail res (some detail) = pure (write_json j 200 (detail_json j detail) res)

  unfoldable pub get_problem_handler : Handler m
  get_problem_handler req res = elim (parse_problem_id req) [
    | none ↦ pure (write_error j 400 (bytes "invalid problem id") res)
    | some id ↦
        attempt (get_problem_detail m id) (failed j m (bytes "database error: ") res)
          (answer_detail res)
  ]

  -- `submitHandler` once the problem is looked up.
  unfoldable pub judge_submission :
      Judging → SubmissionInput → Response → Option AdminProblemDetail → Dao m Response
  judge_submission judging submission res none =
      pure (write_error j 404 (bytes "problem not found") res)
  judge_submission judging submission res (some full) =
      let verdict = judging.verdict (build_pipeline_input full submission) in
      if is_empty full.testcases
      then pure (write_error j 400 (bytes "problem has no testcases") res)
      else attempt (from_result (judged judging.accepts verdict))
          (failed j m (bytes "judge error: ") res)
          λ result. pure (write_json j 200 (submission_json j result) res)

  unfoldable pub submit_handler : Judging → Handler m
  submit_handler judging req res =
      attempt (from_result (parse_submission_input j req.body)) (refused_input j m res)
        λ submission.
          attempt (get_full_problem m submission.problem_id)
            (failed j m (bytes "database error: ") res) (judge_submission judging submission res)
