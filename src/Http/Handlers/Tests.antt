-- ===== src/Http/Handlers/Tests.antt =====
-- A submission, and what the runs of the handlers share: stand-ins for the system.
use oj_vibe_coding.Db.Client.{Client}
use oj_vibe_coding.Types.{ac, wa, re, SubmissionResult, empty_result}
use oj_vibe_coding.Judge.Pipeline.{PipelineInput, JudgeHost, run_in_work_dir, run_pipeline}
use oj_vibe_coding.Judge.Runner.Pipes.{broken, ended}
use oj_vibe_coding.Judge.Runner.{exited, gone, both_start}
use oj_vibe_coding.Auth.Password.{delivered}
use oj_vibe_coding.Http.Message.{Request, Response, empty_response}
use oj_vibe_coding.Http.Tests.Instances.{toy_json}
use oj_vibe_coding.Http.Tests.Objects.{object_json, object_json-IsJson, object}
use oj_vibe_coding.Http.Dto.{case_json, submission_json}
use oj_vibe_coding.Http.Dto.Laws.{ShowsOutputs, submission_json-ShowsOutputs}
use oj_vibe_coding.Http.Handlers.Auth.{AuthHost, SessionSettings}
use oj_vibe_coding.Http.Handlers.Public.{Judging, submit_handler}
use oj_vibe_coding.Http.Handlers.Public.Submitting.{IsJudged, submit_handler_iff}
use oj_vibe_coding.Db.Client.{Client}
use oj_vibe_coding.Db.Client.Toy.{scripted, answering, done, gives}
use oj_vibe_coding.Base.{◌≡◌, refl, ◌↔◌, true, none, some, [], ◌∷◌, map, All}
use oj_vibe_coding.Base.Result.{Result, ok, err}
use oj_vibe_coding.Text.{Bytes, bytes}

-- The hash of every password is itself behind a `$`.
abbrev pub auth_host : AuthHost
auth_host = record {
  crypt = λ key setting. some (b'$' ∷ key);
  crypt_error = [];
  salt = delivered (bytes "0123456789abcdef") ∷ [];
  urandom = record { opens = true; reads = λ k. bytes "0123456789abcdef0123456789abcdef" };
}

abbrev pub settings : SessionSettings
settings = record { ttl = 60; secure_cookie = true }

-- There is a temporary directory, and no work directory can be made in it.
abbrev pub full_disk : JudgeHost
full_disk = record {
  temp_dir_error = none;
  work_dir = [];
  work_dir_error = some (bytes "disk full");
  compile = record {
    write_error = none;
    pipes = true;
    forks = true;
    reader_error = none;
    polls = λ k. gone (exited 0);
    reaped = exited 0;
    stderr_reads = ended ∷ [];
    elapsed_ms = 0;
    strerror = [];
  };
  runs = λ k. record {
    executable = true;
    pipes = true;
    forks = true;
    writes = broken ∷ [];
    readers = both_start;
    polls = λ i. gone (exited 0);
    reaped = exited 0;
    stdout_reads = ended ∷ [];
    stderr_reads = ended ∷ [];
    max_rss = 0;
    elapsed_ms = 0;
    strerror = [];
  };
}

abbrev pub not_judged : SubmissionResult
not_judged = record empty_result {
  verdict = re;
  compile_output = bytes "failed to create work directory: disk full";
}

pub full_disk-ends : (input : PipelineInput) → run_pipeline input full_disk ≡ some (ok not_judged)
unfolding run_pipeline run_in_work_dir bytes
full_disk-ends input = refl

abbrev pub judging : Judging
judging = record {
  accepts = ok tt;
  host = λ input. full_disk;
  verdict = λ input. ok not_judged;
  ends = full_disk-ends;
}

abbrev pub call : Bytes → Request
call path = record {
  method = bytes "POST";
  path = path;
  remote_addr = bytes "10.0.0.7";
  body = bytes "{...}";
  header = λ name. none;
  param = λ name. none;
  id_param = [];
}

abbrev pub answer_of : Result Response × Client scripted → Response
answer_of (ok r, c) = r
answer_of (err e, c) = empty_response

-- A problem, its tags and its test case.
abbrev pub one_problem : Client scripted
one_problem = answering (
    gives (
      some (bytes "4")
      ∷ some (bytes "Sum")
      ∷ none
      ∷ some (bytes "easy")
      ∷ some (bytes "500")
      ∷ some (bytes "64")
      ∷ [])
    ∷ done
    ∷ gives (
        some (bytes "9")
        ∷ some (bytes "4")
        ∷ some (bytes "1 2")
        ∷ some (bytes "3")
        ∷ some (bytes "1")
        ∷ some (bytes "10")
        ∷ [])
    ∷ [])

abbrev submitted : Response
submitted = answer_of (
    submit_handler toy_json scripted judging (call (bytes "/api/submissions")) empty_response
      one_problem)

submit_handler_iff_example :
    (((submit_handler toy_json scripted judging
          (call (bytes "/api/submissions"))
          empty_response
          one_problem).0
        ≡ ok submitted)
      × (submitted.status ≡ 200))
    ↔ IsJudged toy_json scripted judging
        (call (bytes "/api/submissions"))
        empty_response
        one_problem
        submitted
submit_handler_iff_example =
    submit_handler_iff toy_json scripted judging (call (bytes "/api/submissions")) empty_response
      one_problem submitted

abbrev half_right : SubmissionResult
half_right = record {
  verdict = wa;
  time_ms = 5;
  memory_mb = 2;
  compile_output = [];
  per_case =
      record { index = 1; verdict = ac; time_ms = 5; memory_mb = 2; expected = []; actual = [] }
      ∷ record {
        index = 2;
        verdict = wa;
        time_ms = 5;
        memory_mb = 2;
        expected = bytes "3";
        actual = bytes "4";
      }
      ∷ [];
}

submission_json-ShowsOutputs_example :
    let j = object_json object in
    (j.elements (j.member (submission_json j half_right) (bytes "per_case"))
      ≡ map (case_json j) half_right.per_case)
    × All (ShowsOutputs j) half_right.per_case
submission_json-ShowsOutputs_example =
    submission_json-ShowsOutputs (object_json object) (object_json-IsJson object) half_right
