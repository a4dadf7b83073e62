-- ===== src/Http/Handlers/Public/Submitting.antt =====
-- What `submitHandler` of backend/src/http/handlers_public.cpp answers.
use oj_vibe_coding.Types.{AdminProblemDetail, SubmissionResult}
use mathlib.Core.Option.{some-injective}
use oj_vibe_coding.Judge.Pipeline.{run_pipeline}
use oj_vibe_coding.Db.Problems.{get_full_problem}
use oj_vibe_coding.Http.Message.{Request, Response, Json}
use oj_vibe_coding.Http.Cookie.{write_json}
use oj_vibe_coding.Http.Dto.{submission_json}
use oj_vibe_coding.Http.Requests.Submission.{SubmissionInput, parse_submission_input}
use oj_vibe_coding.Http.Handlers.Public.{
  Judging, build_pipeline_input, judged, judge_submission, submit_handler,
}
use oj_vibe_coding.Http.Handlers.Auth.Starting.{
  result-cases, status-of-ok, write_error-status, failed-status, refused_input-status,
}
use oj_vibe_coding.Db.Client.Lookup.{Result-cases}
use oj_vibe_coding.Base.Result.{ok-injective}
use oj_vibe_coding.Base.{
  ◌≡◌, refl, sym, ap, ◌∙◌, ◌↔◌, inl, inr, false, Option, none, some, arith, Bool-cases, is_empty,
}
use oj_vibe_coding.Base.Result.{Result, ok, err}
use oj_vibe_coding.Text.{bytes}
use oj_vibe_coding.Base.Effect.{resume, attempt}
use oj_vibe_coding.Db.Client.{Mysql, Client}

judged-eq-ok :
    (accepts : Result (Unit {0})) (verdict : Result SubmissionResult) (result : SubmissionResult)
    → judged accepts verdict ≡ ok result
    → (accepts ≡ ok tt) × (verdict ≡ ok result)
unfolding judged
judged-eq-ok (err e) verdict result h = cc h
judged-eq-ok (ok u) verdict result h = (refl, h)

module _ (j : Json) (m : Mysql) (judging : Judging) (req : Request) (res : Response)
    (c : Client m) where
  -- The body is a submission to a problem of the database with test cases, the worker pool takes it, and
  -- the answer is the verdict of the pipeline on all the problem's test cases.
  pub record IsJudged (r : Response) : Type 0 where
    pub submission : SubmissionInput
    pub full : AdminProblemDetail
    pub result : SubmissionResult
    pub c' : Client m
    pub parsed : parse_submission_input j req.body ≡ ok submission
    pub found : get_full_problem m submission.problem_id c ≡ (ok (some full), c')
    pub some_cases : is_empty full.testcases ≡ false
    pub taken : judging.accepts ≡ ok tt
    pub ran :
        let input = build_pipeline_input full submission in
        run_pipeline input (judging.host input) ≡ some (ok result)
    pub answered : r ≡ write_json j 200 (submission_json j result) res

  -- From the look-up on.
  pub record Judges (submission : SubmissionInput) (found : Option AdminProblemDetail)
      (r : Response) : Type 0 where
    pub full : AdminProblemDetail
    pub result : SubmissionResult
    pub known : found ≡ some full
    pub some_cases : is_empty full.testcases ≡ false
    pub taken : judging.accepts ≡ ok tt
    pub ran :
        let input = build_pipeline_input full submission in
        run_pipeline input (judging.host input) ≡ some (ok result)
    pub answered : r ≡ write_json j 200 (submission_json j result) res

  judge_submission-Judges :
      (d : Client m) (submission : SubmissionInput) (found : Option AdminProblemDetail)
      (r : Response)
      → (judge_submission j m judging submission res found d).0 ≡ ok r
      → r.status ≡ 200
      → Judges submission found r
  unfolding judge_submission attempt resume
  judge_submission-Judges d submission none r e s =
      absurd (omega (arith, status-of-ok 404 200 (write_error-status j m res 404 _) e s))
  judge_submission-Judges d submission (some full) r e s =
      let input = build_pipeline_input full submission in
      let o = judging.verdict input in
      elim (Bool-cases (is_empty full.testcases)) [
        | inl empty ↦ absurd (
            omega (
              arith,
              status-of-ok 400 200
                  (write_error-status j m res 400 (bytes "problem has no testcases"))
                  (rw empty at e) s,
            ))
        | inr filled ↦ elim (result-cases (judged judging.accepts o)) [
          | inr (x, broken) ↦ absurd (
              omega (
                arith,
                s,
                failed-status j m res (bytes "judge error: ") x d r (rw (filled, broken) at e),
              ))
          | inl (result, done) ↦
              let (taken, ran) = judged-eq-ok judging.accepts o result done in
              record {
                full = full;
                result = result;
                known = refl;
                some_cases = filled;
                taken = taken;
                ran = judging.ends input ∙ ap some ran;
                answered = sym (ok-injective (rw (filled, done) at e));
              }
        ]
      ]

  submit_handler-IsJudged :
      (r : Response) → (submit_handler j m judging req res c).0 ≡ ok r → r.status ≡ 200 → IsJudged r
  unfolding submit_handler attempt resume
  submit_handler-IsJudged r e s = elim (result-cases (parse_submission_input j req.body)) [
    | inr (x, bad) ↦ absurd (omega (arith, s, refused_input-status j m res x c r (rw bad at e)))
    | inl (submission, parsed) ↦ elim (Result-cases (get_full_problem m submission.problem_id c)) [
      | inr (d, x, broken) ↦ absurd (
          omega (
            arith,
            s,
            failed-status j m res (bytes "database error: ") x d r (rw (parsed, broken) at e),
          ))
      | inl (d, looked_up, found) ↦
          let a = judge_submission-Judges d submission looked_up r (rw (parsed, found) at e) s in
          record {
            submission = submission;
            full = a.full;
            result = a.result;
            c' = d;
            parsed = parsed;
            found = found ∙ ap (λ o. (ok o, d)) a.known;
            some_cases = a.some_cases;
            taken = a.taken;
            ran = a.ran;
            answered = a.answered;
          }
    ]
  ]

  IsJudged-ok : (r : Response) → IsJudged r → (submit_handler j m judging req res c).0 ≡ ok r
  unfolding submit_handler judge_submission judged attempt resume
  IsJudged-ok r a =
      let input = build_pipeline_input a.full a.submission in
      let verdict : judging.verdict input ≡ ok a.result =
        some-injective _ _ (sym (judging.ends input) ∙ a.ran) in
      rw (a.parsed, a.found, a.some_cases, a.taken, verdict, a.answered) refl

  IsJudged-status : (r : Response) → IsJudged r → r.status ≡ 200
  unfolding write_json
  IsJudged-status r a = rw a.answered refl

-- Where every judging comes to an end, a submission is answered with status 200 exactly if its body is
-- accepted, the database has its problem with test cases, the worker pool takes the task, and the
-- pipeline throws no exception; the answer is then the JSON of what the pipeline gives on the problem's
-- test cases, under the problem's limits.
pub submit_handler_iff :
    (j : Json) (m : Mysql) (judging : Judging) (req : Request) (res : Response) (c : Client m)
    (r : Response)
    → (((submit_handler j m judging req res c).0 ≡ ok r) × (r.status ≡ 200))
      ↔ IsJudged j m judging req res c r
submit_handler_iff j m judging req res c r = (
  λ e. submit_handler-IsJudged j m judging req res c r e.0 e.1,
  λ a. (IsJudged-ok j m judging req res c r a, IsJudged-status j m judging req res c r a),
)
