-- ===== src/Db/Problems/Tests.antt =====
-- The changes of backend/src/db/problem_dao.cpp on a scripted server.
use oj_vibe_coding.Types.{easy}
use oj_vibe_coding.Http.Requests.{ProblemInput}
use oj_vibe_coding.Db.Client.Plain.{Adds}
use oj_vibe_coding.Db.Client.Toy.{scripted, answering, done}
use oj_vibe_coding.Db.Problems.{create_problem, update_problem}
use oj_vibe_coding.Db.Problems.Transactions.{Transacts, Lends}
use oj_vibe_coding.Db.Problems.Atomic.{create_problem-Transacts}
use oj_vibe_coding.Db.Problems.Update.{Checks, is_there, update_problem-Checks}
use oj_vibe_coding.Db.Client.{Client}
use oj_vibe_coding.Base.{true, none, [], ◌∷◌}
use oj_vibe_coding.Text.{bytes}

abbrev sum_problem : ProblemInput
sum_problem = record {
  title = bytes "Sum";
  description_md = bytes "Add them.";
  difficulty = easy;
  time_limit_ms = 1_000;
  memory_limit_mb = 64;
  tags = bytes "math" ∷ [];
  testcases =
      record {
        id = none;
        input = bytes "1 2";
        expected_output = bytes "3";
        is_sample = true;
        score = 1;
      }
      ∷ [];
}

-- The transaction starts, the problem and its tag are stored, and the test case is refused.
abbrev refusing : Client scripted
refusing = answering (done ∷ done ∷ done ∷ done ∷ [])

create_problem-Transacts_example :
    Adds scripted (Lends Transacts) refusing (create_problem scripted sum_problem refusing)
create_problem-Transacts_example = create_problem-Transacts scripted sum_problem refusing

update_problem-Checks_example :
    Adds scripted
      (Lends (Checks 7 (is_there scripted 7 (scripted.acquire refusing.server).1)))
      refusing
      (update_problem scripted 7 sum_problem refusing)
update_problem-Checks_example = update_problem-Checks scripted 7 sum_problem refusing
