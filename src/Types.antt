-- ===== src/Types.antt =====
-- backend/include/types.hpp and backend/src/util/types.cpp. Widths are kept by the code that
-- converts (`% 2 ^ 32`); a `std::string` is its bytes.
pub mod Names
use oj_vibe_coding.Base.{ℕ, ◌+◌, Bool, true, false, Option, List, [], ◌++◌, if◌then◌else◌}
use oj_vibe_coding.Base.Result.{invalid_argument, Result, ok, err}
use oj_vibe_coding.Text.{Bytes, bytes, eqb}

pub data Difficulty : Type 0 where
  easy medium hard : Difficulty

unfoldable pub parse_difficulty : Bytes → Result Difficulty
parse_difficulty value =
    if eqb value (bytes "easy")
    then ok easy
    else if eqb value (bytes "medium")
    then ok medium
    else if eqb value (bytes "hard")
    then ok hard
    else err (invalid_argument (bytes "invalid difficulty: " ++ value))

-- `difficultyName` of backend/src/db/problem_dao.cpp, `difficultyToString` of
-- backend/src/http/problem_dto.cpp and `difficultyToJson` of backend/src/http/admin_dto.cpp.
unfoldable pub difficulty_name : Difficulty → Bytes
difficulty_name easy = bytes "easy"
difficulty_name medium = bytes "medium"
difficulty_name hard = bytes "hard"

pub record Tag : Type 0 where
  pub id : ℕ
  pub name : Bytes

pub record TestCase : Type 0 where
  pub id : ℕ
  pub problem_id : ℕ
  pub input : Bytes
  pub expected_output : Bytes
  pub is_sample : Bool

pub record ProblemSummary : Type 0 where
  pub id : ℕ
  pub title : Bytes
  pub difficulty : Difficulty
  pub time_limit_ms : ℕ
  pub memory_limit_mb : ℕ
  pub tags : List Bytes

pub record ProblemDetail : Type 0 where
  pub id : ℕ
  pub title : Bytes
  pub description_md : Bytes
  pub difficulty : Difficulty
  pub time_limit_ms : ℕ
  pub memory_limit_mb : ℕ
  pub sample_testcases : List TestCase
  pub tags : List Tag

pub record AdminTestCase : Type 0 where
  pub id : ℕ
  pub problem_id : ℕ
  pub input : Bytes
  pub expected_output : Bytes
  pub is_sample : Bool
  pub score : ℕ

pub record AdminProblemDetail : Type 0 where
  pub id : ℕ
  pub title : Bytes
  pub description_md : Bytes
  pub difficulty : Difficulty
  pub time_limit_ms : ℕ
  pub memory_limit_mb : ℕ
  pub tags : List Tag
  pub testcases : List AdminTestCase

pub record ProblemFilters : Type 0 where
  pub difficulty : Option Difficulty
  pub tag : Option Bytes

pub data Verdict : Type 0 where
  ac wa tle ce mle re : Verdict

unfoldable pub verdict_name : Verdict → Bytes
verdict_name ac = bytes "AC"
verdict_name wa = bytes "WA"
verdict_name tle = bytes "TLE"
verdict_name ce = bytes "CE"
verdict_name mle = bytes "MLE"
verdict_name re = bytes "RE"

pub record CaseResult : Type 0 where
  pub index : ℕ
  pub verdict : Verdict
  pub time_ms : ℕ
  pub memory_mb : ℕ
  pub expected : Bytes
  pub actual : Bytes

pub record SubmissionResult : Type 0 where
  pub verdict : Verdict
  pub time_ms : ℕ
  pub memory_mb : ℕ
  pub compile_output : Bytes
  pub per_case : List CaseResult

-- `SubmissionResult result;`
abbrev pub empty_result : SubmissionResult
empty_result = record {
  verdict = ac;
  time_ms = 0;
  memory_mb = 0;
  compile_output = [];
  per_case = [];
}

-- `if (verdict == Verdict::AC)`
abbrev pub is_ac : Verdict → Bool
is_ac ac = true
is_ac _ = false

abbrev pub is_wa : Verdict → Bool
is_wa wa = true
is_wa _ = false
