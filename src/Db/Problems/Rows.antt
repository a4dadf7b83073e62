-- ===== src/Db/Problems/Rows.antt =====
-- The rows that backend/src/db/problem_dao.cpp reads.
use oj_vibe_coding.Config.Numbers.{stoull, stoul}
use oj_vibe_coding.Types.{
  parse_difficulty, Tag, TestCase, ProblemSummary, ProblemDetail, AdminTestCase, AdminProblemDetail,
}
use oj_vibe_coding.Db.Client.{Row, column}
use oj_vibe_coding.Base.{ℕ, ◌%◌, ◌^◌, true, List, [], ◌∷◌}
use oj_vibe_coding.Base.Result.{Result, ok, ◌>>=◌}
use oj_vibe_coding.Text.{Bytes, bytes, eqb}

-- `std::stoull(column(row, lengths[index], index))`
unfoldable pub number_at : Row → ℕ → Result ℕ
number_at row index = do parsed ← stoull (column row index); ok parsed.0

-- `static_cast<std::uint32_t>(std::stoul(...))`
unfoldable pub uint32_at : Row → ℕ → Result ℕ
uint32_at row index = do parsed ← stoul (column row index); ok (parsed.0 % 2 ^ 32)

-- `while (MYSQL_ROW row = mysql_fetch_row(res))` around one reader.
unfoldable pub read_rows : {A : Type 0} → (Row → Result A) → List Row → Result (List A)
read_rows read [] = ok []
read_rows read (row ∷ rest) = do first ← read row; later ← read_rows read rest; ok (first ∷ later)

unfoldable pub read_tag_name : Row → Result Bytes
read_tag_name row = ok (column row 0)

unfoldable pub read_tag : Row → Result Tag
unfolding number_at
read_tag row = do id ← number_at row 0; ok (record { id = id; name = column row 1 })

unfoldable pub read_sample : Row → Result TestCase
unfolding number_at
read_sample row = do
  id ← number_at row 0
  problem_id ← number_at row 1
  ok (record {
    id = id;
    problem_id = problem_id;
    input = column row 2;
    expected_output = column row 3;
    is_sample = true;
  })

unfoldable pub read_testcase : Row → Result AdminTestCase
unfolding number_at uint32_at
read_testcase row = do
  id ← number_at row 0
  problem_id ← number_at row 1
  score ← uint32_at row 5
  ok (record {
    id = id;
    problem_id = problem_id;
    input = column row 2;
    expected_output = column row 3;
    is_sample = eqb (column row 4) (bytes "1");
    score = score;
  })

-- A problem of a list, before its tags are read.
unfoldable pub read_summary : Row → Result ProblemSummary
unfolding number_at uint32_at
read_summary row = do
  id ← number_at row 0
  difficulty ← parse_difficulty (column row 2)
  time_limit_ms ← uint32_at row 3
  memory_limit_mb ← uint32_at row 4
  ok (record {
    id = id;
    title = column row 1;
    difficulty = difficulty;
    time_limit_ms = time_limit_ms;
    memory_limit_mb = memory_limit_mb;
    tags = [];
  })

-- A problem, before its samples and tags are read.
unfoldable pub read_detail : Row → Result ProblemDetail
unfolding number_at uint32_at
read_detail row = do
  id ← number_at row 0
  difficulty ← parse_difficulty (column row 3)
  time_limit_ms ← uint32_at row 4
  memory_limit_mb ← uint32_at row 5
  ok (record {
    id = id;
    title = column row 1;
    description_md = column row 2;
    difficulty = difficulty;
    time_limit_ms = time_limit_ms;
    memory_limit_mb = memory_limit_mb;
    sample_testcases = [];
    tags = [];
  })

-- A problem for administrators, before its tags and test cases are read.
unfoldable pub read_full : Row → Result AdminProblemDetail
unfolding number_at uint32_at
read_full row = do
  id ← number_at row 0
  difficulty ← parse_difficulty (column row 3)
  time_limit_ms ← uint32_at row 4
  memory_limit_mb ← uint32_at row 5
  ok (record {
    id = id;
    title = column row 1;
    description_md = column row 2;
    difficulty = difficulty;
    time_limit_ms = time_limit_ms;
    memory_limit_mb = memory_limit_mb;
    tags = [];
    testcases = [];
  })
