-- ===== src/Db/Problems/Statements.antt =====
-- The SQL texts of backend/src/db/problem_dao.cpp.
use oj_vibe_coding.Types.{Difficulty, difficulty_name}
use oj_vibe_coding.Auth.Session.{decimal}
use oj_vibe_coding.Http.Requests.{ProblemInput}
use oj_vibe_coding.Base.{ℕ, Bool, Option, none, some, List, [], ◌∷◌, ◌++◌, if◌then◌else◌, is_empty}
use oj_vibe_coding.Text.{Bytes, bytes}

-- The tags of a problem, with these columns.
unfoldable pub tags_select : Bytes → ℕ → Bytes
tags_select columns problem_id =
    bytes "SELECT "
    ++ columns
    ++ bytes " FROM tags t INNER JOIN problem_tags pt ON pt.tag_id = t.id WHERE pt.problem_id = "
    ++ decimal problem_id
    ++ bytes " ORDER BY t.name ASC"

unfoldable pub samples_select : ℕ → Bytes
samples_select problem_id =
    bytes "SELECT id, problem_id, input, expected_output FROM testcases WHERE problem_id = "
    ++ decimal problem_id
    ++ bytes " AND is_sample = TRUE ORDER BY id ASC"

unfoldable pub testcases_select : ℕ → Bytes
testcases_select problem_id =
    bytes "SELECT id, problem_id, input, expected_output, is_sample, score FROM testcases "
    ++ bytes "WHERE problem_id = "
    ++ decimal problem_id
    ++ bytes " ORDER BY id ASC"

-- `wheres[0] + " AND " + wheres[1] + ...`
unfoldable pub join_wheres : List Bytes → Bytes
join_wheres [] = []
join_wheres (w ∷ []) = w
join_wheres (w ∷ v ∷ rest) = w ++ bytes " AND " ++ join_wheres (v ∷ rest)

abbrev pub difficulty_where : Option Difficulty → List Bytes
difficulty_where none = []
difficulty_where (some d) = (bytes "p.difficulty = '" ++ difficulty_name d ++ bytes "'") ∷ []

abbrev pub tag_join : Option Bytes → Bytes
tag_join none = []
tag_join (some tag_esc) =
    bytes
      "INNER JOIN problem_tags pt ON pt.problem_id = p.id INNER JOIN tags t ON t.id = pt.tag_id "

abbrev pub tag_where : Option Bytes → List Bytes
tag_where none = []
tag_where (some tag_esc) = (bytes "t.name = '" ++ tag_esc ++ bytes "'") ∷ []

-- The list of problems, for a difficulty and an escaped tag.
unfoldable pub list_select : Option Difficulty → Option Bytes → Bytes
list_select difficulty tag_esc =
    let wheres = difficulty_where difficulty ++ tag_where tag_esc in
    bytes "SELECT p.id, p.title, p.difficulty, p.time_limit_ms, p.memory_limit_mb FROM problems p "
    ++ tag_join tag_esc
    ++ (if is_empty wheres then [] else bytes "WHERE " ++ join_wheres wheres ++ bytes " ")
    ++ bytes "ORDER BY p.id ASC"

abbrev pub problem_columns : Bytes
problem_columns =
    bytes
      "SELECT id, title, description_md, difficulty, time_limit_ms, memory_limit_mb FROM problems "

unfoldable pub problem_select : ℕ → Bytes
problem_select problem_id =
    problem_columns ++ bytes "WHERE id = " ++ decimal problem_id ++ bytes " LIMIT 1"

unfoldable pub all_select : Bytes
all_select = problem_columns ++ bytes "ORDER BY id ASC"

unfoldable pub exists_select : ℕ → Bytes
exists_select problem_id =
    bytes "SELECT id FROM problems WHERE id = " ++ decimal problem_id ++ bytes " LIMIT 1"

unfoldable pub tag_upsert : Bytes → Bytes
tag_upsert name_esc =
    bytes "INSERT INTO tags (name) VALUES ('"
    ++ name_esc
    ++ bytes "') ON DUPLICATE KEY UPDATE id = LAST_INSERT_ID(id)"

unfoldable pub tag_link : ℕ → ℕ → Bytes
tag_link problem_id tag_id =
    bytes "INSERT INTO problem_tags (problem_id, tag_id) VALUES ("
    ++ decimal problem_id
    ++ bytes ","
    ++ decimal tag_id
    ++ bytes ")"

unfoldable pub testcase_insert : ℕ → Bytes → Bytes → Bool → ℕ → Bytes
testcase_insert problem_id input_esc output_esc is_sample score =
    bytes "INSERT INTO testcases (problem_id, input, expected_output, is_sample, score) VALUES ("
    ++ decimal problem_id
    ++ bytes ",'"
    ++ input_esc
    ++ bytes "','"
    ++ output_esc
    ++ bytes "',"
    ++ (if is_sample then bytes "TRUE" else bytes "FALSE")
    ++ bytes ","
    ++ decimal score
    ++ bytes ")"

-- `DELETE FROM <table> WHERE <key> = <problem_id>`
unfoldable pub delete_where : Bytes → ℕ → Bytes
delete_where condition problem_id = bytes "DELETE FROM " ++ condition ++ decimal problem_id

unfoldable pub problem_insert : Bytes → Bytes → ProblemInput → Bytes
problem_insert title_esc desc_esc input =
    bytes
      "INSERT INTO problems (title, description_md, difficulty, time_limit_ms, memory_limit_mb) "
    ++ bytes "VALUES ('"
    ++ title_esc
    ++ bytes "','"
    ++ desc_esc
    ++ bytes "','"
    ++ difficulty_name input.difficulty
    ++ bytes "',"
    ++ decimal input.time_limit_ms
    ++ bytes ","
    ++ decimal input.memory_limit_mb
    ++ bytes ")"

unfoldable pub problem_update : Bytes → Bytes → ℕ → ProblemInput → Bytes
problem_update title_esc desc_esc problem_id input =
    bytes "UPDATE problems SET title='"
    ++ title_esc
    ++ bytes "', description_md='"
    ++ desc_esc
    ++ bytes "', difficulty='"
    ++ difficulty_name input.difficulty
    ++ bytes "', time_limit_ms="
    ++ decimal input.time_limit_ms
    ++ bytes ", memory_limit_mb="
    ++ decimal input.memory_limit_mb
    ++ bytes " WHERE id="
    ++ decimal problem_id
