-- ===== src/Types/Names.antt =====
-- The names of difficulties and verdicts, and their parsing (backend/src/util/types.cpp).
use oj_vibe_coding.Base.{◌≡◌, refl, ◌↔◌, arith}
use oj_vibe_coding.Base.Result.{ok}
use oj_vibe_coding.Text.{Bytes, bytes, eqb, eq_of_eqb}
use oj_vibe_coding.Types.{Difficulty, easy, medium, hard, parse_difficulty, difficulty_name}

parse-difficulty_name : (d : Difficulty) → parse_difficulty (difficulty_name d) ≡ ok d
unfolding parse_difficulty difficulty_name eqb bytes
parse-difficulty_name easy = refl
parse-difficulty_name medium = refl
parse-difficulty_name hard = refl

name-parse_difficulty :
    (value : Bytes) (d : Difficulty) → parse_difficulty value ≡ ok d → value ≡ difficulty_name d
unfolding parse_difficulty difficulty_name
name-parse_difficulty value d h = ground (
  arith,
  eq_of_eqb value (bytes "easy"),
  eq_of_eqb value (bytes "medium"),
  eq_of_eqb value (bytes "hard"),
)

-- Parsing accepts exactly the three names that are written to the database and to clients, each
-- back to its difficulty.
pub parse_difficulty_iff :
    (value : Bytes) (d : Difficulty) → (parse_difficulty value ≡ ok d) ↔ (value ≡ difficulty_name d)
parse_difficulty_iff value d = (name-parse_difficulty value d, λ e. rw e (parse-difficulty_name d))
