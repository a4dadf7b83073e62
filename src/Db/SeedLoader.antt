-- ===== src/Db/SeedLoader.antt =====
-- backend/src/db/seed_loader.cpp. The content of a file is `none` if it does not open.
pub mod Loss
mod Tests
use oj_vibe_coding.Auth.Session.{decimal}
use oj_vibe_coding.Db.Problems.{create_problem}
use oj_vibe_coding.Http.Message.{Json}
use oj_vibe_coding.Http.Requests.{parse_problem_input}
use oj_vibe_coding.Base.{ℕ, ◌+◌, ◌-◌, not, Option, none, some, List, [], ◌∷◌, ◌++◌, if◌then◌else◌}
use oj_vibe_coding.Base.Result.{other, what, Result, ok, err}
use oj_vibe_coding.Text.{Bytes, bytes}
use oj_vibe_coding.Base.Effect.{pure, throw, from_result, ◌>>=◌, ◌>>◌, attempt}
use oj_vibe_coding.Db.Client.{Mysql, Dao, execute, using_lease}

abbrev pub Files : Type 0
Files = Bytes → Option Bytes

unfoldable pub read_file_to_string : Files → Bytes → Result Bytes
read_file_to_string files path = elim (files path) [
  | none ↦ err (other (bytes "failed to open seed file: " ++ path))
  | some raw ↦ ok raw
]

abbrev pub clear_statements : List Bytes
clear_statements =
    bytes "DELETE FROM problem_tags"
    ∷ bytes "DELETE FROM testcases"
    ∷ bytes "DELETE FROM problems"
    ∷ bytes "DELETE FROM tags"
    ∷ []

abbrev pub reset_ai : List Bytes
reset_ai =
    bytes "ALTER TABLE problems AUTO_INCREMENT = 1"
    ∷ bytes "ALTER TABLE testcases AUTO_INCREMENT = 1"
    ∷ bytes "ALTER TABLE tags AUTO_INCREMENT = 1"
    ∷ []

module _ (m : Mysql) where
  -- `for (const char* sql : statements)`
  unfoldable pub execute_all : Bytes → List Bytes → Dao m (Unit {0})
  execute_all context [] = pure tt
  execute_all context (sql ∷ rest) = do execute m sql context; execute_all context rest

  unfoldable pub clear_problem_bank : Dao m (Unit {0})
  clear_problem_bank = using_lease m (do
    execute_all (bytes "clearProblemBank failed: ") clear_statements
    execute_all (bytes "clearProblemBank reset auto_increment failed: ") reset_ai)

  module _ (j : Json) where
    open j use {Value, parse, parse_errors, is_array, elements}

    -- The body of the loop, with the exception that it turns every other into.
    unfoldable pub load_entry : ℕ → Value → Dao m (Unit {0})
    load_entry index entry =
        attempt (do input ← from_result (parse_problem_input j entry); create_problem m input)
          (λ e.
            throw (other (bytes "seed entry #" ++ decimal index ++ bytes " failed: " ++ what e)))
          λ id. pure tt

    unfoldable pub load_entries : ℕ → List Value → Dao m (Unit {0})
    load_entries index [] = pure tt
    load_entries index (entry ∷ rest) = do load_entry index entry; load_entries (index + 1) rest

    unfoldable pub parse_seed : Bytes → Bytes → Result (List Value)
    parse_seed json_path raw = elim (parse raw) [
      | none ↦ err (
          other (
            bytes "seed JSON parse failed: "
            ++ parse_errors raw
            ++ bytes " (file="
            ++ json_path
            ++ bytes ")"))
      | some root ↦
          if not (is_array root)
          then err (other (bytes "seed JSON must be a top-level array"))
          else ok (elements root)
    ]

    unfoldable pub load_problems_from_json : Files → Bytes → Dao m (Unit {0})
    load_problems_from_json files json_path = do
      raw ← from_result (read_file_to_string files json_path)
      entries ← from_result (parse_seed json_path raw)
      load_entries 0 entries

    unfoldable pub reset_problem_bank : Files → Bytes → Dao m (Unit {0})
    reset_problem_bank files seed_json_path = do
      clear_problem_bank
      load_problems_from_json files seed_json_path
