-- ===== src/Http/Handlers/Admin.antt =====
-- backend/src/http/handlers_admin.cpp
pub mod Creating
mod Tests
use oj_vibe_coding.Types.{AdminProblemDetail}
use oj_vibe_coding.Db.Problems.{
  list_full_problems, get_full_problem, create_problem, update_problem, delete_problem,
}
use oj_vibe_coding.Db.SeedLoader.{Files, reset_problem_bank}
use oj_vibe_coding.Http.Message.{Response, Json}
use oj_vibe_coding.Http.Cookie.{write_json, write_error}
use oj_vibe_coding.Http.Dto.{with_fields, admin_details_json, admin_detail_json}
use oj_vibe_coding.Http.Requests.{parse_json_body, parse_problem_input}
use oj_vibe_coding.Http.Handlers.{Handler, failed, rejected, parse_problem_id}
use oj_vibe_coding.Base.{
  Bool, not, Option, none, some, List, [], ◌∷◌, ◌++◌, ◌==◌, if◌then◌else◌, is_empty,
}
use oj_vibe_coding.Text.{Bytes, bytes}
use oj_vibe_coding.Base.Effect.{pure, from_result, ◌>>=◌, attempt}
use oj_vibe_coding.Db.Client.{Mysql, Dao}

-- What `resolveSeedJsonPath` looks at: the variable MINIOJ_SEED_JSON, the target of /proc/self/exe, and
-- the files.
pub record Surroundings : Type 0 where
  pub seed_json : Option Bytes
  pub self_exe : Option Bytes
  pub files : Files

-- The text in front of the last '/', if there is one.
unfoldable pub before_last_slash : Bytes → Option Bytes
before_last_slash [] = none
before_last_slash (c ∷ s) = elim (before_last_slash s) [
  | some dir ↦ some (c ∷ dir)
  | none ↦ if c == b'/' then some [] else none
]

unfoldable pub read_self_exe_dir : Option Bytes → Bytes
read_self_exe_dir none = []
read_self_exe_dir (some exe) = elim (before_last_slash exe) [ none ↦ [] | some dir ↦ dir ]

abbrev pub default_seed : Bytes
default_seed = bytes "backend/seed/problems.json"

-- The candidates beside the program, which stands in `dir`.
abbrev pub beside : Bytes → List Bytes
beside dir =
    (dir ++ bytes "/../seed/problems.json")
    ∷ (dir ++ bytes "/../../seed/problems.json")
    ∷ (dir ++ bytes "/seed/problems.json")
    ∷ []

unfoldable pub first_existing : Files → List Bytes → Bytes
first_existing files [] = default_seed
first_existing files (c ∷ rest) = elim (files c) [
  | some content ↦ c
  | none ↦ first_existing files rest
]

unfoldable pub search_seed : Files → Bytes → Bytes
search_seed files self_dir =
    first_existing files (default_seed ∷ (if is_empty self_dir then [] else beside self_dir))

unfoldable pub resolve_seed_json_path : Surroundings → Bytes
resolve_seed_json_path around = elim around.seed_json [
  | some (c ∷ path) ↦ c ∷ path
  | some [] ↦ search_seed around.files (read_self_exe_dir around.self_exe)
  | none ↦ search_seed around.files (read_self_exe_dir around.self_exe)
]

module _ (j : Json) (m : Mysql) where
  open j use {object_value, uint_value, string_value}

  unfoldable pub list_admin_problems_handler : Handler m
  list_admin_problems_handler req res =
      attempt (list_full_problems m) (failed j m (bytes "database error: ") res)
        λ problems. pure (write_json j 200 (admin_details_json j problems) res)

  unfoldable pub create_problem_handler : Handler m
  create_problem_handler req res =
      attempt
        (do
          body ← from_result (parse_json_body j req.body)
          input ← from_result (parse_problem_input j body)
          create_problem m input)
        (rejected j m (bytes "database error: ") res)
        λ id.
          pure
            (write_json j 201 (with_fields j object_value ((bytes "id", uint_value id) ∷ [])) res)

  unfoldable pub answer_full : Response → Option AdminProblemDetail → Dao m Response
  answer_full res none = pure (write_error j 404 (bytes "problem not found") res)
  answer_full res (some detail) = pure (write_json j 200 (admin_detail_json j detail) res)

  unfoldable pub get_admin_problem_handler : Handler m
  get_admin_problem_handler req res = elim (parse_problem_id req) [
    | none ↦ pure (write_error j 400 (bytes "invalid problem id") res)
    | some id ↦
        attempt (get_full_problem m id) (failed j m (bytes "database error: ") res)
          (answer_full res)
  ]

  -- `if (!found) { writeError(404); return; } res.status = 204;`
  unfoldable pub answer_found : Response → Bool → Dao m Response
  answer_found res found =
      if not found
      then pure (write_error j 404 (bytes "problem not found") res)
      else pure (record res { status = 204 })

  unfoldable pub update_problem_handler : Handler m
  update_problem_handler req res = elim (parse_problem_id req) [
    | none ↦ pure (write_error j 400 (bytes "invalid problem id") res)
    | some id ↦
        attempt
          (do
            body ← from_result (parse_json_body j req.body)
            input ← from_result (parse_problem_input j body)
            update_problem m id input)
          (rejected j m (bytes "database error: ") res) (answer_found res)
  ]

  unfoldable pub delete_problem_handler : Handler m
  delete_problem_handler req res = elim (parse_problem_id req) [
    | none ↦ pure (write_error j 400 (bytes "invalid problem id") res)
    | some id ↦
        attempt (delete_problem m id) (failed j m (bytes "database error: ") res) (answer_found res)
  ]

  unfoldable pub reset_problem_bank_handler : Surroundings → Handler m
  reset_problem_bank_handler around req res =
      let seed_path = resolve_seed_json_path around in
      attempt (reset_problem_bank m j around.files seed_path)
        (failed j m (bytes "reset failed: ") res)
        λ done. pure (
          write_json j 200
            (with_fields j object_value (
              (bytes "message", string_value (bytes "problem bank reset to seed data"))
              ∷ (bytes "seed", string_value seed_path)
              ∷ []))
            res)
