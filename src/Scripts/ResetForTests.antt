-- ===== src/Scripts/ResetForTests.antt =====
-- backend/scripts/reset_for_tests.cpp, less its log and what it prints. The default path and the
-- escaping of names are the same text as in seed.cpp, and so are their models.
use oj_vibe_coding.Config.Numbers.{stoull}
use oj_vibe_coding.Auth.Password.{hash_password}
use oj_vibe_coding.Db.Users.{create_user}
use oj_vibe_coding.Db.SeedLoader.{
  reset_ai, execute_all, clear_problem_bank, load_problems_from_json,
}
use oj_vibe_coding.Http.Message.{Json}
use oj_vibe_coding.Http.Handlers.Auth.{AuthHost}
use oj_vibe_coding.Scripts.Seed.{SeedHost, default_seed_path, escape_quotes, admin_delete}
use oj_vibe_coding.Base.{
  ℕ, Bool, true, false, ◌||◌, Option, none, some, List, [], ◌∷◌, ◌++◌, ltb, if◌then◌else◌, length,
}
use oj_vibe_coding.Base.Result.{Exception, other, Result, ok, err}
use oj_vibe_coding.Text.{Bytes, bytes, eqb}
use oj_vibe_coding.Base.Effect.{pure, from_result, gets, ◌>>=◌, ◌>>◌}
use oj_vibe_coding.Db.Client.{Row, Mysql, column, Dao, execute, using_lease}

pub record Options : Type 0 where
  pub seed_json : Bytes
  pub admin_username : Bytes
  pub admin_password : Bytes
  pub keep_webtest_users : Bool

-- How the reading of the arguments ends: with options, with the help text, or with an exception.
pub data Parsed : Type 0 where
  options : Options → Parsed
  help : Parsed
  malformed : Exception → Parsed

-- What the chain of comparisons takes an argument for.
pub data Flag : Type 0 where
  seed_json_flag username_flag password_flag keep_flag help_flag unknown_flag : Flag

unfoldable pub flag_of : Bytes → Flag
flag_of arg =
    if eqb arg (bytes "--seed-json")
    then seed_json_flag
    else if eqb arg (bytes "--admin-username")
    then username_flag
    else if eqb arg (bytes "--admin-password")
    then password_flag
    else if eqb arg (bytes "--keep-webtest-users")
    then keep_flag
    else if eqb arg (bytes "--help") || eqb arg (bytes "-h")
    then help_flag
    else unknown_flag

abbrev pub unknown_argument : Bytes → Parsed
unknown_argument arg = malformed (other (bytes "unknown or malformed argument: " ++ arg))

unfoldable pub parse_loop : Options → List Bytes → Parsed
parse_loop opts [] = options opts
parse_loop opts (arg ∷ []) = elim (flag_of arg) [
  | keep_flag ↦ options (record opts { keep_webtest_users = true })
  | help_flag ↦ help
  | seed_json_flag ↦ unknown_argument arg
  | username_flag ↦ unknown_argument arg
  | password_flag ↦ unknown_argument arg
  | unknown_flag ↦ unknown_argument arg
]
parse_loop opts (arg ∷ value ∷ rest) = elim (flag_of arg) [
  | keep_flag ↦ parse_loop (record opts { keep_webtest_users = true }) (value ∷ rest)
  | help_flag ↦ help
  | seed_json_flag ↦ parse_loop (record opts { seed_json = value }) rest
  | username_flag ↦ parse_loop (record opts { admin_username = value }) rest
  | password_flag ↦ parse_loop (record opts { admin_password = value }) rest
  | unknown_flag ↦ unknown_argument arg
]

unfoldable pub check_options : Parsed → Parsed
check_options help = help
check_options (malformed e) = malformed e
check_options (options opts) =
    if ltb (length opts.admin_username) 3 || ltb 20 (length opts.admin_username)
    then malformed (other (bytes "admin username must be 3-20 characters"))
    else if ltb (length opts.admin_password) 8 || ltb 64 (length opts.admin_password)
    then malformed (other (bytes "admin password must be 8-64 characters"))
    else options opts

unfoldable pub parse_args : SeedHost → List Bytes → Parsed
parse_args host args = check_options (
    parse_loop
      (record {
        seed_json = default_seed_path host;
        admin_username = bytes "admin";
        admin_password = bytes "admin123";
        keep_webtest_users = false;
      })
      args)

-- The first column of the first row as a number. A NULL there is read as empty, where the code would
-- read a null pointer; neither of the two queries gives one.
unfoldable pub first_number : Option (List Row) → Result (Option ℕ)
first_number none = ok none
first_number (some []) = ok none
first_number (some (row ∷ rest)) = elim (stoull (column row 0)) [
  | err e ↦ err e
  | ok parsed ↦ ok (some parsed.0)
]

abbrev pub or_zero : Option ℕ → ℕ
or_zero none = 0
or_zero (some n) = n

unfoldable pub webtest_delete : Bytes
webtest_delete =
    bytes "DELETE FROM users WHERE username LIKE 'webtest" ++ (92 ∷ 92 ∷ []) ++ bytes "_%'"

module _ (m : Mysql) where
  unfoldable pub reset_auto_increment : Dao m (Unit {0})
  reset_auto_increment =
      using_lease m (execute_all m (bytes "reset auto_increment failed: ") reset_ai)

  -- mysql_store_result, where a null pointer is no error.
  unfoldable pub store_or_none : Dao m (Option (List Row))
  store_or_none c =
      let (rows, server') = m.store_result c.server in (ok rows, record c { server = server' })

  -- A query for one number.
  unfoldable pub query_number : Bytes → Bytes → Dao m (Option ℕ)
  query_number sql context = do
    execute m sql context
    rows ← store_or_none
    from_result (first_number rows)

  unfoldable pub find_user_id : Bytes → Dao m (Option ℕ)
  find_user_id username = using_lease m (
      query_number
        (bytes "SELECT id FROM users WHERE username = '" ++ escape_quotes username ++ bytes "'")
        (bytes "find user failed: "))

  -- `execOrThrow` of the deletion, if there is an account.
  unfoldable pub delete_existing : Bytes → Option ℕ → Dao m (Unit {0})
  delete_existing username none = pure tt
  delete_existing username (some id) =
      using_lease m (execute m (admin_delete username) (bytes "delete existing admin failed: "))

  unfoldable pub upsert_admin : AuthHost → Options → Dao m ℕ
  upsert_admin host opts = do
    hash ← from_result (hash_password host.crypt host.crypt_error opts.admin_password host.salt)
    existing ← find_user_id opts.admin_username
    delete_existing opts.admin_username existing
    create_user m opts.admin_username hash (bytes "admin")

  unfoldable pub cleanup_webtest_users : Dao m ℕ
  cleanup_webtest_users = using_lease m (do
    execute m webtest_delete (bytes "cleanup webtest users failed: ")
    gets (λ c. m.affected_rows c.server))

  -- The numbers of problems and of test cases.
  unfoldable pub report_problem_bank : Dao m (ℕ × ℕ)
  report_problem_bank = using_lease m (do
    problems ←
        query_number (bytes "SELECT COUNT(*) FROM problems") (bytes "count problems failed: ")
    testcases ←
        query_number (bytes "SELECT COUNT(*) FROM testcases") (bytes "count testcases failed: ")
    pure (or_zero problems, or_zero testcases))

  unfoldable pub cleanup_unless : Bool → Dao m ℕ
  cleanup_unless keep = if keep then pure 0 else cleanup_webtest_users

  -- `main` behind the reading of the arguments.
  unfoldable pub reset_for_tests : Json → SeedHost → AuthHost → Options → Dao m (ℕ × ℕ)
  reset_for_tests j around host opts = do
    clear_problem_bank m
    reset_auto_increment
    load_problems_from_json m j around.files opts.seed_json
    id ← upsert_admin host opts
    deleted ← cleanup_unless opts.keep_webtest_users
    report_problem_bank
