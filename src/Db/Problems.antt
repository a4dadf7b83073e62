-- ===== src/Db/Problems.antt =====
-- backend/src/db/problem_dao.cpp
pub mod Rows
pub mod Statements
pub mod Transactions
pub mod Atomic
pub mod Update
mod Tests
use oj_vibe_coding.Types.{
  Tag, TestCase, ProblemSummary, ProblemDetail, AdminTestCase, AdminProblemDetail, ProblemFilters,
}
use oj_vibe_coding.Http.Requests.{TestCaseInput, ProblemInput}
use oj_vibe_coding.Db.Problems.Rows.{
  read_rows, read_tag_name, read_tag, read_sample, read_testcase, read_summary, read_detail,
  read_full,
}
use oj_vibe_coding.Db.Problems.Statements.{
  tags_select, samples_select, testcases_select, list_select, problem_select, all_select,
  exists_select, tag_upsert, tag_link, testcase_insert, delete_where, problem_insert,
  problem_update,
}
use oj_vibe_coding.Base.{
  ℕ, ◌+◌, Bool, true, false, not, Option, none, some, List, [], ◌∷◌, ◌++◌, ltb, if◌then◌else◌,
  is_empty,
}
use oj_vibe_coding.Base.Result.{Exception}
use oj_vibe_coding.Text.{Bytes, bytes}
use oj_vibe_coding.Base.Effect.{Effect, pure, throw, from_result, gets, ◌>>=◌, ◌>>◌, attempt}
use oj_vibe_coding.Db.Client.{Row, Mysql, Client, Dao, send, execute, select, escape, using_lease}

module _ (m : Mysql) where
  unfoldable pub tag_names_for_problem : ℕ → Dao m (List Bytes)
  tag_names_for_problem problem_id = do
    rows ←
        select m (tags_select (bytes "t.name") problem_id) (bytes "tag query failed: ")
          (bytes "tag query store failed: ")
    from_result (read_rows read_tag_name rows)

  unfoldable pub tags_with_id_for_problem : ℕ → Dao m (List Tag)
  tags_with_id_for_problem problem_id = do
    rows ←
        select m (tags_select (bytes "t.id, t.name") problem_id) (bytes "tag query failed: ")
          (bytes "tag query store failed: ")
    from_result (read_rows read_tag rows)

  unfoldable pub sample_testcases : ℕ → Dao m (List TestCase)
  sample_testcases problem_id = do
    rows ←
        select m (samples_select problem_id) (bytes "sample testcase query failed: ")
          (bytes "sample testcase store failed: ")
    from_result (read_rows read_sample rows)

  unfoldable pub all_testcases : ℕ → Dao m (List AdminTestCase)
  all_testcases problem_id = do
    rows ←
        select m (testcases_select problem_id) (bytes "testcase query failed: ")
          (bytes "testcase store failed: ")
    from_result (read_rows read_testcase rows)

  -- `executeQuery(connection, sql, context)`
  unfoldable pub execute_query : Bytes → Bytes → Dao m (Unit {0})
  execute_query sql context = execute m sql (context ++ bytes " failed: ")

  -- The destructor of `Transaction`, when `finished_` is false; its outcome is not looked at.
  unfoldable pub roll_back {ℓ} : {A : Type ℓ} → Exception → Effect (Client m) A
  roll_back e = do done ← send m (bytes "ROLLBACK"); throw e

  unfoldable pub start_transaction : Dao m (Unit {0})
  start_transaction = execute m (bytes "START TRANSACTION") (bytes "transaction start failed: ")

  unfoldable pub commit : Dao m (Unit {0})
  commit = execute m (bytes "COMMIT") (bytes "commit failed: ")

  -- `Transaction tx(connection); ...; tx.commit(); return ...;`
  unfoldable pub in_transaction {ℓ} : {A : Type ℓ} → Effect (Client m) A → Effect (Client m) A
  in_transaction body =
      start_transaction >> attempt body roll_back λ a. attempt commit roll_back λ done. pure a

  unfoldable pub insert_problem_tags : ℕ → List Bytes → Dao m (Unit {0})
  insert_problem_tags problem_id [] = pure tt
  insert_problem_tags problem_id (name ∷ rest) = do
    name_esc ← escape m name
    execute_query (tag_upsert name_esc) (bytes "tag upsert")
    tag_id ← gets (λ c. m.insert_id c.server)
    execute_query (tag_link problem_id tag_id) (bytes "problem_tag link")
    insert_problem_tags problem_id rest

  unfoldable pub insert_testcases : ℕ → List TestCaseInput → Dao m (Unit {0})
  insert_testcases problem_id [] = pure tt
  insert_testcases problem_id (tc ∷ rest) = do
    input_esc ← escape m tc.input
    output_esc ← escape m tc.expected_output
    execute_query (testcase_insert problem_id input_esc output_esc tc.is_sample tc.score)
        (bytes "testcase insert")
    insert_testcases problem_id rest

  unfoldable pub replace_tags_and_testcases : ℕ → ProblemInput → Dao m (Unit {0})
  replace_tags_and_testcases problem_id input = do
    execute_query (delete_where (bytes "problem_tags WHERE problem_id = ") problem_id)
        (bytes "problem_tag delete")
    insert_problem_tags problem_id input.tags
    execute_query (delete_where (bytes "testcases WHERE problem_id = ") problem_id)
        (bytes "testcase delete")
    insert_testcases problem_id input.testcases

  unfoldable pub problem_exists : ℕ → Dao m Bool
  problem_exists problem_id = do
    rows ←
        select m (exists_select problem_id) (bytes "existence check failed: ")
          (bytes "existence store failed: ")
    pure (not (is_empty rows))

  -- The escaped tag of the filters, if they have one.
  unfoldable pub escape_tag : Option Bytes → Dao m (Option Bytes)
  escape_tag none = pure none
  escape_tag (some tag) = do tag_esc ← escape m tag; pure (some tag_esc)

  unfoldable pub with_tag_names : List Row → Dao m (List ProblemSummary)
  with_tag_names [] = pure []
  with_tag_names (row ∷ rest) = do
    summary ← from_result (read_summary row)
    tags ← tag_names_for_problem summary.id
    later ← with_tag_names rest
    pure (record summary { tags = tags } ∷ later)

  unfoldable pub list_problems : ProblemFilters → Dao m (List ProblemSummary)
  list_problems filters = using_lease m (do
    tag_esc ← escape_tag filters.tag
    rows ←
        select m (list_select filters.difficulty tag_esc) (bytes "problem list query failed: ")
          (bytes "problem list store failed: ")
    with_tag_names rows)

  unfoldable pub first_detail : List Row → Dao m (Option ProblemDetail)
  first_detail [] = pure none
  first_detail (row ∷ rest) = do
    detail ← from_result (read_detail row)
    samples ← sample_testcases detail.id
    tags ← tags_with_id_for_problem detail.id
    pure (some (record detail { sample_testcases = samples; tags = tags }))

  unfoldable pub get_problem_detail : ℕ → Dao m (Option ProblemDetail)
  get_problem_detail problem_id = using_lease m (do
    rows ←
        select m (problem_select problem_id) (bytes "problem detail query failed: ")
          (bytes "problem detail store failed: ")
    first_detail rows)

  unfoldable pub full_detail : Row → Dao m AdminProblemDetail
  full_detail row = do
    detail ← from_result (read_full row)
    tags ← tags_with_id_for_problem detail.id
    testcases ← all_testcases detail.id
    pure (record detail { tags = tags; testcases = testcases })

  unfoldable pub full_details : List Row → Dao m (List AdminProblemDetail)
  full_details [] = pure []
  full_details (row ∷ rest) = do
    detail ← full_detail row
    later ← full_details rest
    pure (detail ∷ later)

  unfoldable pub list_full_problems : Dao m (List AdminProblemDetail)
  list_full_problems = using_lease m (do
    rows ←
        select m all_select (bytes "admin problem list failed: ")
          (bytes "admin problem list store failed: ")
    full_details rows)

  unfoldable pub first_full : List Row → Dao m (Option AdminProblemDetail)
  first_full [] = pure none
  first_full (row ∷ rest) = do detail ← full_detail row; pure (some detail)

  unfoldable pub get_full_problem : ℕ → Dao m (Option AdminProblemDetail)
  get_full_problem problem_id = using_lease m (do
    rows ←
        select m (problem_select problem_id) (bytes "admin problem detail failed: ")
          (bytes "admin problem detail store failed: ")
    first_full rows)

  -- `createProblem` between the start of the transaction and its commit.
  unfoldable pub insert_problem : ProblemInput → Dao m ℕ
  insert_problem input = do
    title_esc ← escape m input.title
    desc_esc ← escape m input.description_md
    execute_query (problem_insert title_esc desc_esc input) (bytes "problem insert")
    problem_id ← gets (λ c. m.insert_id c.server)
    insert_problem_tags problem_id input.tags
    insert_testcases problem_id input.testcases
    pure problem_id

  unfoldable pub create_problem : ProblemInput → Dao m ℕ
  create_problem input = using_lease m (in_transaction (insert_problem input))

  -- `updateProblem` between the start of the transaction and its commit.
  unfoldable pub change_problem : ℕ → ProblemInput → Dao m Bool
  change_problem problem_id input = do
    title_esc ← escape m input.title
    desc_esc ← escape m input.description_md
    execute_query (problem_update title_esc desc_esc problem_id input) (bytes "problem update")
    replace_tags_and_testcases problem_id input
    pure true

  unfoldable pub update_problem : ℕ → ProblemInput → Dao m Bool
  update_problem problem_id input = using_lease m (do
    found ← problem_exists problem_id
    if not found then pure false else in_transaction (change_problem problem_id input))

  unfoldable pub delete_problem : ℕ → Dao m Bool
  delete_problem problem_id = using_lease m (do
    execute_query (delete_where (bytes "problems WHERE id = ") problem_id) (bytes "problem delete")
    gets (λ c. ltb 0 (m.affected_rows c.server)))
