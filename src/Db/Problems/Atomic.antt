-- ===== src/Db/Problems/Atomic.antt =====
-- That the changes of backend/src/db/problem_dao.cpp are made as a whole or not at all.
use oj_vibe_coding.Base.{ℕ, ◌≡◌, refl, Bool, true, List, [], ◌∷◌, ◌++◌}
use oj_vibe_coding.Base.Result.{ok}
use oj_vibe_coding.Text.{Bytes, bytes, eqb}
use oj_vibe_coding.Db.Client.{Mysql, Client}
use oj_vibe_coding.Db.Client.Plain.{
  is_plain, Adds, IsPlain, bind-IsPlain, then-IsPlain, result-IsPlain, execute-IsPlain,
  escape-IsPlain, gets-IsPlain,
}
use oj_vibe_coding.Db.Problems.Transactions.{
  Transacts, Lends, in_transaction-Transacts, using_lease-Lends,
}
use oj_vibe_coding.Db.Problems.Statements.{
  tag_upsert, tag_link, testcase_insert, delete_where, problem_insert, problem_update,
}
use oj_vibe_coding.Db.Problems.{
  execute_query, insert_problem_tags, create_problem, delete_where, replace_tags_and_testcases,
  change_problem, problem_update, insert_testcases, problem_insert, insert_problem, testcase_insert,
  TestCaseInput, ProblemInput,
}
use oj_vibe_coding.Base.Result.{ok}
use oj_vibe_coding.Db.Client.{Mysql, Client}

module _ (m : Mysql) where
  execute_query-IsPlain :
      (sql context : Bytes) → is_plain sql ≡ true → IsPlain m (execute_query m sql context)
  unfolding execute_query
  execute_query-IsPlain sql context h = execute-IsPlain m sql (context ++ bytes " failed: ") h

  tag_upsert-plain : (name : Bytes) → is_plain (tag_upsert name) ≡ true
  unfolding is_plain tag_upsert bytes eqb
  tag_upsert-plain name = refl

  tag_link-plain : (a b : ℕ) → is_plain (tag_link a b) ≡ true
  unfolding is_plain tag_link bytes eqb
  tag_link-plain a b = refl

  testcase_insert-plain :
      (id : ℕ) (input output : Bytes) (sample : Bool) (score : ℕ)
      → is_plain (testcase_insert id input output sample score) ≡ true
  unfolding is_plain testcase_insert bytes eqb
  testcase_insert-plain id input output sample score = refl

  delete_where-plain : (condition : Bytes) (id : ℕ) → is_plain (delete_where condition id) ≡ true
  unfolding is_plain delete_where bytes eqb
  delete_where-plain condition id = refl

  problem_insert-plain :
      (title description : Bytes) (input : ProblemInput)
      → is_plain (problem_insert title description input) ≡ true
  unfolding is_plain problem_insert bytes eqb
  problem_insert-plain title description input = refl

  problem_update-plain :
      (title description : Bytes) (id : ℕ) (input : ProblemInput)
      → is_plain (problem_update title description id input) ≡ true
  unfolding is_plain problem_update bytes eqb
  problem_update-plain title description id input = refl

  ruleset plain_rules = (
    bind-IsPlain, then-IsPlain, result-IsPlain, escape-IsPlain, gets-IsPlain, execute_query-IsPlain,
    tag_upsert-plain, tag_link-plain, testcase_insert-plain, delete_where-plain,
    problem_insert-plain, problem_update-plain,
  )

  insert_problem_tags-IsPlain :
      (id : ℕ) (tags : List Bytes) → IsPlain m (insert_problem_tags m id tags)
  unfolding insert_problem_tags
  insert_problem_tags-IsPlain id [] = result-IsPlain m (ok tt)
  insert_problem_tags-IsPlain id (name ∷ rest) =
      search (plain_rules, insert_problem_tags-IsPlain id rest) depth 14

  insert_testcases-IsPlain :
      (id : ℕ) (cases : List TestCaseInput) → IsPlain m (insert_testcases m id cases)
  unfolding insert_testcases
  insert_testcases-IsPlain id [] = result-IsPlain m (ok tt)
  insert_testcases-IsPlain id (tc ∷ rest) =
      search (plain_rules, insert_testcases-IsPlain id rest) depth 14

  replace-IsPlain :
      (id : ℕ) (input : ProblemInput) → IsPlain m (replace_tags_and_testcases m id input)
  unfolding replace_tags_and_testcases
  replace-IsPlain id input =
      search (plain_rules, insert_problem_tags-IsPlain, insert_testcases-IsPlain) depth 14

  insert_problem-IsPlain : (input : ProblemInput) → IsPlain m (insert_problem m input)
  unfolding insert_problem
  insert_problem-IsPlain input =
      search (plain_rules, insert_problem_tags-IsPlain, insert_testcases-IsPlain) depth 14

  pub change_problem-IsPlain :
      (id : ℕ) (input : ProblemInput) → IsPlain m (change_problem m id input)
  unfolding change_problem
  change_problem-IsPlain id input = search (plain_rules, replace-IsPlain) depth 14

-- Creating a problem either is refused a connection and sends nothing, or sends one transaction on a
-- connection that it gives back. If it ends without an exception, every statement of the transaction
-- succeeds and is committed; if it throws, the transaction does not start, or is rolled back, or its
-- commit fails and is followed by a rollback.
pub create_problem-Transacts :
    (m : Mysql) (input : ProblemInput) (c : Client m)
    → Adds m (Lends Transacts) c (create_problem m input c)
unfolding create_problem
create_problem-Transacts m input =
    using_lease-Lends m Transacts _ (in_transaction-Transacts m _ (insert_problem-IsPlain m input))
