-- ===== src/Http/Requests.antt =====
-- The bodies of requests: backend/src/http/admin_request.hpp, admin_request.cpp,
-- submission_request.hpp and submission_request.cpp, over a JSON library.
pub mod Submission
pub mod Checked
use oj_vibe_coding.Base.{
  ℕ, ◌+◌, ◌-◌, ◌%◌, ◌^◌, Bool, true, false, not, ◌&&◌, Option, none, some, List, [], ◌∷◌, ◌++◌, ltb,
  leb, ◌==◌, if◌then◌else◌, length, is_empty,
}
use oj_vibe_coding.Base.Result.{Exception, invalid_argument, Result, ok, err, ◌>>=◌, ◌>>◌, require}
use oj_vibe_coding.Text.{Bytes, bytes}
use oj_vibe_coding.Types.{Difficulty, parse_difficulty}
use oj_vibe_coding.Http.Message.{Int64, non_negative, negative, Json}

pub record TestCaseInput : Type 0 where
  pub id : Option ℕ
  pub input : Bytes
  pub expected_output : Bytes
  pub is_sample : Bool
  pub score : ℕ

pub record ProblemInput : Type 0 where
  pub title : Bytes
  pub description_md : Bytes
  pub difficulty : Difficulty
  pub time_limit_ms : ℕ
  pub memory_limit_mb : ℕ
  pub tags : List Bytes
  pub testcases : List TestCaseInput

-- `throw std::invalid_argument(...)`
abbrev pub invalid : Bytes → Exception
invalid message = invalid_argument message

abbrev pub is_negative : Int64 → Bool
is_negative (non_negative n) = false
is_negative (negative n) = true

abbrev pub is_positive : Int64 → Bool
is_positive (non_negative n) = ltb 0 n
is_positive (negative n) = false

module _ (j : Json) where
  open j use {
    Value, is_object, is_member, member, is_string, as_string, is_integral, as_int64, as_uint64,
  }
  open j use {is_bool, as_bool, is_array, elements, parse, parse_errors}

  unfoldable pub require_string : Value → Bytes → Result Bytes
  require_string body key = do
    require (is_member body key) (invalid (key ++ bytes " is required"))
    require (is_string (member body key)) (invalid (key ++ bytes " must be a string"))
    ok (as_string (member body key))

  unfoldable pub require_uint : Value → Bytes → Result ℕ
  require_uint body key = do
    require (is_member body key) (invalid (key ++ bytes " is required"))
    require (is_integral (member body key)) (invalid (key ++ bytes " must be an integer"))
    signed ← as_int64 (member body key)
    require (not (is_negative signed)) (invalid (key ++ bytes " must not be negative"))
    value ← as_uint64 (member body key)
    ok (value % 2 ^ 32)

  unfoldable pub parse_json_body : Bytes → Result Value
  parse_json_body raw =
      if is_empty raw then err (invalid (bytes "request body is empty")) else elim (parse raw) [
        | none ↦ err (invalid (bytes "invalid JSON body: " ++ parse_errors raw))
        | some root ↦ ok root
      ]

  -- `!id.isIntegral() || id.asInt64() <= 0` throws; the second test is not made if the first holds.
  unfoldable pub positive_integer : Value → Exception → Result ℕ
  positive_integer field error = do
    require (is_integral field) error
    signed ← as_int64 field
    require (is_positive signed) error
    as_uint64 field

  unfoldable pub optional_id : Value → Result (Option ℕ)
  unfolding positive_integer
  optional_id body =
      if is_member body (bytes "id")
      then (do
        id ←
            positive_integer (member body (bytes "id"))
              (invalid (bytes "testcase id must be a positive integer"))
        ok (some id))
      else ok none

  unfoldable pub optional_is_sample : Value → Result Bool
  optional_is_sample body =
      if is_member body (bytes "is_sample")
      then (do
        require (is_bool (member body (bytes "is_sample")))
            (invalid (bytes "is_sample must be a boolean"))
        ok (as_bool (member body (bytes "is_sample"))))
      else ok false

  unfoldable pub optional_score : Value → Result ℕ
  optional_score body =
      if is_member body (bytes "score") then require_uint body (bytes "score") else ok 0

  unfoldable pub parse_test_case_input : Value → Result TestCaseInput
  parse_test_case_input body = do
    require (is_object body) (invalid (bytes "testcase must be a JSON object"))
    id ← optional_id body
    input ← require_string body (bytes "input")
    expected_output ← require_string body (bytes "expected_output")
    is_sample ← optional_is_sample body
    score ← optional_score body
    ok (record {
      id = id;
      input = input;
      expected_output = expected_output;
      is_sample = is_sample;
      score = score;
    })

  -- The loop over the entries of "tags".
  unfoldable pub parse_tags : List Value → Result (List Bytes)
  parse_tags [] = ok []
  parse_tags (tag ∷ rest) = do
    require (is_string tag && not (is_empty (as_string tag)))
        (invalid (bytes "tag entries must be non-empty strings"))
    later ← parse_tags rest
    ok (as_string tag ∷ later)

  unfoldable pub optional_tags : Value → Result (List Bytes)
  optional_tags body =
      if is_member body (bytes "tags")
      then (do
        require (is_array (member body (bytes "tags"))) (invalid (bytes "tags must be an array"))
        parse_tags (elements (member body (bytes "tags"))))
      else ok []

  unfoldable pub parse_cases : List Value → Result (List TestCaseInput)
  parse_cases [] = ok []
  parse_cases (tc ∷ rest) = do
    first ← parse_test_case_input tc
    later ← parse_cases rest
    ok (first ∷ later)

  unfoldable pub required_cases : Value → Result (List TestCaseInput)
  required_cases body = do
    require (is_member body (bytes "testcases")) (invalid (bytes "testcases is required"))
    let cases = member body (bytes "testcases")
    require (is_array cases) (invalid (bytes "testcases must be an array"))
    require (not (is_empty (elements cases)))
        (invalid (bytes "testcases must contain at least one entry"))
    require (leb (length (elements cases)) 1000)
        (invalid (bytes "testcases must not exceed 1000 entries"))
    parse_cases (elements cases)

  -- A limit that is required and must not be 0.
  unfoldable pub positive_limit : Value → Bytes → Result ℕ
  positive_limit body key = do
    value ← require_uint body key
    require (not (value == 0)) (invalid (key ++ bytes " must be greater than 0"))
    ok value

  unfoldable pub required_title : Value → Result Bytes
  required_title body = do
    title ← require_string body (bytes "title")
    require (not (is_empty title)) (invalid (bytes "title must not be empty"))
    require (leb (length title) 255) (invalid (bytes "title must not exceed 255 characters"))
    ok title

  unfoldable pub parse_problem_input : Value → Result ProblemInput
  parse_problem_input body = do
    require (is_object body) (invalid (bytes "body must be a JSON object"))
    title ← required_title body
    description_md ← require_string body (bytes "description_md")
    name ← require_string body (bytes "difficulty")
    difficulty ← parse_difficulty name
    time_limit_ms ← positive_limit body (bytes "time_limit_ms")
    memory_limit_mb ← positive_limit body (bytes "memory_limit_mb")
    tags ← optional_tags body
    testcases ← required_cases body
    ok (record {
      title = title;
      description_md = description_md;
      difficulty = difficulty;
      time_limit_ms = time_limit_ms;
      memory_limit_mb = memory_limit_mb;
      tags = tags;
      testcases = testcases;
    })
