-- ===== src/Http/Dto.antt =====
-- The JSON of answers: backend/src/http/problem_dto.cpp, admin_dto.cpp and submission_dto.cpp. Each
-- function is the `toJson` of its type.
pub mod Laws
use oj_vibe_coding.Types.{
  difficulty_name, Tag, TestCase, ProblemSummary, ProblemDetail, AdminTestCase, AdminProblemDetail,
  verdict_name, CaseResult, SubmissionResult, is_wa,
}
use oj_vibe_coding.Http.Message.{Json}
use oj_vibe_coding.Base.{List, [], ◌∷◌, if◌then◌else◌}
use oj_vibe_coding.Text.{Bytes, bytes}

module _ (j : Json) where
  open j use {
    Value, object_value, array_value, string_value, uint_value, bool_value, set_member, append,
  }

  -- `value[key] = field;` for each of the fields.
  unfoldable pub with_fields : Value → List (Bytes × Value) → Value
  with_fields value [] = value
  with_fields value ((key, field) ∷ rest) = with_fields (set_member value key field) rest

  -- `for (const auto& x : xs) { array.append(item(x)); }`
  unfoldable pub append_all : {A : Type 0} → (A → Value) → Value → List A → Value
  append_all item array [] = array
  append_all item array (x ∷ xs) = append_all item (append array (item x)) xs

  abbrev pub array_of : {A : Type 0} → (A → Value) → List A → Value
  array_of item xs = append_all item array_value xs

  unfoldable pub tag_json : Tag → Value
  tag_json tag =
      with_fields object_value
        ((bytes "id", uint_value tag.id) ∷ (bytes "name", string_value tag.name) ∷ [])

  unfoldable pub testcase_json : TestCase → Value
  testcase_json testcase = with_fields object_value (
      (bytes "id", uint_value testcase.id)
      ∷ (bytes "input", string_value testcase.input)
      ∷ (bytes "expected_output", string_value testcase.expected_output)
      ∷ [])

  unfoldable pub summary_json : ProblemSummary → Value
  summary_json summary = with_fields object_value (
      (bytes "id", uint_value summary.id)
      ∷ (bytes "title", string_value summary.title)
      ∷ (bytes "difficulty", string_value (difficulty_name summary.difficulty))
      ∷ (bytes "time_limit_ms", uint_value summary.time_limit_ms)
      ∷ (bytes "memory_limit_mb", uint_value summary.memory_limit_mb)
      ∷ (bytes "tags", array_of string_value summary.tags)
      ∷ [])

  unfoldable pub detail_json : ProblemDetail → Value
  detail_json detail = with_fields object_value (
      (bytes "id", uint_value detail.id)
      ∷ (bytes "title", string_value detail.title)
      ∷ (bytes "description_md", string_value detail.description_md)
      ∷ (bytes "difficulty", string_value (difficulty_name detail.difficulty))
      ∷ (bytes "time_limit_ms", uint_value detail.time_limit_ms)
      ∷ (bytes "memory_limit_mb", uint_value detail.memory_limit_mb)
      ∷ (bytes "tags", array_of tag_json detail.tags)
      ∷ (bytes "sample_testcases", array_of testcase_json detail.sample_testcases)
      ∷ [])

  unfoldable pub summaries_json : List ProblemSummary → Value
  summaries_json summaries = array_of summary_json summaries

  unfoldable pub admin_testcase_json : AdminTestCase → Value
  admin_testcase_json testcase = with_fields object_value (
      (bytes "id", uint_value testcase.id)
      ∷ (bytes "input", string_value testcase.input)
      ∷ (bytes "expected_output", string_value testcase.expected_output)
      ∷ (bytes "is_sample", bool_value testcase.is_sample)
      ∷ (bytes "score", uint_value testcase.score)
      ∷ [])

  unfoldable pub admin_detail_json : AdminProblemDetail → Value
  admin_detail_json detail = with_fields object_value (
      (bytes "id", uint_value detail.id)
      ∷ (bytes "title", string_value detail.title)
      ∷ (bytes "description_md", string_value detail.description_md)
      ∷ (bytes "difficulty", string_value (difficulty_name detail.difficulty))
      ∷ (bytes "time_limit_ms", uint_value detail.time_limit_ms)
      ∷ (bytes "memory_limit_mb", uint_value detail.memory_limit_mb)
      ∷ (bytes "tags", array_of tag_json detail.tags)
      ∷ (bytes "testcases", array_of admin_testcase_json detail.testcases)
      ∷ [])

  unfoldable pub admin_details_json : List AdminProblemDetail → Value
  admin_details_json details = array_of admin_detail_json details

  unfoldable pub case_json : CaseResult → Value
  case_json c =
      if is_wa c.verdict
      then with_fields measured (
          (bytes "expected", string_value c.expected)
          ∷ (bytes "actual", string_value c.actual)
          ∷ [])
      else measured
    where
      measured : Value
      measured = with_fields object_value (
          (bytes "index", uint_value c.index)
          ∷ (bytes "verdict", string_value (verdict_name c.verdict))
          ∷ (bytes "time_ms", uint_value c.time_ms)
          ∷ (bytes "memory_mb", uint_value c.memory_mb)
          ∷ [])

  unfoldable pub submission_json : SubmissionResult → Value
  submission_json submission = with_fields object_value (
      (bytes "verdict", string_value (verdict_name submission.verdict))
      ∷ (bytes "time_ms", uint_value submission.time_ms)
      ∷ (bytes "memory_mb", uint_value submission.memory_mb)
      ∷ (bytes "compile_output", string_value submission.compile_output)
      ∷ (bytes "per_case", array_of case_json submission.per_case)
      ∷ [])
