-- ===== src/Http/Requests/Checked.antt =====
-- What backend/src/http/admin_request.cpp lets through.
use oj_vibe_coding.Base.{
  ℕ, ◌%◌, ◌^◌, ◌≤◌, ◌<◌, ◌≡◌, ◌≢◌, true, not, List, [], ◌∷◌, arith, ==_iff, length, is_empty, All,
}
use oj_vibe_coding.Base.Result.{ok}
use oj_vibe_coding.Text.{Bytes}
use oj_vibe_coding.Http.Message.{Json, non_negative}
use oj_vibe_coding.Http.Requests.{
  ProblemInput, TestCaseInput, require_uint, positive_limit, required_title, parse_tags,
  parse_cases, parse_test_case_input, optional_score, required_cases, optional_tags,
  parse_problem_input, bytes,
}

module _ (j : Json) where
  open j use {Value, is_member, is_integral, as_int64, as_uint64, member, elements}

  -- A problem within the bounds of the parser.
  pub record IsBounded (p : ProblemInput) : Type 0 where
    pub titled : p.title ≢ []
    pub title_fits : length p.title ≤ 255
    pub time_bounds : (0 < p.time_limit_ms) × (p.time_limit_ms < 2 ^ 32)
    pub memory_bounds : (0 < p.memory_limit_mb) × (p.memory_limit_mb < 2 ^ 32)
    pub tags_named : All (λ (tag : Bytes). tag ≢ []) p.tags
    pub case_bounds : (0 < length p.testcases) × (length p.testcases ≤ 1000)
    pub scores_fit : All (λ (t : TestCaseInput). t.score < 2 ^ 32) p.testcases

  is_empty-ne : {A : Type 0} (l : List A) → not (is_empty l) ≡ true → l ≢ []
  is_empty-ne [] h = cc
  is_empty-ne (x ∷ l) h = cc

  required_title-eq-ok :
      (body : Value) (t : Bytes) → required_title j body ≡ ok t → (t ≢ []) × (length t ≤ 255)
  unfolding required_title
  required_title-eq-ok body t e = ground (arith, is_empty-ne t)

  require_uint-lt :
      (body : Value) (key : Bytes) (n : ℕ) → require_uint j body key ≡ ok n → n < 2 ^ 32
  unfolding require_uint
  require_uint-lt body key n e = ground arith

  positive_limit-eq-ok :
      (body : Value) (key : Bytes) (n : ℕ)
      → positive_limit j body key ≡ ok n
      → (0 < n) × (n < 2 ^ 32)
  unfolding positive_limit
  positive_limit-eq-ok body key n e = grind (arith, require_uint-lt body key, ==_iff)

  parse_tags-All :
      (l : List Value) (r : List Bytes) → parse_tags j l ≡ ok r → All (λ (tag : Bytes). tag ≢ []) r
  unfolding parse_tags
  parse_tags-All [] r e = ground arith
  parse_tags-All (x ∷ l) r e = grind (arith, is_empty-ne, parse_tags-All l)

  parse_test_case_input-score :
      (v : Value) (t : TestCaseInput) → parse_test_case_input j v ≡ ok t → t.score < 2 ^ 32
  unfolding parse_test_case_input optional_score
  parse_test_case_input-score v t e = grind (arith, require_uint-lt)

  parse_cases-length :
      (l : List Value) (r : List TestCaseInput)
      → parse_cases j l ≡ ok r
      → (length r ≡ length l) × All (λ (t : TestCaseInput). t.score < 2 ^ 32) r
  unfolding parse_cases
  parse_cases-length [] r e = ground arith
  parse_cases-length (x ∷ l) r e = grind (arith, parse_test_case_input-score, parse_cases-length l)

  optional_tags-All :
      (v : Value) (r : List Bytes) → optional_tags j v ≡ ok r → All (λ (tag : Bytes). tag ≢ []) r
  unfolding optional_tags
  optional_tags-All v [] e = tt
  optional_tags-All v (x ∷ r) e =
      grind (arith, parse_tags-All (elements (member v (bytes "tags"))) (x ∷ r))

  some_entries : {A : Type 0} (l : List A) → not (is_empty l) ≡ true → 0 < length l
  some_entries [] h = cc
  some_entries (x ∷ l) h = omega arith

  required_cases-eq-ok :
      (v : Value) (r : List TestCaseInput)
      → required_cases j v ≡ ok r
      → (0 < length r) × (length r ≤ 1000) × All (λ (t : TestCaseInput). t.score < 2 ^ 32) r
  unfolding required_cases
  required_cases-eq-ok v r e = grind (
    arith,
    parse_cases-length (elements (member v (bytes "testcases"))) r,
    some_entries (elements (member v (bytes "testcases"))),
  )

  -- Every problem that the parser lets through is within its bounds: its title has between 1 and 255
  -- bytes, its two limits are positive and below 2^32, no tag is empty, there are between 1 and 1000 test
  -- cases, and every score is below 2^32.
  pub parse_problem_input-IsBounded :
      (body : Value) (p : ProblemInput) → parse_problem_input j body ≡ ok p → IsBounded p
  unfolding parse_problem_input
  parse_problem_input-IsBounded body p e = record {
    titled = (grind (arith, required_title-eq-ok body p.title));
    title_fits = (grind (arith, required_title-eq-ok body p.title));
    time_bounds = grind (arith, positive_limit-eq-ok body (bytes "time_limit_ms") p.time_limit_ms);
    memory_bounds =
        grind (arith, positive_limit-eq-ok body (bytes "memory_limit_mb") p.memory_limit_mb);
    tags_named = grind (arith, optional_tags-All body p.tags);
    case_bounds = grind (arith, required_cases-eq-ok body p.testcases);
    scores_fit = grind (arith, required_cases-eq-ok body p.testcases);
  }

  -- A number field that is an integer of 64 bits, not negative, is taken modulo 2^32: a value of
  -- 2^32 or more is let through as a smaller one.
  pub require_uint-truncates :
      (body : Value) (key : Bytes) (n : ℕ)
      → is_member body key ≡ true
      → is_integral (member body key) ≡ true
      → as_int64 (member body key) ≡ ok (non_negative n)
      → as_uint64 (member body key) ≡ ok n
      → require_uint j body key ≡ ok (n % 2 ^ 32)
  unfolding require_uint
  require_uint-truncates body key n h1 h2 h3 h4 = rw (h1, h2, h3, h4)
