-- ===== src/Http/Tests.antt =====
-- The models of the guards and of the request parsers on concrete requests.
pub mod Instances
pub mod Objects
use oj_vibe_coding.Base.{
  ℕ, ◌-◌, ◌/◌, ◌≡◌, refl, ◌≢◌, ◌↔◌, ◌⊎◌, Bool, true, false, not, Option, none, some, List, [], ◌∷◌,
  arith, ◌==◌, if◌then◌else◌, all, All,
}
use oj_vibe_coding.Text.{Bytes, bytes, eqb}
use oj_vibe_coding.Types.{easy, parse_difficulty}
use oj_vibe_coding.Http.Requests.{
  require_string, require_uint, parse_json_body, positive_integer, optional_id, optional_is_sample,
  optional_score, parse_test_case_input, optional_tags, parse_cases, required_cases, positive_limit,
  required_title, parse_problem_input,
}
use oj_vibe_coding.Http.Requests.Checked.{IsBounded, parse_problem_input-IsBounded}
use oj_vibe_coding.Http.Requests.Submission.{
  require_id, parse_submission_input, IsAcceptable, parse_submission_input-IsAcceptable,
}
use oj_vibe_coding.Http.Message.{Request, value_or_empty, empty_response, handled, unhandled}
use oj_vibe_coding.Http.Cookie.{equals_ignore_case, parse_session_id, write_error}
use oj_vibe_coding.Http.Cookie.Reading.{
  print_pairs, lookup_ignoring_case, is_plain, WellFormed, parse_session_id_iff,
}
use oj_vibe_coding.Http.RateLimiter.{Config, Buckets, check}
use oj_vibe_coding.Http.RateLimiter.Bounds.{Within, AllWithin, check_invariant}
use oj_vibe_coding.Http.Csrf.{is_state_changing, trusted_origins, check_csrf}
use oj_vibe_coding.Http.Csrf.Laws.{IsTrusted, check_csrf_iff, colons, port_origin_stopped}
use oj_vibe_coding.Http.Tests.Instances.{
  toy_body, toy_json, whole_seconds, whole_seconds-RoundingLaws,
}
use oj_vibe_coding.Auth.Session.{session_cookie_name, is_session_id_shape}

abbrev sixty_four : Bytes
sixty_four = bytes "0123456789abcdef0123456789abcdef0123456789abcdef0123456789ABCDEF"

abbrev cookies : List (Bytes × Bytes)
cookies = (bytes "a", bytes "b=c") ∷ (bytes "MINIOJ_sid", sixty_four) ∷ []

-- A request with these headers.
abbrev post : (Bytes → Option Bytes) → Request
post header = record {
  method = bytes "POST";
  path = bytes "/api/submissions";
  remote_addr = bytes "10.0.0.7";
  body = [];
  header = header;
  param = λ _. none;
  id_param = [];
}

abbrev with_cookies : Request
with_cookies = post (λ name. if eqb name (bytes "Cookie") then some (print_pairs cookies) else none)

all-true : (p : ℕ → Bool) (s : Bytes) → all p s ≡ true → All (λ c. p c ≡ true) s
all-true p [] h = tt
all-true p (c ∷ s) h = (ground (arith, h), all-true p s (ground (arith, h)))

all-not-true : (p : ℕ → Bool) (s : Bytes) → all (λ c. not (p c)) s ≡ true → All (λ c. p c ≡ false) s
all-not-true p [] h = tt
all-not-true p (c ∷ s) h = (ground (arith, h), all-not-true p s (ground (arith, h)))

cookies-WellFormed : WellFormed cookies
unfolding bytes
cookies-WellFormed = (
  (all-true is_plain (bytes "a") refl, all-not-true (λ c. c == b';') (bytes "b=c") refl),
  (
    (all-true is_plain (bytes "MINIOJ_sid") refl, all-not-true (λ c. c == b';') sixty_four refl),
    tt,
  ),
)

parse_session_id_iff_example : (parse_session_id with_cookies ≡ some sixty_four) ↔ (
    (lookup_ignoring_case session_cookie_name cookies ≡ some sixty_four)
    × (is_session_id_shape sixty_four ≡ true))
unfolding bytes eqb
parse_session_id_iff_example =
    parse_session_id_iff with_cookies cookies sixty_four cookies-WellFormed refl

abbrev from_port : Request
from_port =
    post (λ name. if eqb name (bytes "Origin") then some (bytes "http://oj.example:5173") else none)

check_csrf_iff_example :
    let stopped = check_csrf toy_json none (bytes "oj.example") from_port empty_response in
    ((stopped.0 ≡ handled) ↔ (
      (is_state_changing from_port.method ≡ true)
      × (value_or_empty (from_port.header (bytes "Origin")) ≢ [])
      × (¬ IsTrusted
          (value_or_empty (from_port.header (bytes "Origin")))
          (trusted_origins none (bytes "oj.example")))))
    × ((stopped ≡ (
      handled,
      write_error toy_json 403 (bytes "cross-origin request rejected by CSRF guard") empty_response,
    ))
        ⊎ (stopped ≡ (unhandled, empty_response)))
check_csrf_iff_example = check_csrf_iff toy_json none (bytes "oj.example") from_port empty_response

port_origin_stopped_example :
    (check_csrf toy_json none (bytes "oj.example") from_port empty_response).0 ≡ handled
unfolding bytes eqb is_state_changing equals_ignore_case colons
port_origin_stopped_example =
    port_origin_stopped toy_json (bytes "oj.example") from_port empty_response refl refl refl

abbrev three_a_second : Config whole_seconds
three_a_second = record { capacity = 3; refill_per_sec = 1 }

abbrev one_bucket : Buckets whole_seconds
one_bucket = (bytes "10.0.0.7", record { tokens = 2; last = 4 }) ∷ []

check_invariant_example :
    AllWithin whole_seconds whole_seconds-RoundingLaws three_a_second refl
      (check whole_seconds three_a_second (bytes "10.0.0.7") 5 one_bucket).1
    × Within whole_seconds whole_seconds-RoundingLaws three_a_second refl
        (check whole_seconds three_a_second (bytes "10.0.0.7") 5 one_bucket).0.remaining
check_invariant_example =
    check_invariant whole_seconds whole_seconds-RoundingLaws three_a_second refl (bytes "10.0.0.7")
      5 one_bucket ((refl, refl), tt)

parse_problem_input-IsBounded_example : IsBounded toy_json (record {
  title = bytes "Sum";
  description_md = bytes "Add them.";
  difficulty = easy;
  time_limit_ms = 1_000;
  memory_limit_mb = 64;
  tags = [];
  testcases =
      record {
        id = none;
        input = bytes "1 2";
        expected_output = bytes "3";
        is_sample = false;
        score = 0;
      }
      ∷ [];
})
unfolding parse_problem_input required_title require_string positive_limit require_uint
    optional_tags required_cases parse_cases parse_test_case_input optional_id optional_is_sample
    optional_score parse_difficulty bytes eqb
parse_problem_input-IsBounded_example = parse_problem_input-IsBounded toy_json toy_body _ refl

parse_submission_input-IsAcceptable_example :
    IsAcceptable toy_json
      (record { problem_id = 4; language = bytes "cpp"; source_code = bytes "int main() {}" })
unfolding parse_submission_input parse_json_body require_id positive_integer require_string bytes
    eqb
parse_submission_input-IsAcceptable_example =
    parse_submission_input-IsAcceptable toy_json (bytes "{}") _ refl
