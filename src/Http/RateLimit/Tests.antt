-- ===== src/Http/RateLimit/Tests.antt =====
-- A client of the rate limit guard.
use oj_vibe_coding.Base.{ℕ, ◌≤◌, min, ◌≡◌, refl, ◌⊎◌, none, [], ◌∷◌, ◌++◌, arith}
use oj_vibe_coding.Text.{bytes}
use oj_vibe_coding.Auth.Session.{decimal}
use oj_vibe_coding.Http.Message.{Request, empty_response, set_header, handled, unhandled}
use oj_vibe_coding.Http.Tests.Instances.{toy_json, whole_seconds, whole_seconds-ExactLaws}
use oj_vibe_coding.Http.RateLimiter.{Config, find_bucket}
use oj_vibe_coding.Http.RateLimit.{check_rate_limit}
use oj_vibe_coding.Http.RateLimit.Laws.{check_rate_limit-cases, passed_at_once, passed_at_once_lem}

abbrev client : Request
client = record {
  method = bytes "GET";
  path = bytes "/api/problems";
  remote_addr = bytes "10.0.0.7";
  body = [];
  header = λ name. none;
  param = λ name. none;
  id_param = [];
}

abbrev three : Config whole_seconds
three = record { capacity = 3; refill_per_sec = 1 }

passed_at_once_lem_example :
    passed_at_once whole_seconds (λ n. n) toy_json three 5 client empty_response 10 [] ≡ min 10 3
unfolding find_bucket
passed_at_once_lem_example =
    passed_at_once_lem whole_seconds (λ n. n) toy_json 100 whole_seconds-ExactLaws three 5 10 client
      empty_response [] (omega arith) refl

check_rate_limit-cases_example :
    let ((verdict, answered), _) =
      check_rate_limit whole_seconds (λ n. n) toy_json three 5 client empty_response [] in
    ((verdict ≡ unhandled)
      × ((left : ℕ) × (answered
            ≡ set_header (bytes "X-RateLimit-Remaining") (decimal left) empty_response)))
    ⊎ ((verdict ≡ handled)
        × (answered.status ≡ 429)
        × ((wait : ℕ) × (1 ≤ wait)
            × (answered.headers
                ≡ empty_response.headers ++ ((bytes "Retry-After", decimal wait) ∷ []))))
check_rate_limit-cases_example =
    check_rate_limit-cases whole_seconds (λ n. n) toy_json three 5 client empty_response []
