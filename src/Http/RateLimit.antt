-- ===== src/Http/RateLimit.antt =====
-- `checkRateLimit` of backend/src/http/rate_limit.cpp, over the limiter's configuration and buckets.
pub mod Laws
pub mod Settings
mod Tests
use oj_vibe_coding.Base.{ℕ, ◌-◌, not, if◌then◌else◌}
use oj_vibe_coding.Text.{bytes}
use oj_vibe_coding.Auth.Session.{decimal}
use oj_vibe_coding.Http.Message.{
  Request, Response, set_header, HandlerResponse, handled, unhandled, Json,
}
use oj_vibe_coding.Http.Cookie.{write_error}
use oj_vibe_coding.Http.ClientKey.{client_key}
use oj_vibe_coding.Http.RateLimiter.{Double, Config, Buckets, Decision, check}

-- `truncate` is `static_cast<int>` of a remainder that is not negative and fits an int, as it does for
-- the capacities that a non-negative RATE_LIMIT_CAPACITY gives.
module _ (d : Double) (truncate : d.F → ℕ) (j : Json) where
  -- The answer to a decision.
  unfoldable pub answer : Decision d → Response → HandlerResponse × Response
  answer decision res =
      if not decision.allowed
      then (
        handled,
        write_error j 429 (bytes "rate limit exceeded")
            (set_header (bytes "Retry-After") (decimal decision.retry_after) res),
      )
      else (
        unhandled,
        set_header (bytes "X-RateLimit-Remaining") (decimal (truncate decision.remaining)) res,
      )

  -- The guard at the time `now`, and the limiter's buckets after it.
  unfoldable pub check_rate_limit :
      Config d → ℕ → Request → Response → Buckets d → (HandlerResponse × Response) × Buckets d
  check_rate_limit config now req res buckets =
      let (decision, buckets') = check d config (client_key req) now buckets in
      (answer decision res, buckets')
