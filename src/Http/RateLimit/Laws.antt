-- ===== src/Http/RateLimit/Laws.antt =====
-- What the guard of backend/src/http/rate_limit.cpp answers, and how many requests it lets through.
use oj_vibe_coding.Base.{
  ℕ, zero, suc, ◌≤◌, min, ◌≡◌, refl, ◌∙◌, ◌⊎◌, inl, inr, Bool, true, false, none, [], ◌∷◌, ◌++◌,
  arith, if◌then◌else◌, Bool-cases,
}
use oj_vibe_coding.Text.{bytes}
use oj_vibe_coding.Auth.Session.{decimal}
use oj_vibe_coding.Http.Message.{
  Request, Response, set_header, HandlerResponse, handled, unhandled, Int64, non_negative, negative,
  Json,
}
use oj_vibe_coding.Http.Cookie.{write_error, write_json}
use oj_vibe_coding.Http.ClientKey.{client_key}
use oj_vibe_coding.Http.RateLimiter.{
  Double, Config, Buckets, find_bucket, at_least_one, decide_tokens, check, refilled,
  bucket_or_fresh,
}
use oj_vibe_coding.Http.RateLimiter.Burst.{ExactLaws, allowed_at_once, allowed_at_once_lem}
use oj_vibe_coding.Http.RateLimit.{answer, check_rate_limit}

at_least_one-le : (d : Double) (n : Int64) → 1 ≤ at_least_one d n
at_least_one-le d (non_negative n) = omega arith
at_least_one-le d (negative n) = omega arith

module _ (d : Double) (config : Config d) where
  -- A refusal asks for a wait of a second at least.
  decide_tokens-retry :
      (tokens : d.F)
      → ((decide_tokens d config tokens).1.allowed ≡ true)
        ⊎ (((decide_tokens d config tokens).1.allowed ≡ false)
            × (1 ≤ (decide_tokens d config tokens).1.retry_after))
  unfolding decide_tokens
  decide_tokens-retry tokens = elim (Bool-cases (d.leq (d.of_ℕ 1) tokens)) [
    | inl enough ↦ rw enough (inl refl)
    | inr too_few ↦ rw too_few (inr (refl, at_least_one-le d _))
  ]

-- Every request is either let through with a number in the header X-RateLimit-Remaining, or answered
-- with status 429 and a header Retry-After of one second or more.
pub check_rate_limit-cases :
    (d : Double) (truncate : d.F → ℕ) (j : Json) (config : Config d) (now : ℕ) (req : Request)
    (res : Response) (buckets : Buckets d)
    → let ((verdict, answered), _) = check_rate_limit d truncate j config now req res buckets in
      ((verdict ≡ unhandled)
        × ((left : ℕ) × (answered ≡ set_header (bytes "X-RateLimit-Remaining") (decimal left) res)))
      ⊎ ((verdict ≡ handled)
          × (answered.status ≡ 429)
          × ((wait : ℕ) × (1 ≤ wait)
              × (answered.headers ≡ res.headers ++ ((bytes "Retry-After", decimal wait) ∷ []))))
unfolding check_rate_limit check answer write_error write_json
check_rate_limit-cases d truncate j config now req res buckets =
    elim (decide_tokens-retry d config (
      refilled d config now
        (bucket_or_fresh d config now (find_bucket d (client_key req) buckets)))) [
          | inl allowed ↦ rw allowed (inl (refl, (_, refl)))
          | inr (refused, wait) ↦ rw refused (inr (refl, refl, (_, wait, refl)))
        ]

module _ (d : Double) (truncate : d.F → ℕ) (j : Json) (config : Config d) (now : ℕ) (req : Request)
    (res : Response) where
  abbrev passes : HandlerResponse → Bool
  passes handled = false
  passes unhandled = true

  -- How many of `n` equal requests at one instant the guard lets through.
  unfoldable pub passed_at_once : ℕ → Buckets d → ℕ
  passed_at_once zero buckets = 0
  passed_at_once (suc n) buckets =
      let ((verdict, _), buckets') = check_rate_limit d truncate j config now req res buckets in
      let later = passed_at_once n buckets' in if passes verdict then suc later else later

  passed-allowed_at_once :
      (n : ℕ) (buckets : Buckets d)
      → passed_at_once n buckets ≡ allowed_at_once d config (client_key req) now n buckets
  unfolding passed_at_once allowed_at_once check_rate_limit answer
  passed-allowed_at_once zero buckets = refl
  passed-allowed_at_once (suc n) buckets =
      ground (arith, passed-allowed_at_once n (check d config (client_key req) now buckets).1)

-- Of `n` requests that a client without a bucket sends at one instant, the guard lets exactly the
-- smaller of `n` and the capacity through, for a capacity that doubles represent exactly.
pub passed_at_once_lem :
    (d : Double) (truncate : d.F → ℕ) (j : Json) (exact : ℕ) (l : ExactLaws d exact)
    (config : Config d) (now n : ℕ) (req : Request) (res : Response) (buckets : Buckets d)
    → config.capacity ≤ exact
    → find_bucket d (client_key req) buckets ≡ none
    → passed_at_once d truncate j config now req res n buckets ≡ min n config.capacity
passed_at_once_lem d truncate j exact l config now n req res buckets fits fresh =
    passed-allowed_at_once d truncate j config now req res n buckets
    ∙ allowed_at_once_lem d exact l config (client_key req) now n buckets fits fresh
