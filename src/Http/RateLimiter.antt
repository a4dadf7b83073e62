-- ===== src/Http/RateLimiter.antt =====
-- backend/src/http/rate_limiter.hpp and rate_limiter.cpp. The mutex makes each call one step; the
-- steady clock is an argument in nanoseconds; `double` is the interface `Double`.
pub mod Bounds
pub mod Burst
use oj_vibe_coding.Base.{
  ℕ, ◌-◌, max, Bool, true, false, Option, none, some, List, [], ◌∷◌, if◌then◌else◌,
}
use oj_vibe_coding.Text.{Bytes, eqb}
use oj_vibe_coding.Http.Message.{Int64, non_negative, negative}

-- The double-precision operations that the limiter uses. `seconds` is the conversion of a duration in
-- nanoseconds, `ceil_long` is `static_cast<long>(std::ceil(x))`.
pub record Double : Type 1 where
  pub F : Type 0
  pub of_ℕ : ℕ → F
  pub seconds : ℕ → F
  pub add : F → F → F
  pub sub : F → F → F
  pub mul : F → F → F
  pub div : F → F → F
  pub min : F → F → F
  pub less : F → F → Bool
  pub leq : F → F → Bool
  pub ceil_long : F → Int64

module _ (d : Double) where
  open d use {F, of_ℕ, seconds, add, sub, mul, div, min, less, leq, ceil_long}

  pub record Config : Type 0 where
    pub capacity : ℕ
    pub refill_per_sec : F

  pub record Bucket : Type 0 where
    pub tokens : F
    pub last : ℕ

  pub record Decision : Type 0 where
    pub allowed : Bool
    pub remaining : F
    pub retry_after : ℕ

  -- The map from keys to buckets.
  abbrev pub Buckets : Type 0
  Buckets = List (Bytes × Bucket)

  unfoldable pub find_bucket : Bytes → Buckets → Option Bucket
  find_bucket key [] = none
  find_bucket key ((k, b) ∷ rest) = if eqb k key then some b else find_bucket key rest

  unfoldable pub put_bucket : Bytes → Bucket → Buckets → Buckets
  put_bucket key bucket [] = (key, bucket) ∷ []
  put_bucket key bucket ((k, b) ∷ rest) =
      if eqb k key then (key, bucket) ∷ rest else (k, b) ∷ put_bucket key bucket rest

  -- `std::max<long>(1, n)`
  abbrev pub at_least_one : Int64 → ℕ
  at_least_one (non_negative n) = max 1 n
  at_least_one (negative n) = 1

  -- The bucket of a key, a full one if there is none.
  unfoldable pub bucket_or_fresh : Config → ℕ → Option Bucket → Bucket
  bucket_or_fresh config now none = record { tokens = of_ℕ config.capacity; last = now }
  bucket_or_fresh config now (some bucket) = bucket

  -- The tokens after the time since `last` is made up for.
  unfoldable pub refilled : Config → ℕ → Bucket → F
  refilled config now bucket =
      let elapsed = seconds (now - bucket.last) in
      if less (of_ℕ 0) elapsed
      then min (of_ℕ config.capacity) (add bucket.tokens (mul elapsed config.refill_per_sec))
      else bucket.tokens

  -- The rest of `check`, from the refilled tokens.
  unfoldable pub decide_tokens : Config → F → F × Decision
  decide_tokens config tokens =
      if leq (of_ℕ 1) tokens
      then (
        sub tokens (of_ℕ 1),
        record { allowed = true; remaining = sub tokens (of_ℕ 1); retry_after = 0 },
      )
      else (
        tokens,
        record {
          allowed = false;
          remaining = tokens;
          retry_after = at_least_one (ceil_long (div (sub (of_ℕ 1) tokens) config.refill_per_sec));
        },
      )

  unfoldable pub check : Config → Bytes → ℕ → Buckets → Decision × Buckets
  check config key now buckets =
      let bucket = bucket_or_fresh config now (find_bucket key buckets) in
      let (left, decision) = decide_tokens config (refilled config now bucket) in
      (decision, put_bucket key (record { tokens = left; last = now }) buckets)

  unfoldable pub reset : Buckets → Buckets
  reset buckets = []
