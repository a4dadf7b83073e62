-- ===== src/Http/RateLimiter/Burst.antt =====
-- How many requests the rate limiter (backend/src/http/rate_limiter.cpp) lets through at once.
use oj_vibe_coding.Base.{
  ℕ, zero, suc, ◌-◌, ◌≤◌, ◌<◌, min, ◌≡◌, refl, true, false, none, arith, if◌then◌else◌,
}
use oj_vibe_coding.Text.{Bytes, eqb_refl}
use oj_vibe_coding.Http.RateLimiter.{
  Double, Config, Bucket, Buckets, find_bucket, put_bucket, bucket_or_fresh, refilled,
  decide_tokens, check,
}
use oj_vibe_coding.Http.RateLimiter.Bounds.{find-put_bucket}

-- Whole numbers up to `exact` are represented exactly, and so are their differences with 1.
pub record ExactLaws (d : Double) (exact : ℕ) : Type 0 where
  pub no_time : d.less (d.of_ℕ 0) (d.seconds 0) ≡ false
  pub sub_one : (n : ℕ) → n < exact → d.sub (d.of_ℕ (suc n)) (d.of_ℕ 1) ≡ d.of_ℕ n
  pub one_le : (n : ℕ) → n < exact → d.leq (d.of_ℕ 1) (d.of_ℕ (suc n)) ≡ true
  pub one_gt_zero : d.leq (d.of_ℕ 1) (d.of_ℕ 0) ≡ false

module _ (d : Double) (config : Config d) (key : Bytes) (now : ℕ) where
  -- How many of `n` calls of `check` at one instant are allowed.
  unfoldable pub allowed_at_once : ℕ → Buckets d → ℕ
  allowed_at_once zero buckets = 0
  allowed_at_once (suc n) buckets =
      let (decision, buckets') = check d config key now buckets in
      let later = allowed_at_once n buckets' in if decision.allowed then suc later else later

  module _ {exact : ℕ} (l : ExactLaws d exact) where
    abbrev Holds : Buckets d → ℕ → Type 0
    Holds buckets m =
        bucket_or_fresh d config now (find_bucket d key buckets)
        ≡ record { tokens = d.of_ℕ m; last = now }

    put_self :
        (b : Bucket d) (buckets : Buckets d)
        → bucket_or_fresh d config now (find_bucket d key (put_bucket d key b buckets)) ≡ b
    unfolding bucket_or_fresh
    put_self b buckets = ground (arith, find-put_bucket d key key b buckets, eqb_refl key)

    refilled_now :
        (m : ℕ) → refilled d config now (record { tokens = d.of_ℕ m; last = now }) ≡ d.of_ℕ m
    unfolding refilled
    refilled_now m = let same_time : now - now ≡ 0 = omega arith in rw (same_time, l.no_time) refl

    check-suc :
        (m : ℕ) (buckets : Buckets d)
        → m < exact
        → Holds buckets (suc m)
        → ((check d config key now buckets).0.allowed ≡ true)
          × Holds (check d config key now buckets).1 m
    unfolding check decide_tokens
    check-suc m buckets fits h =
        rw (h, refilled_now (suc m), l.one_le m fits, l.sub_one m fits) (refl, put_self _ buckets)

    check-zero :
        (buckets : Buckets d)
        → Holds buckets 0
        → ((check d config key now buckets).0.allowed ≡ false)
          × Holds (check d config key now buckets).1 0
    unfolding check decide_tokens
    check-zero buckets h = rw (h, refilled_now 0, l.one_gt_zero) (refl, put_self _ buckets)

    allowed_at_once-tokens :
        (n m : ℕ) (buckets : Buckets d)
        → m ≤ exact
        → Holds buckets m
        → allowed_at_once n buckets ≡ min n m
    unfolding allowed_at_once
    allowed_at_once-tokens zero m buckets fits h = omega arith
    allowed_at_once-tokens (suc n) zero buckets fits h =
        let (refused, h') = check-zero buckets h in
        rw (refused, allowed_at_once) (omega (arith, allowed_at_once-tokens n zero _ fits h'))
    allowed_at_once-tokens (suc n) (suc m) buckets fits h =
        let (allowed, h') = check-suc m buckets (omega arith) h in
        rw (allowed, allowed_at_once) (omega (arith, allowed_at_once-tokens n m _ (omega arith) h'))

-- A client without a bucket that sends `n` requests at one instant gets exactly the smaller of `n` and
-- the capacity through, for a capacity that doubles represent exactly.
pub allowed_at_once_lem :
    (d : Double) (exact : ℕ) (l : ExactLaws d exact) (config : Config d) (key : Bytes) (now n : ℕ)
    (buckets : Buckets d)
    → config.capacity ≤ exact
    → find_bucket d key buckets ≡ none
    → allowed_at_once d config key now n buckets ≡ min n config.capacity
unfolding bucket_or_fresh
allowed_at_once_lem d exact l config key now n buckets fits fresh =
    allowed_at_once-tokens d config key now l n config.capacity buckets fits (rw fresh refl)
