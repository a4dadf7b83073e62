-- ===== src/Http/RateLimiter/Bounds.antt =====
-- The tokens of the rate limiter (backend/src/http/rate_limiter.cpp) stay within the capacity.
use oj_vibe_coding.Base.{
  ℕ, ◌-◌, ◌≡◌, refl, ◌≢◌, inl, inr, true, some, [], ◌∷◌, arith, if◌then◌else◌, Bool-cases, All,
}
use oj_vibe_coding.Text.{Bytes, eqb, eqb_iff}
use oj_vibe_coding.Http.RateLimiter.{
  Double, Config, Bucket, Buckets, find_bucket, put_bucket, bucket_or_fresh, refilled,
  decide_tokens, check,
}

-- What IEEE arithmetic on numbers (no NaN) guarantees, rounding included.
pub record RoundingLaws (d : Double) : Type 0 where
  pub trans : (a b c : d.F) → d.leq a b ≡ true → d.leq b c ≡ true → d.leq a c ≡ true
  pub min_left : (a b : d.F) → d.leq (d.min a b) a ≡ true
  pub min_glb : (a b c : d.F) → d.leq c a ≡ true → d.leq c b ≡ true → d.leq c (d.min a b) ≡ true
  pub of_ℕ_refl : (n : ℕ) → d.leq (d.of_ℕ n) (d.of_ℕ n) ≡ true
  pub of_ℕ_nonneg : (n : ℕ) → d.leq (d.of_ℕ 0) (d.of_ℕ n) ≡ true
  pub seconds_nonneg : (n : ℕ) → d.leq (d.of_ℕ 0) (d.seconds n) ≡ true
  pub add_nonneg :
      (a b : d.F)
      → d.leq (d.of_ℕ 0) a ≡ true
      → d.leq (d.of_ℕ 0) b ≡ true
      → d.leq (d.of_ℕ 0) (d.add a b) ≡ true
  pub mul_nonneg :
      (a b : d.F)
      → d.leq (d.of_ℕ 0) a ≡ true
      → d.leq (d.of_ℕ 0) b ≡ true
      → d.leq (d.of_ℕ 0) (d.mul a b) ≡ true
  pub sub_one_nonneg :
      (a : d.F) → d.leq (d.of_ℕ 1) a ≡ true → d.leq (d.of_ℕ 0) (d.sub a (d.of_ℕ 1)) ≡ true
  pub sub_one_le : (a : d.F) → d.leq (d.sub a (d.of_ℕ 1)) a ≡ true

module _ (d : Double) (l : RoundingLaws d) (config : Config d)
    (refills : d.leq (d.of_ℕ 0) config.refill_per_sec ≡ true) where
  abbrev pub Within : d.F → Type 0
  Within x = (d.leq (d.of_ℕ 0) x ≡ true) × (d.leq x (d.of_ℕ config.capacity) ≡ true)

  abbrev pub AllWithin : Buckets d → Type 0
  AllWithin = All (λ (p : Bytes × Bucket d). Within p.1.tokens)

  find_bucket-Within :
      (key : Bytes) (now : ℕ) (buckets : Buckets d)
      → AllWithin buckets
      → Within (bucket_or_fresh d config now (find_bucket d key buckets)).tokens
  unfolding find_bucket bucket_or_fresh
  find_bucket-Within key now [] h = (l.of_ℕ_nonneg config.capacity, l.of_ℕ_refl config.capacity)
  find_bucket-Within key now ((k, b) ∷ rest) h = elim (Bool-cases (eqb k key)) [
    | inl same ↦ rw (same, find_bucket, bucket_or_fresh) h.0
    | inr differs ↦ rw (differs, find_bucket, bucket_or_fresh) (find_bucket-Within key now rest h.1)
  ]

  put_bucket-Within :
      (key : Bytes) (b : Bucket d) (buckets : Buckets d)
      → Within b.tokens
      → AllWithin buckets
      → AllWithin (put_bucket d key b buckets)
  unfolding put_bucket
  put_bucket-Within key b [] w h = (w, tt)
  put_bucket-Within key b ((k, old) ∷ rest) w h = elim (Bool-cases (eqb k key)) [
    | inl same ↦ rw (same, put_bucket) (w, h.1)
    | inr differs ↦ rw (differs, put_bucket) (h.0, put_bucket-Within key b rest w h.1)
  ]

  refilled-Within : (now : ℕ) (b : Bucket d) → Within b.tokens → Within (refilled d config now b)
  unfolding refilled
  refilled-Within now b w = elim (Bool-cases (d.less (d.of_ℕ 0) (d.seconds (now - b.last)))) [
    | inr same_time ↦ rw (same_time, refilled) w
    | inl later ↦
        rw (later, refilled)
          (
            l.min_glb _ _ _ (l.of_ℕ_nonneg config.capacity)
                (l.add_nonneg _ _ w.0 (l.mul_nonneg _ _ (l.seconds_nonneg _) refills)),
            l.min_left _ _,
          )
  ]

  decide_tokens-Within :
      (x : d.F)
      → Within x
      → Within (decide_tokens d config x).0 × Within (decide_tokens d config x).1.remaining
  unfolding decide_tokens
  decide_tokens-Within x w = elim (Bool-cases (d.leq (d.of_ℕ 1) x)) [
    | inl enough ↦
        let less_one : Within (d.sub x (d.of_ℕ 1)) =
          (l.sub_one_nonneg x enough, l.trans _ _ _ (l.sub_one_le x) w.1) in
        rw (enough, decide_tokens) (less_one, less_one)
    | inr too_few ↦ rw (too_few, decide_tokens) (w, w)
  ]

  check-Within :
      (key : Bytes) (now : ℕ) (buckets : Buckets d)
      → AllWithin buckets
      → AllWithin (check d config key now buckets).1
        × Within (check d config key now buckets).0.remaining
  unfolding check
  check-Within key now buckets h =
      let (left, remaining) =
        decide_tokens-Within _ (refilled-Within now _ (find_bucket-Within key now buckets h)) in
      (put_bucket-Within key _ buckets left h, remaining)

pub find-put_bucket :
    (d : Double) (key other : Bytes) (b : Bucket d) (buckets : Buckets d)
    → find_bucket d other (put_bucket d key b buckets)
      ≡ (if eqb key other then some b else find_bucket d other buckets)
unfolding find_bucket put_bucket
find-put_bucket d key other b [] = refl
find-put_bucket d key other b ((k, old) ∷ rest) =
    ground
      (arith, eqb_iff k key, eqb_iff k other, eqb_iff key other, find-put_bucket d key other b rest)

find-put_ne :
    (d : Double) (key other : Bytes) (b : Bucket d) (buckets : Buckets d)
    → key ≢ other
    → find_bucket d other (put_bucket d key b buckets) ≡ find_bucket d other buckets
find-put_ne d key other b buckets differs =
    ground (arith, find-put_bucket d key other b buckets, eqb_iff key other)

-- With double operations that round as `RoundingLaws` says and a rate that is not negative, `check`
-- keeps the tokens of every bucket between 0 and the capacity, and reports a remainder in that range.
pub check_invariant :
    (d : Double) (l : RoundingLaws d) (config : Config d)
    (refills : d.leq (d.of_ℕ 0) config.refill_per_sec ≡ true) (key : Bytes) (now : ℕ)
    (buckets : Buckets d)
    → AllWithin d l config refills buckets
    → AllWithin d l config refills (check d config key now buckets).1
      × Within d l config refills (check d config key now buckets).0.remaining
check_invariant d l config refills key now buckets h =
    check-Within d l config refills key now buckets h

-- A call of `check` for one key leaves the bucket of every other key as it is.
pub check-other_keys :
    (d : Double) (config : Config d) (key other : Bytes) (now : ℕ) (buckets : Buckets d)
    → key ≢ other
    → find_bucket d other (check d config key now buckets).1 ≡ find_bucket d other buckets
unfolding check
check-other_keys d config key other now buckets differs = find-put_ne d key other _ buckets differs
