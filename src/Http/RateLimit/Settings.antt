-- ===== src/Http/RateLimit/Settings.antt =====
-- The settings of the limiter that backend/src/http/rate_limit.cpp reads from the environment.
use oj_vibe_coding.Config.Numbers.{count_space, read_sign, read_digits}
use oj_vibe_coding.Http.Message.{Int64, non_negative, negative}
use oj_vibe_coding.Http.RateLimiter.{Double, Config}
use oj_vibe_coding.Base.{
  ℕ, ◌+◌, ◌-◌, ◌^◌, not, ◌&&◌, Option, none, some, [], ◌∷◌, ltb, ◌==◌, if◌then◌else◌,
}
use oj_vibe_coding.Text.{Bytes, bytes}

-- `std::stoi` in base 10; `none` where it throws. What stands behind the digits is not looked at.
unfoldable pub stoi : Bytes → Option Int64
stoi text =
    let (blanks, signed) = count_space text in
    let (sign, minus, digits) = read_sign signed in
    let (used, value) = read_digits 0 digits in
    if used == 0
    then none
    else if minus && not (value == 0)
    then (if ltb 2_147_483_648 value then none else some (negative (value - 1)))
    else if ltb 2_147_483_647 value
    then none
    else some (non_negative value)

abbrev pub or_fallback {ℓ} : {A : Type ℓ} → A → Option A → A
or_fallback fallback none = fallback
or_fallback fallback (some value) = value

-- A variable that is set and not empty, read, or the fallback.
unfoldable pub env_value {ℓ} : {A : Type ℓ} → (Bytes → Option A) → Option Bytes → A → A
env_value read none fallback = fallback
env_value read (some []) fallback = fallback
env_value read (some (c ∷ v)) fallback = or_fallback fallback (read (c ∷ v))

unfoldable pub env_int : Option Bytes → Int64 → Int64
unfolding env_value
env_int variable fallback = env_value stoi variable fallback

-- `static_cast<std::size_t>` of an int.
unfoldable pub to_size : Int64 → ℕ
to_size (non_negative n) = n
to_size (negative n) = 2 ^ 64 - (n + 1)

module _ (d : Double) (stod : Bytes → Option d.F) where
  unfoldable pub env_double : Option Bytes → d.F → d.F
  unfolding env_value
  env_double variable fallback = env_value stod variable fallback

  -- The configuration of `limiter()`.
  unfoldable pub limiter_config : (Bytes → Option Bytes) → Config d
  limiter_config environment = record {
    capacity = to_size (env_int (environment (bytes "RATE_LIMIT_CAPACITY")) (non_negative 60));
    refill_per_sec = env_double (environment (bytes "RATE_LIMIT_REFILL_PER_SEC")) (d.of_ℕ 1);
  }
