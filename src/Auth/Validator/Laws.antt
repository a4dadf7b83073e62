-- ===== src/Auth/Validator/Laws.antt =====
-- Exactly which names and passwords backend/src/auth/validator.cpp accepts.
use oj_vibe_coding.Base.{
  ℕ, ◌≤◌, ◌≡◌, ◌↔◌, Bool, true, false, ◌&&◌, ◌||◌, [], ◌∷◌, arith, ◌==◌, length, All,
}
use oj_vibe_coding.Base.Result.{ok}
use oj_vibe_coding.Text.{Bytes, is_digit, is_alpha, is_alnum}
use oj_vibe_coding.Auth.Validator.{
  is_username_char, validate_username, validate_password, scan_password, check_username_chars,
}

abbrev pub any : (ℕ → Bool) → Bytes → Bool
any p [] = false
any p (c ∷ s) = p c || any p s

check_username_chars_iff :
    (s : Bytes) → (check_username_chars s ≡ ok tt) ↔ All (λ c. is_username_char c ≡ true) s
unfolding check_username_chars
check_username_chars_iff [] = ground arith
check_username_chars_iff (c ∷ s) = ground (arith, check_username_chars_iff s)

-- A user name is accepted exactly if it has 3 to 20 bytes, each an ASCII letter, a digit or `_`; no
-- quote, space or byte outside ASCII gets through.
pub validate_username_iff :
    (username : Bytes)
    → (validate_username username ≡ ok tt) ↔ (
        (3 ≤ length username)
        × (length username ≤ 20)
        × All (λ c. (is_alnum c || c == b'_') ≡ true) username)
unfolding validate_username is_username_char
validate_username_iff username = ground (arith, check_username_chars_iff username)

scan_password_lem :
    (a b : Bool) (s : Bytes)
    → (((scan_password a b s).0 && (scan_password a b s).1) ≡ true)
      ↔ (((a || any is_alpha s) && (b || any is_digit s)) ≡ true)
unfolding scan_password
scan_password_lem a b [] = ground arith
scan_password_lem a b (c ∷ s) =
    ground (arith, scan_password_lem (a || is_alpha c) (b || is_digit c) s)

-- A password is accepted exactly if it has 8 to 64 bytes, a letter among them and a digit among
-- them; the early end of the scan changes nothing.
pub validate_password_iff :
    (password : Bytes)
    → (validate_password password ≡ ok tt) ↔ (
        (8 ≤ length password)
        × (length password ≤ 64)
        × (any is_alpha password ≡ true)
        × (any is_digit password ≡ true))
unfolding validate_password
validate_password_iff password = ground (arith, scan_password_lem false false password)
