-- ===== src/Auth/Validator.antt =====
-- backend/src/auth/validator.hpp and validator.cpp
pub mod Laws
use oj_vibe_coding.Base.{
  ℕ, Bool, true, false, not, ◌&&◌, ◌||◌, [], ◌∷◌, ltb, ◌==◌, if◌then◌else◌, length,
}
use oj_vibe_coding.Base.Result.{invalid_argument, Result, ok, err}
use oj_vibe_coding.Text.{Bytes, bytes, is_digit, is_alpha, is_alnum}

abbrev pub username_min_length : ℕ
username_min_length = 3

abbrev pub username_max_length : ℕ
username_max_length = 20

abbrev pub password_min_length : ℕ
password_min_length = 8

abbrev pub password_max_length : ℕ
password_max_length = 64

unfoldable pub is_username_char : ℕ → Bool
is_username_char ch = is_alnum ch || ch == b'_'

-- The loop over the characters.
check_username_chars : Bytes → Result (Unit {0})
check_username_chars [] = ok tt
check_username_chars (ch ∷ rest) =
    if not (is_username_char ch)
    then err (invalid_argument (bytes "username may only contain letters, digits, and underscores"))
    else check_username_chars rest

unfoldable pub validate_username : Bytes → Result (Unit {0})
unfolding check_username_chars
validate_username username =
    if ltb (length username) username_min_length || ltb username_max_length (length username)
    then err (invalid_argument (bytes "username must be 3 to 20 characters long"))
    else check_username_chars username

-- The loop of `validatePassword` over `has_letter` and `has_digit`, with its early `break`.
scan_password : Bool → Bool → Bytes → Bool × Bool
scan_password has_letter has_digit [] = (has_letter, has_digit)
scan_password has_letter has_digit (ch ∷ rest) =
    let letter = has_letter || is_alpha ch in
    let digit = has_digit || is_digit ch in
    elim (letter && digit) [ true ↦ (letter, digit) | false ↦ scan_password letter digit rest ]

unfoldable pub validate_password : Bytes → Result (Unit {0})
unfolding scan_password
validate_password password =
    if ltb (length password) password_min_length || ltb password_max_length (length password)
    then err (invalid_argument (bytes "password must be 8 to 64 characters long"))
    else let (has_letter, has_digit) = scan_password false false password in
      if not has_letter || not has_digit
      then err (invalid_argument (bytes "password must contain at least one letter and one digit"))
      else ok tt
