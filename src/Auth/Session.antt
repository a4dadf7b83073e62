-- ===== src/Auth/Session.antt =====
-- backend/src/auth/session.hpp and session.cpp. The bytes that /dev/urandom delivers are the
-- argument `Source`.
pub mod Laws
use oj_vibe_coding.Base.{
  ℕ, zero, suc, ◌+◌, ◌-◌, ◌*◌, ◌/◌, ◌%◌, Bool, not, ◌&&◌, ◌||◌, [], ◌∷◌, ◌++◌, ltb, ◌==◌,
  if◌then◌else◌, length, take, is_empty, all,
}
use oj_vibe_coding.Base.Result.{invalid_argument, other, Result, ok, err, ◌>>=◌, ◌>>◌}
use oj_vibe_coding.Text.{Bytes, bytes, is_xdigit}

abbrev pub session_cookie_name : Bytes
session_cookie_name = bytes "minioj_sid"

abbrev pub session_id_bytes : ℕ
session_id_bytes = 32

abbrev pub session_id_hex_length : ℕ
session_id_hex_length = session_id_bytes * 2

-- Whether the device opens, and what each `read` delivers, at most what is asked for; an empty list
-- stands for `count <= 0`.
pub record Source : Type 0 where
  pub opens : Bool
  pub reads : ℕ → Bytes

abbrev pub hex_digit : ℕ → ℕ
hex_digit n = if ltb n 10 then n + 48 else n + 87

-- `std::setw(2)` under `std::hex` and `setfill('0')`: two digits of a byte.
abbrev pub hex_byte : ℕ → Bytes
hex_byte b = hex_digit (b / 16) ∷ hex_digit (b % 16) ∷ []

unfoldable pub hex_bytes : Bytes → Bytes
hex_bytes [] = []
hex_bytes (b ∷ s) = hex_byte b ++ hex_bytes s

-- The read loop: `need` bytes are still wanted, `k` is the next read. Every read that goes on
-- delivers a byte, so `need` rounds of fuel are enough.
unfoldable pub read_loop : ℕ → ℕ → Source → ℕ → Result Bytes
read_loop fuel zero source k = ok []
read_loop zero (suc need) source k = err (other (bytes "out of fuel"))
read_loop (suc fuel) (suc need) source k =
    let got = take (suc need) (source.reads k) in
    let rest = read_loop fuel (suc need - length got) source (suc k) in
    if is_empty got
    then err (other (bytes "failed to read random source"))
    else (do later ← rest; ok (got ++ later))

unfoldable pub random_hex : ℕ → Source → Result Bytes
random_hex count source =
    if count == 0 || ltb 32 count
    then err (invalid_argument (bytes "session id entropy out of range"))
    else if not source.opens
    then err (other (bytes "failed to open random source"))
    else (do buffer ← read_loop count count source 0; ok (hex_bytes buffer))

unfoldable pub generate_session_id : Source → Result Bytes
generate_session_id source = random_hex session_id_bytes source

unfoldable pub is_session_id_shape : Bytes → Bool
is_session_id_shape value = length value == session_id_hex_length && all is_xdigit value

append_flag : Bytes → Bytes → Bytes
append_flag out flag = (if not (is_empty out) then out ++ bytes "; " else out) ++ flag

-- The decimal digits of `std::to_string` on an unsigned number, by fuel.
decimal_loop : ℕ → ℕ → Bytes → Bytes
decimal_loop zero n acc = acc
decimal_loop (suc fuel) n acc =
    let more = decimal_loop fuel (n / 10) ((n % 10 + 48) ∷ acc) in
    if ltb n 10 then (n + 48) ∷ acc else more

unfoldable pub decimal : ℕ → Bytes
unfolding decimal_loop
decimal n = decimal_loop (suc n) n []

-- `ttl` is a count of seconds; one that is not positive is 0 here.
unfoldable pub format_session_cookie : Bytes → ℕ → Bool → Bytes
unfolding append_flag
format_session_cookie session_id ttl secure =
    if secure then append_flag with_age (bytes "Secure") else with_age
  where
    flags : Bytes
    flags =
        append_flag
          (append_flag
            (append_flag (session_cookie_name ++ bytes "=" ++ session_id) (bytes "Path=/"))
            (bytes "HttpOnly"))
          (bytes "SameSite=Lax")

    with_age : Bytes
    with_age = if ltb 0 ttl then flags ++ bytes "; Max-Age=" ++ decimal ttl else flags

unfoldable pub format_clear_session_cookie : Bool → Bytes
unfolding append_flag
format_clear_session_cookie secure =
    if secure then append_flag expired (bytes "Secure") else expired
  where
    expired : Bytes
    expired =
        append_flag
          (append_flag (append_flag (session_cookie_name ++ bytes "=") (bytes "Path=/"))
            (bytes "HttpOnly"))
          (bytes "SameSite=Lax")
        ++ bytes "; Max-Age=0"
