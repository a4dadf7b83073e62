-- ===== src/Http/Cookie.antt =====
-- The cookie reader and the response writers of backend/src/http/middleware.cpp.
pub mod Reading
use oj_vibe_coding.Base.{
  ℕ, zero, suc, ◌-◌, ◌/◌, Bool, true, false, not, ◌&&◌, ◌||◌, Option, none, some, [], ◌∷◌, ◌==◌,
  if◌then◌else◌, length, is_empty,
}
use oj_vibe_coding.Text.{Bytes, bytes, to_lower}
use oj_vibe_coding.Http.Message.{Request, value_or_empty, Response, set_header, Json}
use oj_vibe_coding.Auth.Session.{
  session_cookie_name, is_session_id_shape, format_session_cookie, format_clear_session_cookie,
}

unfoldable pub equals_ignore_case : Bytes → Bytes → Bool
equals_ignore_case [] [] = true
equals_ignore_case (a ∷ s) (b ∷ t) = to_lower a == to_lower b && equals_ignore_case s t
equals_ignore_case _ _ = false

abbrev pub is_whitespace : ℕ → Bool
is_whitespace ch = ch == b' ' || ch == b'\t'

-- `while (index < size && isWhitespace(...)) ++index` and the trimming from the front.
unfoldable pub skip_whitespace : Bytes → Bytes
skip_whitespace [] = []
skip_whitespace (ch ∷ s) = if is_whitespace ch then skip_whitespace s else ch ∷ s

-- The trimming from the back.
unfoldable pub drop_trailing : Bytes → Bytes
drop_trailing [] = []
drop_trailing (ch ∷ s) = elim (drop_trailing s) [
  | [] ↦ if is_whitespace ch then [] else ch ∷ []
  | d ∷ t ↦ ch ∷ d ∷ t
]

-- The text before the first `c`, and the text behind it if there is one.
unfoldable pub split_at : ℕ → Bytes → Bytes × Option Bytes
split_at c [] = ([], none)
split_at c (ch ∷ s) =
    let (before, after) = split_at c s in if ch == c then ([], some s) else (ch ∷ before, after)

unfoldable pub match_value : Bytes → Bytes → Option Bytes → Option Bytes
match_value name key none = none
match_value name key (some value) =
    if equals_ignore_case (drop_trailing (skip_whitespace key)) name then some value else none

-- The part of the loop between `pair_begin` and `pair_end`.
unfoldable pub match_pair : Bytes → Bytes → Option Bytes
unfolding match_value
match_pair name pair = let (key, value) = split_at b'=' pair in match_value name key value

abbrev pub or_else : Option Bytes → Option Bytes → Option Bytes
or_else (some value) later = some value
or_else none later = later

-- The loop of `readCookieValue`: `cookies` is the text from `index` on. Each round takes a byte at
-- least, so a fuel above the length is enough.
unfoldable pub read_loop : ℕ → Bytes → Bytes → Option Bytes
read_loop zero name cookies = none
read_loop (suc fuel) name cookies =
    let here = skip_whitespace cookies in
    let (pair, rest) = split_at b';' here in
    let later = read_loop fuel name (value_or_empty rest) in
    if is_empty here then none else or_else (match_pair name pair) later

unfoldable pub read_cookie_value : Bytes → Bytes → Option Bytes
read_cookie_value cookies name = read_loop (suc (length cookies)) name cookies

unfoldable pub parse_session_cookie : Request → Option Bytes
parse_session_cookie req = elim (req.header (bytes "Cookie")) [
  | none ↦ none
  | some raw ↦ read_cookie_value raw session_cookie_name
]

unfoldable pub parse_session_id : Request → Option Bytes
unfolding parse_session_cookie
parse_session_id req = elim (parse_session_cookie req) [
  | none ↦ none
  | some cookie ↦ if not (is_session_id_shape cookie) then none else some cookie
]

unfoldable pub attach_session_cookie : Bytes → ℕ → Bool → Response → Response
attach_session_cookie session_id ttl secure_cookie res =
    set_header (bytes "Set-Cookie") (format_session_cookie session_id ttl secure_cookie) res

unfoldable pub clear_session_cookie : Bool → Response → Response
clear_session_cookie secure_cookie res =
    set_header (bytes "Set-Cookie") (format_clear_session_cookie secure_cookie) res

module _ (j : Json) where
  open j use {Value, object_value, set_member, string_value, write}

  unfoldable pub write_json : ℕ → Value → Response → Response
  write_json status body res = record res {
    status = status;
    content = write body;
    content_type = bytes "application/json; charset=utf-8";
  }

  unfoldable pub write_error : ℕ → Bytes → Response → Response
  unfolding write_json
  write_error status message res =
      write_json status (set_member object_value (bytes "error") (string_value message)) res
