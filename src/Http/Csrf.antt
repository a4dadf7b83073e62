-- ===== src/Http/Csrf.antt =====
-- backend/src/http/csrf.cpp. The environment variable CSRF_TRUSTED_ORIGINS is an argument, `none` if
-- it is not set.
pub mod Laws
use oj_vibe_coding.Base.{
  ℕ, ◌+◌, ◌-◌, ◌/◌, Bool, false, not, ◌&&◌, ◌||◌, Option, none, some, List, [], ◌∷◌, ◌++◌, leb,
  ◌==◌, if◌then◌else◌, is_empty,
}
use oj_vibe_coding.Text.{Bytes, bytes, eqb}
use oj_vibe_coding.Http.Message.{
  Request, value_or_empty, Response, HandlerResponse, handled, unhandled, Json,
}
use oj_vibe_coding.Http.Cookie.{equals_ignore_case, write_error}

-- `iequals` is `equalsIgnoreCase` of middleware.cpp.
unfoldable pub is_state_changing : Bytes → Bool
is_state_changing method =
    equals_ignore_case method (bytes "POST")
    || equals_ignore_case method (bytes "PUT")
    || equals_ignore_case method (bytes "DELETE")
    || equals_ignore_case method (bytes "PATCH")

-- <cctype> isspace, by which `>>` splits.
abbrev pub is_space : ℕ → Bool
is_space c = c == b' ' || (leb b'\t' c && leb c b'\r')

-- `while (stream >> token) out.push_back(token);` with the token read so far.
unfoldable pub words_from : Bytes → Bytes → List Bytes
words_from token [] = if is_empty token then [] else token ∷ []
words_from token (c ∷ s) =
    let rest = words_from (if is_space c then [] else token ++ (c ∷ [])) s in
    if is_space c && not (is_empty token) then token ∷ rest else rest

unfoldable pub parse_trusted_origins : Option Bytes → List Bytes
parse_trusted_origins none = []
parse_trusted_origins (some env) = words_from [] env

unfoldable pub default_origins : Bytes → List Bytes
default_origins config_host =
    let host = if is_empty config_host then bytes "localhost" else config_host in
    (bytes "http://" ++ host)
    ∷ (bytes "https://" ++ host)
    ∷ (if eqb host (bytes "0.0.0.0")
        then bytes "http://localhost" ∷ bytes "http://127.0.0.1" ∷ []
        else [])

unfoldable pub origin_allowed : Bytes → List Bytes → Bool
origin_allowed origin [] = false
origin_allowed origin (t ∷ trusted) = eqb origin t || origin_allowed origin trusted

-- The origins that are trusted: those of the environment, or the defaults.
unfoldable pub trusted_origins : Option Bytes → Bytes → List Bytes
trusted_origins env config_host =
    let listed = parse_trusted_origins env in
    if is_empty listed then default_origins config_host else listed

unfoldable pub check_csrf :
    Json → Option Bytes → Bytes → Request → Response → HandlerResponse × Response
unfolding origin_allowed
check_csrf j env config_host req res =
    if not (is_state_changing req.method)
    then (unhandled, res)
    else let origin = value_or_empty (req.header (bytes "Origin")) in
      if is_empty origin
      then (unhandled, res)
      else if origin_allowed origin (trusted_origins env config_host)
      then (unhandled, res)
      else (handled, write_error j 403 (bytes "cross-origin request rejected by CSRF guard") res)
