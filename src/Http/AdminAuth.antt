-- ===== src/Http/AdminAuth.antt =====
-- backend/src/http/admin_auth.cpp: the guard in front of the administrators' routes.
mod Rows
pub mod Laws
mod Tests
use oj_vibe_coding.Base.{
  ◌+◌, ◌/◌, Bool, true, false, not, Option, none, some, ◌++◌, ltb, if◌then◌else◌, length, take,
}
use oj_vibe_coding.Base.Result.{what, Result, ok, err}
use oj_vibe_coding.Text.{Bytes, bytes, eqb}
use oj_vibe_coding.Http.Message.{Request, Response, HandlerResponse, handled, unhandled, Json}
use oj_vibe_coding.Http.Cookie.{parse_session_id, write_error}
use oj_vibe_coding.Db.Users.{find_user_by_valid_session_id}
use oj_vibe_coding.Db.Users.Rows.{UserRole, UserSummary}
use oj_vibe_coding.Db.Client.{Mysql, Client}

abbrev pub admin_path_prefix : Bytes
admin_path_prefix = bytes "/api/admin/"

unfoldable pub starts_with_admin_path : Bytes → Bool
starts_with_admin_path path =
    if ltb (length path) 11 then false else eqb (take 11 path) admin_path_prefix

abbrev pub is_admin : UserRole → Bool
is_admin UserRole.admin = true
is_admin UserRole.user = false

-- What a guard and a handler run on: the response, and the connection to the database.
abbrev pub Guard : (m : Mysql) → Type 0
Guard m = Response → Client m → (HandlerResponse × Response) × Client m

module _ (j : Json) where
  -- The rest of the guard, once the user is looked up.
  unfoldable pub judge_user : Result (Option UserSummary) → Response → HandlerResponse × Response
  judge_user (err e) res = (handled, write_error j 500 (bytes "auth error: " ++ what e) res)
  judge_user (ok none) res = (handled, write_error j 401 (bytes "session expired or invalid") res)
  judge_user (ok (some user)) res =
      if not (is_admin user.role)
      then (handled, write_error j 403 (bytes "admin role required") res)
      else (unhandled, res)

module _ (j : Json) (m : Mysql) where
  unfoldable pub judge_session : Option Bytes → Guard m
  judge_session none res c = ((handled, write_error j 401 (bytes "not logged in") res), c)
  judge_session (some session_id) res c =
      let (found, c') = find_user_by_valid_session_id m session_id c in (judge_user j found res, c')

  unfoldable pub check_admin_auth : Request → Guard m
  check_admin_auth req res c =
      if not (starts_with_admin_path req.path)
      then ((unhandled, res), c)
      else judge_session (parse_session_id req) res c
