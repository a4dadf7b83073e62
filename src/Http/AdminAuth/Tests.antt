-- ===== src/Http/AdminAuth/Tests.antt =====
-- An administrator's request.
use oj_vibe_coding.Base.{◌≡◌, refl, ◌↔◌, none, some, [], ◌∷◌, ◌++◌, if◌then◌else◌}
use oj_vibe_coding.Text.{Bytes, bytes, eqb}
use oj_vibe_coding.Http.AdminAuth.Laws.{FromAdmin, check_admin_auth_iff}
use oj_vibe_coding.Http.Message.{Request, empty_response, unhandled}
use oj_vibe_coding.Http.Tests.Instances.{toy_json}
use oj_vibe_coding.Http.Cookie.{
  parse_session_id, parse_session_cookie, read_cookie_value, read_loop, match_pair, match_value,
  split_at, drop_trailing, skip_whitespace, equals_ignore_case, write_error, write_json,
}
use oj_vibe_coding.Auth.Session.{is_session_id_shape}
use oj_vibe_coding.Config.Numbers.{unsigned_of, stoull, count_space, read_sign, read_digits}
use oj_vibe_coding.Db.Users.{is_shape_session_id, find_user_by_valid_session_id}
use oj_vibe_coding.Db.Users.Rows.{parse_role_or_throw, read_session_user, first_row}
use oj_vibe_coding.Db.Client.{
  column, Client, send, throw_error, execute, stored, fetch, select, escape, give_back, with_lease,
  using_lease,
}
use oj_vibe_coding.Base.Effect.{continue, ◌>>=◌, ◌>>◌}
use oj_vibe_coding.Db.Client.Toy.{scripted, answering, gives}
use oj_vibe_coding.Http.AdminAuth.{
  starts_with_admin_path, judge_user, judge_session, check_admin_auth,
}

abbrev session : Bytes
session = bytes "0123456789abcdef0123456789abcdef0123456789abcdef0123456789abcdef"

abbrev edit : Request
edit = record {
  method = bytes "PUT";
  path = bytes "/api/admin/problems/3";
  remote_addr = bytes "10.0.0.7";
  body = [];
  header = λ name.
      if eqb name (bytes "Cookie") then some (bytes "a=b; minioj_sid=" ++ session) else none;
  param = λ _. none;
  id_param = bytes "3";
}

-- The database finds one row, for this role.
abbrev found_as : Bytes → Client scripted
found_as role = answering (gives (some (bytes "12") ∷ some (bytes "ann") ∷ some role ∷ []) ∷ [])

guard_tests :
    let run = λ (role : Bytes).
      (check_admin_auth toy_json scripted edit empty_response (found_as role)).0 in
    ((run (bytes "admin")).0 ≡ unhandled)
    × ((run (bytes "user")).1.status ≡ 403)
    × ((run (bytes "root")).1.status ≡ 500)
unfolding check_admin_auth judge_session judge_user starts_with_admin_path
    find_user_by_valid_session_id read_session_user first_row column is_shape_session_id
    parse_role_or_throw using_lease with_lease give_back escape select execute send fetch stored
    throw_error ◌>>=◌ ◌>>◌ continue stoull unsigned_of count_space read_sign read_digits
    parse_session_id parse_session_cookie read_cookie_value read_loop match_pair match_value
    split_at drop_trailing skip_whitespace equals_ignore_case is_session_id_shape write_error
    write_json bytes eqb
guard_tests = (refl, refl, refl)

check_admin_auth_iff_example :
    ((check_admin_auth toy_json scripted edit empty_response (found_as (bytes "admin"))).0.0
      ≡ unhandled)
    ↔ FromAdmin scripted edit (found_as (bytes "admin"))
unfolding starts_with_admin_path bytes eqb
check_admin_auth_iff_example =
    check_admin_auth_iff toy_json scripted edit empty_response (found_as (bytes "admin")) refl
