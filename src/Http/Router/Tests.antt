-- ===== src/Http/Router/Tests.antt =====
-- An administrator's request through the guards and the routes.
use oj_vibe_coding.Http.Message.{Request, Response, empty_response, unhandled}
use oj_vibe_coding.Http.Tests.Instances.{toy_json, whole_seconds}
use oj_vibe_coding.Http.Handlers.Tests.{auth_host, settings, judging}
use oj_vibe_coding.Http.Handlers.Admin.{list_admin_problems_handler}
use oj_vibe_coding.Http.AdminAuth.Laws.{FromAdmin}
use oj_vibe_coding.Http.AdminAuth.{
  starts_with_admin_path, judge_user, judge_session, check_admin_auth,
}
use oj_vibe_coding.Http.RateLimiter.{check, decide_tokens, refilled, bucket_or_fresh, find_bucket}
use oj_vibe_coding.Http.RateLimit.{answer, check_rate_limit}
use oj_vibe_coding.Http.ClientKey.{client_key}
use oj_vibe_coding.Http.Csrf.{check_csrf, is_state_changing}
use oj_vibe_coding.Http.Router.{
  Route, route, Services, Guards, Outcome, stopped, served, not_found, Matcher, auth_routes,
  public_routes, admin_routes, all_routes, find_route, pre_routing, run_route, dispatch, serve,
}
use oj_vibe_coding.Http.Router.Passing.{IsPassed, KeepsPrefix, pre_routing_iff, serve-FromAdmin}
use oj_vibe_coding.Http.Cookie.{
  parse_session_id, parse_session_cookie, read_cookie_value, read_loop, match_pair, match_value,
  split_at, drop_trailing, skip_whitespace, equals_ignore_case, write_error, write_json,
}
use oj_vibe_coding.Auth.Session.{is_session_id_shape}
use oj_vibe_coding.Config.Numbers.{stoull, unsigned_of, count_space, read_sign, read_digits}
use oj_vibe_coding.Db.Users.{is_shape_session_id, find_user_by_valid_session_id}
use oj_vibe_coding.Db.Users.Rows.{parse_role_or_throw, read_session_user, first_row}
use oj_vibe_coding.Db.Client.Toy.{scripted, answering, done, gives}
use oj_vibe_coding.Base.{
  ◌≡◌, refl, subst, ◌↔◌, true, ◌&&◌, none, some, [], ◌∷◌, ◌++◌, arith, if◌then◌else◌,
}
use oj_vibe_coding.Base.Result.{Result, ok}
use oj_vibe_coding.Text.{Bytes, bytes, eqb, eq_of_eqb}
use oj_vibe_coding.Base.Effect.{continue, ◌>>=◌, ◌>>◌}
use oj_vibe_coding.Db.Client.{
  column, Client, send, throw_error, execute, stored, fetch, select, escape, give_back, with_lease,
  using_lease,
}

abbrev session : Bytes
session = bytes "0123456789abcdef0123456789abcdef0123456789abcdef0123456789abcdef"

abbrev listing : Request
listing = record {
  method = bytes "GET";
  path = bytes "/api/admin/problems";
  remote_addr = bytes "10.0.0.7";
  body = [];
  header =
      λ name. if eqb name (bytes "Cookie") then some (bytes "minioj_sid=" ++ session) else none;
  param = λ name. none;
  id_param = [];
}

abbrev guards : Guards whole_seconds
guards = record {
  limits = record { capacity = 3; refill_per_sec = 1 };
  trusted = none;
  config_host = [];
}

abbrev services : Services
services = record {
  auth = auth_host;
  settings = settings;
  judging = judging;
  around = record { seed_json = none; self_exe = none; files = λ path. none };
}

-- The method and the path are those of the route.
abbrev exact : Matcher
exact method pattern req = if eqb method req.method && eqb pattern req.path then some req else none

exact-KeepsPrefix : KeepsPrefix exact
exact-KeepsPrefix = record {
  below = λ method pattern req req' fit prefix.
      subst (λ path. starts_with_admin_path path ≡ true) (eq_of_eqb pattern req.path (ground arith))
        prefix;
}

-- The session's user is an administrator; then there are no problems.
abbrev as_admin : Client scripted
as_admin =
    answering
      (gives (some (bytes "12") ∷ some (bytes "ann") ∷ some (bytes "admin") ∷ []) ∷ done ∷ [])

pre_routing_iff_example :
    ((pre_routing whole_seconds
        (λ n. n)
        toy_json
        scripted
        guards
        5
        listing
        empty_response
        []
        as_admin).0.0
      ≡ unhandled)
    ↔ IsPassed whole_seconds (λ n. n) toy_json scripted guards 5 listing empty_response [] as_admin
pre_routing_iff_example =
    pre_routing_iff whole_seconds (λ n. n) toy_json scripted guards 5 listing empty_response []
      as_admin

abbrev served_listing : Outcome scripted
served_listing =
    (serve whole_seconds (λ n. n) toy_json scripted guards exact services 5 listing empty_response
      [] as_admin).0

abbrev result_of : Outcome scripted → Result Response
result_of (served r result) = result
result_of (stopped res) = ok res
result_of (not_found res) = ok res

abbrev listing_route : Route scripted
listing_route =
    route scripted (bytes "GET") (bytes "/api/admin/problems")
      (list_admin_problems_handler toy_json scripted)

listing_served : served_listing ≡ served listing_route (result_of served_listing)
unfolding serve dispatch run_route find_route all_routes auth_routes public_routes admin_routes
    pre_routing check_rate_limit check decide_tokens refilled bucket_or_fresh find_bucket answer
    client_key check_csrf is_state_changing check_admin_auth judge_session judge_user
    starts_with_admin_path find_user_by_valid_session_id read_session_user first_row column
    is_shape_session_id parse_role_or_throw using_lease with_lease give_back escape select execute
    send fetch stored throw_error ◌>>=◌ ◌>>◌ continue stoull unsigned_of count_space read_sign
    read_digits parse_session_id parse_session_cookie read_cookie_value read_loop match_pair
    match_value split_at drop_trailing skip_whitespace equals_ignore_case is_session_id_shape
    write_error write_json bytes eqb
listing_served = refl

serve-FromAdmin_example :
    FromAdmin scripted listing as_admin
    × IsPassed whole_seconds (λ n. n) toy_json scripted guards 5 listing empty_response [] as_admin
unfolding starts_with_admin_path bytes eqb
serve-FromAdmin_example =
    serve-FromAdmin whole_seconds (λ n. n) toy_json scripted guards exact exact-KeepsPrefix services
      5 listing empty_response [] as_admin listing_route (result_of served_listing) listing_served
      refl
