-- ===== src/Http/Router.antt =====
-- backend/src/http/router.cpp, with the lists of routes that handlers_auth.cpp, handlers_public.cpp
-- and handlers_admin.cpp register. Whether a method and a pattern fit a request is the HTTP library's
-- answer, the argument `matches`, which also sets the parameters of the path.
pub mod Passing
mod Tests
use oj_vibe_coding.Http.Message.{Request, Response, HandlerResponse, handled, unhandled, Json}
use oj_vibe_coding.Http.RateLimiter.{Double, Config, Buckets}
use oj_vibe_coding.Http.RateLimit.{check_rate_limit}
use oj_vibe_coding.Http.Csrf.{check_csrf}
use oj_vibe_coding.Http.AdminAuth.{check_admin_auth}
use oj_vibe_coding.Http.Handlers.{Handler}
use oj_vibe_coding.Http.Handlers.Auth.{
  AuthHost, SessionSettings, me_handler, register_handler, login_handler, logout_handler,
}
use oj_vibe_coding.Http.Handlers.Public.{
  Judging, list_problems_handler, get_problem_handler, submit_handler,
}
use oj_vibe_coding.Http.Handlers.Admin.{
  Surroundings, list_admin_problems_handler, create_problem_handler, get_admin_problem_handler,
  update_problem_handler, delete_problem_handler, reset_problem_bank_handler,
}
use oj_vibe_coding.Base.{
  ℕ, ◌+◌, ◌/◌, Bool, true, false, Option, none, some, List, [], ◌∷◌, ◌++◌, if◌then◌else◌,
}
use oj_vibe_coding.Base.Result.{Result}
use oj_vibe_coding.Text.{Bytes, bytes}
use oj_vibe_coding.Db.Client.{Mysql, Client}

abbrev pub is_handled : HandlerResponse → Bool
is_handled handled = true
is_handled unhandled = false

pub record Route (m : Mysql) : Type 0 where
  pub method : Bytes
  pub pattern : Bytes
  pub handler : Handler m

-- What the handlers find around them.
pub record Services : Type 0 where
  pub auth : AuthHost
  pub settings : SessionSettings
  pub judging : Judging
  pub around : Surroundings

abbrev pub route : (m : Mysql) → Bytes → Bytes → Handler m → Route m
route m method pattern handler = record { method = method; pattern = pattern; handler = handler }

module _ (j : Json) (m : Mysql) (s : Services) where
  unfoldable pub auth_routes : List (Route m)
  auth_routes =
      route m (bytes "GET") (bytes "/api/auth/me") (me_handler j m)
      ∷ route m (bytes "POST") (bytes "/api/auth/register") (register_handler j m s.auth s.settings)
      ∷ route m (bytes "POST") (bytes "/api/auth/login") (login_handler j m s.auth s.settings)
      ∷ route m (bytes "POST") (bytes "/api/auth/logout") (logout_handler j m s.settings)
      ∷ []

  unfoldable pub public_routes : List (Route m)
  public_routes =
      route m (bytes "GET") (bytes "/api/problems") (list_problems_handler j m)
      ∷ route m (bytes "GET") (bytes "/api/problems/:id") (get_problem_handler j m)
      ∷ route m (bytes "POST") (bytes "/api/submissions") (submit_handler j m s.judging)
      ∷ []

  unfoldable pub admin_routes : List (Route m)
  admin_routes =
      route m (bytes "GET") (bytes "/api/admin/problems") (list_admin_problems_handler j m)
      ∷ route m (bytes "POST") (bytes "/api/admin/problems") (create_problem_handler j m)
      ∷ route m (bytes "GET") (bytes "/api/admin/problems/:id") (get_admin_problem_handler j m)
      ∷ route m (bytes "PUT") (bytes "/api/admin/problems/:id") (update_problem_handler j m)
      ∷ route m (bytes "DELETE") (bytes "/api/admin/problems/:id") (delete_problem_handler j m)
      ∷ route m (bytes "POST") (bytes "/api/admin/reset") (reset_problem_bank_handler j m s.around)
      ∷ []

  unfoldable pub all_routes : List (Route m)
  all_routes = auth_routes ++ public_routes ++ admin_routes

-- The limiter's configuration, CSRF_TRUSTED_ORIGINS, and the host of the HTTP configuration.
pub record Guards (d : Double) : Type 0 where
  pub limits : Config d
  pub trusted : Option Bytes
  pub config_host : Bytes

-- What the library does with a request: a guard answers, a route's handler runs, or none is found.
pub data Outcome (m : Mysql) : Type 0 where
  stopped : Response → Outcome m
  served : Route m → Result Response → Outcome m
  not_found : Response → Outcome m

abbrev pub Matcher : Type 0
Matcher = Bytes → Bytes → Request → Option Request

-- The first route that fits, and the request with the parameters of its path.
unfoldable pub find_route :
    {m : Mysql} → Matcher → List (Route m) → Request → Option (Route m × Request)
find_route matches [] req = none
find_route matches (r ∷ rest) req = elim (matches r.method r.pattern req) [
  | some req' ↦ some (r, req')
  | none ↦ find_route matches rest req
]

module _ (d : Double) (truncate : d.F → ℕ) (j : Json) (m : Mysql) (g : Guards d) where
  -- The handler that `set_pre_routing_handler` takes, at the time `now`.
  unfoldable pub pre_routing :
      ℕ
      → Request
      → Response
      → Buckets d
      → Client m
      → (HandlerResponse × Response) × Buckets d × Client m
  pre_routing now req res buckets c =
      let ((limited, res1), buckets') =
        check_rate_limit d truncate j g.limits now req res buckets in
      let (crossed, res2) = check_csrf j g.trusted g.config_host req res1 in
      let (judged, c') = check_admin_auth j m req res2 c in
      if is_handled limited
      then ((handled, res1), buckets', c)
      else if is_handled crossed
      then ((handled, res2), buckets', c)
      else (judged, buckets', c')

  unfoldable pub run_route : Option (Route m × Request) → Response → Client m → Outcome m × Client m
  run_route none res c = (not_found res, c)
  run_route (some (r, req)) res c = let (result, c') = r.handler req res c in (served r result, c')

  unfoldable pub dispatch :
      Matcher
      → List (Route m)
      → Request
      → (HandlerResponse × Response) × Buckets d × Client m
      → Outcome m × Buckets d × Client m
  dispatch matches routes req ((handled, res), buckets, c) = (stopped res, buckets, c)
  dispatch matches routes req ((unhandled, res), buckets, c) =
      let (outcome, c') = run_route (find_route matches routes req) res c in (outcome, buckets, c')

  -- One request through the guards and the routes.
  unfoldable pub serve :
      Matcher
      → Services
      → ℕ
      → Request
      → Response
      → Buckets d
      → Client m
      → Outcome m × Buckets d × Client m
  serve matches s now req res buckets c =
      dispatch matches (all_routes j m s) req (pre_routing now req res buckets c)
