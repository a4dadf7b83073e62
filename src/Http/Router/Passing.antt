-- ===== src/Http/Router/Passing.antt =====
-- Which requests backend/src/http/router.cpp lets through to which handlers.
use oj_vibe_coding.Base.Result.{Result}
use mathlib.Core.Option.{some-injective}
use oj_vibe_coding.Http.Router.{
  Route, Services, Guards, Outcome, served, Matcher, all_routes, find_route, pre_routing, run_route,
  dispatch, serve,
}
use oj_vibe_coding.Http.Message.{
  Request, value_or_empty, Response, HandlerResponse, handled, unhandled, Json,
}
use oj_vibe_coding.Http.RateLimiter.{Double, Buckets, check}
use oj_vibe_coding.Http.ClientKey.{client_key}
use oj_vibe_coding.Http.RateLimit.{answer, check_rate_limit}
use oj_vibe_coding.Http.Csrf.{is_state_changing, trusted_origins, check_csrf}
use oj_vibe_coding.Http.Csrf.Laws.{IsTrusted, check_csrf-unhandled_iff}
use oj_vibe_coding.Http.AdminAuth.{starts_with_admin_path, check_admin_auth}
use oj_vibe_coding.Http.AdminAuth.Laws.{FromAdmin, check_admin_auth_iff, check_admin_auth-elsewhere}
use oj_vibe_coding.Base.{
  ℕ, ◌≡◌, refl, sym, ap, ◌∙◌, subst, ◌↔◌, ◌⊎◌, inl, inr, true, false, Option, none, some, List, [],
  ◌∷◌, arith, Bool-cases, Option-cases,
}
use oj_vibe_coding.Text.{Bytes, bytes}
use oj_vibe_coding.Db.Client.{Mysql, Client}

module _ (d : Double) (truncate : d.F → ℕ) (j : Json) (m : Mysql) (g : Guards d) where
  module _ (now : ℕ) (req : Request) (res : Response) (buckets : Buckets d) (c : Client m) where
    -- The rate limiter has a token, the request changes no state or names no origin or a trusted one, and
    -- it is no administrators' request or comes from an administrator.
    pub record IsPassed : Type 0 where
      pub allowed : (check d g.limits (client_key req) now buckets).0.allowed ≡ true
      pub same_origin :
          (is_state_changing req.method ≡ false)
          ⊎ (value_or_empty (req.header (bytes "Origin")) ≡ [])
          ⊎ IsTrusted
              (value_or_empty (req.header (bytes "Origin")))
              (trusted_origins g.trusted g.config_host)
      pub entitled : (starts_with_admin_path req.path ≡ false) ⊎ FromAdmin m req c

  check_rate_limit-unhandled_iff :
      (now : ℕ) (req : Request) (res : Response) (buckets : Buckets d)
      → ((check_rate_limit d truncate j g.limits now req res buckets).0.0 ≡ unhandled)
        ↔ ((check d g.limits (client_key req) now buckets).0.allowed ≡ true)
  unfolding check_rate_limit answer
  check_rate_limit-unhandled_iff now req res buckets = ground arith

  entitled_iff :
      (req : Request) (res : Response) (c : Client m)
      → ((check_admin_auth j m req res c).0.0 ≡ unhandled)
        ↔ ((starts_with_admin_path req.path ≡ false) ⊎ FromAdmin m req c)
  entitled_iff req res c = elim (Bool-cases (starts_with_admin_path req.path)) [
    | inl below ↦
        let (from_admin, through) = check_admin_auth_iff j m req res c below in
        (
          λ e. inr (from_admin e),
          λ x. elim x [ inl elsewhere ↦ cc (sym below ∙ elsewhere) | inr a ↦ through a ],
        )
    | inr elsewhere ↦ (λ e. inl elsewhere, λ x. check_admin_auth-elsewhere j m req res c elsewhere)
  ]

  -- All three guards let the request through.
  pre_routing-unhandled_iff :
      (now : ℕ) (req : Request) (res : Response) (buckets : Buckets d) (c : Client m)
      → let limited = check_rate_limit d truncate j g.limits now req res buckets in
        let crossed = check_csrf j g.trusted g.config_host req limited.0.1 in
        ((pre_routing d truncate j m g now req res buckets c).0.0 ≡ unhandled) ↔ (
          (limited.0.0 ≡ unhandled)
          × (crossed.0 ≡ unhandled)
          × ((check_admin_auth j m req crossed.1 c).0.0 ≡ unhandled))
  unfolding pre_routing
  pre_routing-unhandled_iff now req res buckets c = ground arith

  -- A request passes the guards exactly if the rate limiter has a token for its client; its method
  -- changes no state, or it names no origin, or a trusted one; and its path is none of the
  -- administrators', or its session is an administrator's.
  pub pre_routing_iff :
      (now : ℕ) (req : Request) (res : Response) (buckets : Buckets d) (c : Client m)
      → ((pre_routing d truncate j m g now req res buckets c).0.0 ≡ unhandled)
        ↔ IsPassed now req res buckets c
  pre_routing_iff now req res buckets c =
      let limited = check_rate_limit d truncate j g.limits now req res buckets in
      let crossed = check_csrf j g.trusted g.config_host req limited.0.1 in
      let all_three = pre_routing-unhandled_iff now req res buckets c in
      let limits = check_rate_limit-unhandled_iff now req res buckets in
      let origins = check_csrf-unhandled_iff j g.trusted g.config_host req limited.0.1 in
      let admins = entitled_iff req crossed.1 c in
      (
        λ e.
            let (a, b, c') = all_three.0 e in
            record { allowed = limits.0 a; same_origin = origins.0 b; entitled = admins.0 c' },
        λ p. all_three.1 (limits.1 p.allowed, origins.1 p.same_origin, admins.1 p.entitled),
      )

-- The documented part of how patterns are matched: a pattern below /api/admin/ fits only paths that
-- are below it.
pub record KeepsPrefix (matches : Matcher) : Type 0 where
  pub below :
      (method pattern : Bytes) (req req' : Request)
      → matches method pattern req ≡ some req'
      → starts_with_admin_path pattern ≡ true
      → starts_with_admin_path req.path ≡ true

module _ {m : Mysql} where
  find_route-fits :
      (matches : Matcher) (routes : List (Route m)) (req req' : Request) (r : Route m)
      → find_route matches routes req ≡ some (r, req')
      → matches r.method r.pattern req ≡ some req'
  unfolding find_route
  find_route-fits matches [] req req' r e = cc e
  find_route-fits matches (x ∷ rest) req req' r e =
      elim (Option-cases (matches x.method x.pattern req)) [
        | inl none_fits ↦ find_route-fits matches rest req req' r (rw (none_fits, find_route) at e)
        | inr (req1, fit) ↦
            subst (λ q. matches q.0.method q.0.pattern req ≡ some q.1)
              (some-injective (x, req1) (r, req') (rw (fit, find_route) at e)) fit
      ]

  abbrev route_of : Outcome m → Option (Route m)
  route_of (served r result) = some r
  route_of _ = none

module _ (d : Double) (truncate : d.F → ℕ) (j : Json) (m : Mysql) (g : Guards d)
    (matches : Matcher) where
  run_route-served :
      (found : Option (Route m × Request)) (res : Response) (c : Client m) (r : Route m)
      → route_of (run_route d truncate j m g found res c).0 ≡ some r
      → (req' : Request) × (found ≡ some (r, req'))
  unfolding run_route
  run_route-served none res c r e = cc e
  run_route-served (some (x, req')) res c r e =
      (req', ap (λ y. some (y, req')) (some-injective x r e))

  dispatch-served :
      (routes : List (Route m)) (req : Request)
      (out : (HandlerResponse × Response) × Buckets d × Client m) (r : Route m)
      → route_of (dispatch d truncate j m g matches routes req out).0 ≡ some r
      → (out.0.0 ≡ unhandled) × ((req' : Request) × (matches r.method r.pattern req ≡ some req'))
  unfolding dispatch
  dispatch-served routes req ((handled, res), buckets, c) r e = cc e
  dispatch-served routes req ((unhandled, res), buckets, c) r e =
      let (req', found) = run_route-served (find_route matches routes req) res c r e in
      (refl, (req', find_route-fits matches routes req req' r found))

  -- Whenever the handler of a route below /api/admin/ runs, the request carries the session id of an
  -- administrator, as the database has it at that time, and the rate limiter and the check of its
  -- origin let it through.
  pub serve-FromAdmin :
      KeepsPrefix matches
      → (s : Services) (now : ℕ) (req : Request) (res : Response) (buckets : Buckets d)
        (c : Client m) (r : Route m) (result : Result Response)
      → (serve d truncate j m g matches s now req res buckets c).0 ≡ served r result
      → starts_with_admin_path r.pattern ≡ true
      → FromAdmin m req c × IsPassed d truncate j m g now req res buckets c
  unfolding serve
  serve-FromAdmin law s now req res buckets c r result e admin_route =
      let out = pre_routing d truncate j m g now req res buckets c in
      let (through, (req', fit)) = dispatch-served (all_routes j m s) req out r (ap route_of e) in
      let passed = (pre_routing_iff d truncate j m g now req res buckets c).0 through in
      let below = law.below r.method r.pattern req req' fit admin_route in
      (elim passed.entitled [ inl elsewhere ↦ cc (sym below ∙ elsewhere) | inr a ↦ a ], passed)
