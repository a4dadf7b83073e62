-- ===== src/Http/Csrf/Laws.antt =====
-- Which requests the guard against cross-site requests (backend/src/http/csrf.cpp) stops.
use oj_vibe_coding.Base.{
  ℕ, suc, ◌+◌, ◌≡◌, refl, sym, ap, ◌∙◌, ◌≢◌, ◌↔◌, ◌⊎◌, inl, inr, true, false, Option, none, List,
  [], ◌∷◌, ◌++◌, arith, ◌==◌, if◌then◌else◌, Bool-cases, is_empty, is_empty-eq,
}
use oj_vibe_coding.Text.{Bytes, bytes, eqb, eqb_iff}
use oj_vibe_coding.Http.Message.{Request, value_or_empty, Response, handled, unhandled, Json}
use oj_vibe_coding.Http.Csrf.{
  is_state_changing, parse_trusted_origins, default_origins, origin_allowed, trusted_origins,
  check_csrf,
}
use oj_vibe_coding.Http.Cookie.{write_error}

-- The origin is one of the list.
abbrev pub IsTrusted : Bytes → List Bytes → Type 0
IsTrusted origin [] = ⊥
IsTrusted origin (t ∷ trusted) = (origin ≡ t) ⊎ IsTrusted origin trusted

origin_allowed_iff :
    (origin : Bytes) (trusted : List Bytes)
    → (origin_allowed origin trusted ≡ true) ↔ IsTrusted origin trusted
unfolding origin_allowed
origin_allowed_iff origin [] = ground arith
origin_allowed_iff origin (t ∷ trusted) =
    ground (arith, eqb_iff origin t, origin_allowed_iff origin trusted)

pub check_csrf-unhandled_iff :
    (j : Json) (env : Option Bytes) (config_host : Bytes) (req : Request) (res : Response)
    → let origin = value_or_empty (req.header (bytes "Origin")) in
      ((check_csrf j env config_host req res).0 ≡ unhandled) ↔ (
        (is_state_changing req.method ≡ false)
        ⊎ (origin ≡ [])
        ⊎ IsTrusted origin (trusted_origins env config_host))
unfolding check_csrf
check_csrf-unhandled_iff j env config_host req res =
    let origin = value_or_empty (req.header (bytes "Origin")) in
    let trust = origin_allowed_iff origin (trusted_origins env config_host) in
    let nil = is_empty-eq origin in
    let filled : is_empty origin ≡ false → origin ≢ [] = λ e h. cc (sym e ∙ ap is_empty h) in
    ground (arith, trust, nil, filled)

-- The guard stops a request exactly if its method changes state, it names an origin, and the origin
-- is not trusted; and it either stops the request with a 403 answer, or lets it through with the
-- response untouched.
pub check_csrf_iff :
    (j : Json) (env : Option Bytes) (config_host : Bytes) (req : Request) (res : Response)
    → let origin = value_or_empty (req.header (bytes "Origin")) in
      let stopped = check_csrf j env config_host req res in
      ((stopped.0 ≡ handled) ↔ (
        (is_state_changing req.method ≡ true)
        × (origin ≢ [])
        × (¬ IsTrusted origin (trusted_origins env config_host))))
      × ((stopped ≡ (
        handled,
        write_error j 403 (bytes "cross-origin request rejected by CSRF guard") res,
      ))
          ⊎ (stopped ≡ (unhandled, res)))
unfolding check_csrf
check_csrf_iff j env config_host req res =
    let origin = value_or_empty (req.header (bytes "Origin")) in
    let trust = origin_allowed_iff origin (trusted_origins env config_host) in
    let nil = is_empty-eq origin in
    let filled : is_empty origin ≡ false → origin ≢ [] = λ e h. cc (sym e ∙ ap is_empty h) in
    (ground (arith, trust, nil, filled), ground arith)

-- The colons of a text.
unfoldable pub colons : Bytes → ℕ
colons [] = 0
colons (c ∷ s) = if c == b':' then suc (colons s) else colons s

colons-append : (s t : Bytes) → colons (s ++ t) ≡ colons s + colons t
unfolding colons
colons-append [] t = omega arith
colons-append (c ∷ s) t = ground (arith, colons-append s t)

host_or_local : Bytes → Bytes
host_or_local config_host = if is_empty config_host then bytes "localhost" else config_host

colons-host :
    (config_host : Bytes) → colons config_host ≡ 0 → colons (host_or_local config_host) ≡ 0
unfolding host_or_local colons bytes
colons-host [] h = refl
colons-host (c ∷ s) h = h

colons-scheme :
    (host : Bytes)
    → colons host ≡ 0
    → (colons (bytes "http://" ++ host) ≡ 1)
      × (colons (bytes "https://" ++ host) ≡ 1)
      × (colons (bytes "http://localhost") ≡ 1)
      × (colons (bytes "http://127.0.0.1") ≡ 1)
unfolding colons bytes
colons-scheme host h = (ap suc h, ap suc h, refl, refl)

default_origins-colons :
    (config_host origin : Bytes)
    → colons config_host ≡ 0
    → IsTrusted origin (default_origins config_host)
    → colons origin ≡ 1
unfolding default_origins host_or_local
default_origins-colons config_host origin none_in h =
    let (a, b, c, e) =
      colons-scheme (host_or_local config_host) (colons-host config_host none_in) in
    elim (Bool-cases (eqb (host_or_local config_host) (bytes "0.0.0.0"))) [
      | inl any ↦ four a b c e (rw (any, default_origins) at h)
      | inr named ↦ two a b (rw (named, default_origins) at h)
    ]
  where
    host : Bytes
    host = host_or_local config_host

    four :
        colons (bytes "http://" ++ host) ≡ 1
        → colons (bytes "https://" ++ host) ≡ 1
        → colons (bytes "http://localhost") ≡ 1
        → colons (bytes "http://127.0.0.1") ≡ 1
        → (origin ≡ bytes "http://" ++ host)
          ⊎ (origin ≡ bytes "https://" ++ host)
          ⊎ (origin ≡ bytes "http://localhost")
          ⊎ (origin ≡ bytes "http://127.0.0.1")
          ⊎ ⊥
        → colons origin ≡ 1
    four a b c e (inl o) = ap colons o ∙ a
    four a b c e (inr (inl o)) = ap colons o ∙ b
    four a b c e (inr (inr (inl o))) = ap colons o ∙ c
    four a b c e (inr (inr (inr (inl o)))) = ap colons o ∙ e
    four a b c e (inr (inr (inr (inr o)))) = absurd o

    two :
        colons (bytes "http://" ++ host) ≡ 1
        → colons (bytes "https://" ++ host) ≡ 1
        → (origin ≡ bytes "http://" ++ host) ⊎ (origin ≡ bytes "https://" ++ host) ⊎ ⊥
        → colons origin ≡ 1
    two a b (inl o) = ap colons o ∙ a
    two a b (inr (inl o)) = ap colons o ∙ b
    two a b (inr (inr o)) = absurd o

-- Without CSRF_TRUSTED_ORIGINS, and with a configured host that has no colon, the guard stops every
-- state-changing request whose origin has exactly two colons, as one with a port has.
pub port_origin_stopped :
    (j : Json) (config_host : Bytes) (req : Request) (res : Response)
    → colons config_host ≡ 0
    → is_state_changing req.method ≡ true
    → colons (value_or_empty (req.header (bytes "Origin"))) ≡ 2
    → (check_csrf j none config_host req res).0 ≡ handled
port_origin_stopped j config_host req res plain writes port =
    (check_csrf_iff j none config_host req res).0.1 (
      writes,
      no_colon,
      λ trusted.
          absurd
            (omega (arith, port, default_origins-colons config_host _ plain (to_default trusted))),
    )
  where
    no_colon : value_or_empty (req.header (bytes "Origin")) ≢ []
    no_colon e = unfold colons in omega (arith, port, ap colons e)

    to_default :
        IsTrusted (value_or_empty (req.header (bytes "Origin"))) (trusted_origins none config_host)
        → IsTrusted (value_or_empty (req.header (bytes "Origin"))) (default_origins config_host)
    to_default h = unfold trusted_origins parse_trusted_origins in h
