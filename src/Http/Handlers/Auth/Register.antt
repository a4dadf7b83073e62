-- ===== src/Http/Handlers/Auth/Register.antt =====
-- Who is signed up by `registerHandler` of backend/src/http/handlers_auth.cpp.
use oj_vibe_coding.Auth.Validator.{validate_username, validate_password}
use oj_vibe_coding.Auth.Password.{hash_password}
use oj_vibe_coding.Db.Users.{create_user}
use oj_vibe_coding.Http.Message.{Request, Response, Json}
use oj_vibe_coding.Http.Handlers.Auth.{
  AuthPayload, AuthHost, SessionSettings, parse_auth_payload, check_registration, not_created,
  register_payload, register_handler,
}
use oj_vibe_coding.Http.Handlers.Auth.Starting.{
  result-cases, write_error-status, failed-status, refused_input-status, Starts,
  start_session-Starts, start_session-ok, Starts-status,
}
use oj_vibe_coding.Db.Client.Lookup.{Result-cases}
use oj_vibe_coding.Base.Result.{ok-injective}
use oj_vibe_coding.Base.{ℕ, ◌≡◌, refl, sym, ap, ◌∙◌, ◌≢◌, ◌↔◌, inl, inr, arith}
use oj_vibe_coding.Base.Result.{Exception, invalid_argument, username_exists, other, ok}
use oj_vibe_coding.Text.{Bytes, bytes}
use oj_vibe_coding.Base.Effect.{resume, attempt}
use oj_vibe_coding.Db.Client.{Mysql, Client}

module _ (j : Json) where
  -- The body is a JSON object whose name and password keep the rules.
  pub record IsProper (body : Bytes) (payload : AuthPayload) : Type 0 where
    pub parsed : parse_auth_payload j body ≡ ok payload
    pub named : validate_username payload.username ≡ ok tt
    pub strong : validate_password payload.password ≡ ok tt

  check_registration-IsProper :
      (body : Bytes) (payload : AuthPayload)
      → check_registration j body ≡ ok payload
      → IsProper body payload
  unfolding check_registration
  check_registration-IsProper body payload e = elim (result-cases (parse_auth_payload j body)) [
    | inr (x, bad) ↦ cc (rw (bad, check_registration) at e)
    | inl (p, parsed) ↦ elim (result-cases (validate_username p.username)) [
      | inr (x, bad) ↦ cc (rw (parsed, check_registration, bad) at e)
      | inl (u, named) ↦ elim (result-cases (validate_password p.password)) [
        | inr (x, bad) ↦ cc (rw (parsed, check_registration, named, bad) at e)
        | inl (v, strong) ↦
            let same = ok-injective (rw (parsed, check_registration, named, strong) at e) in
            record {
              parsed = parsed ∙ ap ok same;
              named = rw (← same) named;
              strong = rw (← same) strong;
            }
      ]
    ]
  ]

  IsProper-ok :
      (body : Bytes) (payload : AuthPayload)
      → IsProper body payload
      → check_registration j body ≡ ok payload
  unfolding check_registration
  IsProper-ok body payload a = rw (a.parsed, check_registration, a.named, a.strong) refl

  not_created-status :
      (m : Mysql) (res : Response) (e : Exception) (c : Client m) (r : Response)
      → (not_created j m res e c).0 ≡ ok r
      → r.status ≢ 201
  unfolding not_created
  not_created-status m res (invalid_argument message) c r h s =
      absurd (omega (arith, s, failed-status j m res (bytes "database error: ") _ c r h))
  not_created-status m res (username_exists message) c r h s = absurd (
      omega (
        arith,
        s,
        ap (λ x. x.status) (sym (ok-injective h))
            ∙ write_error-status j m res 409 (bytes "username already exists"),
      ))
  not_created-status m res (other message) c r h s =
      absurd (omega (arith, s, failed-status j m res (bytes "database error: ") _ c r h))

module _ (j : Json) (m : Mysql) (host : AuthHost) (config : SessionSettings) (req : Request)
    (res : Response) (c : Client m) where
  -- The body is proper, its password is hashed, the user is stored under the hash with the role `user`,
  -- and a session is started.
  pub record IsRegistered (r : Response) : Type 0 where
    pub payload : AuthPayload
    pub hash : Bytes
    pub id : ℕ
    pub c' : Client m
    pub proper : IsProper j req.body payload
    pub hashing : hash_password host.crypt host.crypt_error payload.password host.salt ≡ ok hash
    pub created : create_user m payload.username hash (bytes "user") c ≡ (ok id, c')
    pub started : Starts j m res host config 201 id payload.username (bytes "user") c' r

  register_handler-IsRegistered :
      (r : Response)
      → (register_handler j m host config req res c).0 ≡ ok r
      → r.status ≡ 201
      → IsRegistered r
  unfolding register_handler register_payload attempt resume
  register_handler-IsRegistered r e s = elim (result-cases (check_registration j req.body)) [
    | inr (x, bad) ↦ absurd (omega (arith, s, refused_input-status j m res x c r (rw bad at e)))
    | inl (payload, checked) ↦
        elim (result-cases (hash_password host.crypt host.crypt_error payload.password host.salt)) [
          | inr (x, broken) ↦ absurd (
              omega (
                arith,
                s,
                failed-status j m res (bytes "hash error: ") x c r (rw (checked, broken) at e),
              ))
          | inl (hash, hashing) ↦
              elim (Result-cases (create_user m payload.username hash (bytes "user") c)) [
                | inr (d, x, broken) ↦
                    absurd (not_created-status j m res x d r (rw (checked, hashing, broken) at e) s)
                | inl (d, id, created) ↦ record {
                  payload = payload;
                  hash = hash;
                  id = id;
                  c' = d;
                  proper = check_registration-IsProper j req.body payload checked;
                  hashing = hashing;
                  created = created;
                  started =
                      start_session-Starts j m res host config 201 id payload.username
                        (bytes "user") d r (omega arith) (rw (checked, hashing, created) at e) s;
                }
              ]
        ]
  ]

  IsRegistered-ok :
      (r : Response) → IsRegistered r → (register_handler j m host config req res c).0 ≡ ok r
  unfolding register_handler register_payload attempt resume
  IsRegistered-ok r a =
      rw (IsProper-ok j req.body a.payload a.proper, a.hashing, a.created)
        (start_session-ok j m res host config 201 a.id a.payload.username (bytes "user") a.c' r
          a.started)

-- A sign-up is answered with status 201 exactly if its body is a JSON object whose name and password
-- keep the rules, the password can be hashed, the user can be stored under the hash with the role
-- `user`, a session id can be drawn, and its session can be stored; the answer then carries the
-- session id as a cookie.
pub register_handler_iff :
    (j : Json) (m : Mysql) (host : AuthHost) (config : SessionSettings) (req : Request)
    (res : Response) (c : Client m) (r : Response)
    → (((register_handler j m host config req res c).0 ≡ ok r) × (r.status ≡ 201))
      ↔ IsRegistered j m host config req res c r
register_handler_iff j m host config req res c r = (
  λ e. register_handler-IsRegistered j m host config req res c r e.0 e.1,
  λ a. (
    IsRegistered-ok j m host config req res c r a,
    Starts-status j m res host config 201 a.id a.payload.username (bytes "user") a.c' r a.started,
  ),
)
