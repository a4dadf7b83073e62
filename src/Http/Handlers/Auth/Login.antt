-- ===== src/Http/Handlers/Auth/Login.antt =====
-- Who is logged in by `loginHandler` of backend/src/http/handlers_auth.cpp.
use oj_vibe_coding.Auth.Password.{verify_password}
use oj_vibe_coding.Db.Users.{find_user_by_username}
use oj_vibe_coding.Db.Users.Rows.{UserSummary}
use oj_vibe_coding.Http.Message.{Request, Response, Json}
use oj_vibe_coding.Http.Handlers.Auth.{
  AuthPayload, AuthHost, SessionSettings, role_name, parse_auth_payload, log_in, login_payload,
  login_handler,
}
use oj_vibe_coding.Http.Handlers.Auth.Starting.{
  result-cases, status-of-ok, write_error-status, failed-status, refused_input-status, Starts,
  start_session-Starts, start_session-ok, Starts-status,
}
use oj_vibe_coding.Db.Client.Lookup.{Result-cases}
use oj_vibe_coding.Base.{
  ℕ, ◌≡◌, refl, sym, ap, ◌∙◌, ◌↔◌, inl, inr, true, false, ◌||◌, Option, none, some, arith,
  Bool-cases, is_empty,
}
use oj_vibe_coding.Base.Result.{ok}
use oj_vibe_coding.Text.{Bytes, bytes}
use oj_vibe_coding.Base.Effect.{resume, attempt}
use oj_vibe_coding.Db.Client.{Mysql, Client}

module _ (j : Json) (m : Mysql) (host : AuthHost) (config : SessionSettings) (req : Request)
    (res : Response) (c : Client m) where
  -- The body names a user of the database and the password of its hash, and a session is started.
  pub record IsLoggedIn (r : Response) : Type 0 where
    pub payload : AuthPayload
    pub user : UserSummary
    pub c' : Client m
    pub parsed : parse_auth_payload j req.body ≡ ok payload
    pub filled : is_empty payload.username || is_empty payload.password ≡ false
    pub found : find_user_by_username m payload.username c ≡ (ok (some user), c')
    pub verified : verify_password host.crypt payload.password user.password_hash ≡ true
    pub started : Starts j m res host config 200 user.id user.username (role_name user.role) c' r

  two_hundred : (n : ℕ) (r : Response) → r.status ≡ n → r.status ≡ 200 → n ≡ 200
  two_hundred n r h g = sym h ∙ g

  -- From the look-up on.
  log_in-started :
      (d : Client m) (password : Bytes) (found : Option UserSummary) (r : Response)
      → (log_in j m host config res password found d).0 ≡ ok r
      → r.status ≡ 200
      → (user : UserSummary) × (found ≡ some user)
        × (verify_password host.crypt password user.password_hash ≡ true)
        × Starts j m res host config 200 user.id user.username (role_name user.role) d r
  unfolding log_in
  log_in-started d password none r e s =
      absurd (omega (arith, status-of-ok 401 200 (write_error-status j m res 401 _) e s))
  log_in-started d password (some user) r e s =
      elim (Bool-cases (verify_password host.crypt password user.password_hash)) [
        | inr wrong ↦ absurd (
            omega (
              arith,
              status-of-ok 401 200
                  (write_error-status j m res 401 (bytes "invalid username or password"))
                  (rw wrong at e) s,
            ))
        | inl right ↦ (
          user,
          refl,
          right,
          start_session-Starts j m res host config 200 user.id user.username (role_name user.role) d
              r (omega arith) (rw right at e) s,
        )
      ]

  login_handler-IsLoggedIn :
      (r : Response)
      → (login_handler j m host config req res c).0 ≡ ok r
      → r.status ≡ 200
      → IsLoggedIn r
  unfolding login_handler login_payload attempt resume
  login_handler-IsLoggedIn r e s = elim (result-cases (parse_auth_payload j req.body)) [
    | inr (x, bad) ↦ absurd (omega (arith, s, refused_input-status j m res x c r (rw bad at e)))
    | inl (payload, parsed) ↦
        elim (Bool-cases (is_empty payload.username || is_empty payload.password)) [
          | inl empty ↦ absurd (
              omega (
                arith,
                status-of-ok 400 200
                    (write_error-status j m res 400 (bytes "username and password are required"))
                    (rw (parsed, empty) at e) s,
              ))
          | inr filled ↦ elim (Result-cases (find_user_by_username m payload.username c)) [
            | inr (d, x, broken) ↦ absurd (
                omega (
                  arith,
                  s,
                  failed-status j m res (bytes "database error: ") x d r
                      (rw (parsed, filled, broken) at e),
                ))
            | inl (d, looked_up, found) ↦
                let (user, known, verified, started) =
                  log_in-started d payload.password looked_up r (rw (parsed, filled, found) at e)
                    s in
                record {
                  payload = payload;
                  user = user;
                  c' = d;
                  parsed = parsed;
                  filled = filled;
                  found = found ∙ ap (λ o. (ok o, d)) known;
                  verified = verified;
                  started = started;
                }
          ]
        ]
  ]

  IsLoggedIn-ok : (r : Response) → IsLoggedIn r → (login_handler j m host config req res c).0 ≡ ok r
  unfolding login_handler login_payload attempt resume log_in
  IsLoggedIn-ok r a =
      rw (a.parsed, a.filled, a.found, a.verified)
        (start_session-ok j m res host config 200 a.user.id a.user.username (role_name a.user.role)
          a.c' r a.started)

-- A login is answered with status 200 exactly if its body is a JSON object with a user name and a
-- password, neither of them empty, the database has a user of that name, the password is the one of
-- the user's hash, a session id can be drawn, and its session can be stored; the answer then carries
-- the session id as a cookie.
pub login_handler_iff :
    (j : Json) (m : Mysql) (host : AuthHost) (config : SessionSettings) (req : Request)
    (res : Response) (c : Client m) (r : Response)
    → (((login_handler j m host config req res c).0 ≡ ok r) × (r.status ≡ 200))
      ↔ IsLoggedIn j m host config req res c r
login_handler_iff j m host config req res c r = (
  λ e. login_handler-IsLoggedIn j m host config req res c r e.0 e.1,
  λ a. (
    IsLoggedIn-ok j m host config req res c r a,
    Starts-status j m res host config 200 a.user.id a.user.username (role_name a.user.role) a.c' r
        a.started,
  ),
)
