-- ===== src/Http/Handlers/Auth/Logout.antt =====
-- What `logoutHandler` of backend/src/http/handlers_auth.cpp answers.
use oj_vibe_coding.Base.{◌≡◌, refl, inl, inr, Bool, false, [], ◌∷◌, ◌++◌, Bool-cases, Option-cases}
use oj_vibe_coding.Base.Result.{Exception, Result, ok, err}
use oj_vibe_coding.Db.Users.{is_shape_session_id, delete_session, remove_session}
use oj_vibe_coding.Http.Message.{Request, Response, Json}
use oj_vibe_coding.Http.Cookie.{parse_session_id, write_json, clear_session_cookie}
use oj_vibe_coding.Auth.Session.{format_clear_session_cookie}
use oj_vibe_coding.Http.Handlers.Auth.{SessionSettings, logged_out, logout_handler}
use oj_vibe_coding.Base.Result.{Exception, Result, ok, err}
use oj_vibe_coding.Text.{Bytes, bytes}
use oj_vibe_coding.Base.Effect.{pure, resume, attempt}
use oj_vibe_coding.Db.Client.{Mysql, Client}

module _ (m : Mysql) where
  caught :
      (out : Result Bool × Client m)
      → (done : Bool) × (d : Client m) × (resume (λ (e : Exception). pure false) pure out
          ≡ (ok done, d))
  unfolding resume
  caught (err e, d) = (false, d, refl)
  caught (ok done, d) = (done, d, refl)

  delete_session-ok :
      (id : Bytes) (c : Client m)
      → (done : Bool) × (d : Client m) × (delete_session m id c ≡ (ok done, d))
  unfolding delete_session attempt
  delete_session-ok id c = elim (Bool-cases (is_shape_session_id id)) [
    | inr odd ↦ (false, c, rw odd refl)
    | inl shaped ↦ rw shaped (caught (remove_session m id c))
  ]

module _ (j : Json) (m : Mysql) (config : SessionSettings) (req : Request) (res : Response) where
  -- Status 200, with a cookie that is cleared, behind the headers of the response.
  pub record IsLoggedOut (r : Response) : Type 0 where
    pub status : r.status ≡ 200
    pub cleared :
        r.headers
        ≡ res.headers
          ++ ((bytes "Set-Cookie", format_clear_session_cookie config.secure_cookie) ∷ [])

  logged_out-IsLoggedOut :
      (c : Client m) → (r : Response) × ((logged_out j m config res c).0 ≡ ok r) × IsLoggedOut r
  unfolding logged_out write_json clear_session_cookie
  logged_out-IsLoggedOut c = (_, refl, record { status = refl; cleared = refl })

-- A logout is always answered with status 200 and a cleared cookie, whatever the database answers: also
-- when the session could not be deleted.
pub logout_handler-IsLoggedOut :
    (j : Json) (m : Mysql) (config : SessionSettings) (req : Request) (res : Response)
    (c : Client m)
    → (r : Response) × ((logout_handler j m config req res c).0 ≡ ok r)
      × IsLoggedOut j m config req res r
unfolding logout_handler attempt resume
logout_handler-IsLoggedOut j m config req res c = elim (Option-cases (parse_session_id req)) [
  | inl absent ↦ rw (absent, logout_handler) (logged_out-IsLoggedOut j m config req res c)
  | inr (id, present) ↦
      let (done, d, deleted) = delete_session-ok m id c in
      rw (present, logout_handler, deleted) (logged_out-IsLoggedOut j m config req res d)
]
