-- ===== src/Http/Handlers/Auth/Starting.antt =====
-- How a session starts at the end of the sign-up and of the login in
-- backend/src/http/handlers_auth.cpp, and how the handlers refuse.
use oj_vibe_coding.Auth.Session.{generate_session_id}
use oj_vibe_coding.Db.Users.{create_session}
use oj_vibe_coding.Db.Users.{SessionRecord}
use oj_vibe_coding.Http.Message.{Response, Json}
use oj_vibe_coding.Http.Cookie.{write_json, write_error, attach_session_cookie}
use oj_vibe_coding.Http.Handlers.{failed, refused_input}
use oj_vibe_coding.Http.Handlers.Auth.{AuthHost, SessionSettings, user_json, start_session}
use oj_vibe_coding.Db.Client.Lookup.{Result-cases}
use oj_vibe_coding.Base.Result.{ok-injective}
use oj_vibe_coding.Base.{ℕ, ◌≡◌, refl, sym, ap, ◌∙◌, ◌≢◌, ◌⊎◌, inl, inr, ◌++◌}
use oj_vibe_coding.Base.Result.{
  Exception, invalid_argument, username_exists, other, what, Result, ok, err,
}
use oj_vibe_coding.Text.{Bytes, bytes}
use oj_vibe_coding.Base.Effect.{continue, ◌>>=◌, resume, attempt}
use oj_vibe_coding.Db.Client.{Mysql, Client}

pub result-cases {ℓ} :
    {A : Type ℓ} (r : Result A) → ((a : A) × (r ≡ ok a)) ⊎ ((e : Exception) × (r ≡ err e))
result-cases (ok a) = inl (a, refl)
result-cases (err e) = inr (e, refl)

-- An answer that is given has its own status.
pub status-of-ok : {r s : Response} (n k : ℕ) → r.status ≡ n → ok r ≡ ok s → s.status ≡ k → n ≡ k
status-of-ok n k h e g = sym h ∙ ap (λ x. x.status) (ok-injective e) ∙ g

module _ (j : Json) (m : Mysql) (res : Response) where
  pub write_error-status :
      (status : ℕ) (message : Bytes) → (write_error j status message res).status ≡ status
  unfolding write_error write_json
  write_error-status status message = refl

  pub failed-status :
      (context : Bytes) (e : Exception) (c : Client m) (r : Response)
      → (failed j m context res e c).0 ≡ ok r
      → r.status ≡ 500
  unfolding failed
  failed-status context e c r h =
      ap (λ x. x.status) (sym (ok-injective h)) ∙ write_error-status 500 (context ++ what e)

  pub refused_input-status :
      (e : Exception) (c : Client m) (r : Response)
      → (refused_input j m res e c).0 ≡ ok r
      → r.status ≡ 400
  unfolding refused_input
  refused_input-status (invalid_argument message) c r h =
      ap (λ x. x.status) (sym (ok-injective h)) ∙ write_error-status 400 message
  refused_input-status (username_exists message) c r h = cc h
  refused_input-status (other message) c r h = cc h

  module _ (host : AuthHost) (config : SessionSettings) (status id : ℕ) (username role : Bytes)
      (c : Client m) where
    -- A session id is drawn, its session is stored for the user, and the answer carries it as a cookie.
    pub record Starts (r : Response) : Type 0 where
      pub session_id : Bytes
      pub session : SessionRecord
      pub c' : Client m
      pub drawn : generate_session_id host.urandom ≡ ok session_id
      pub kept : create_session m id session_id config.ttl c ≡ (ok session, c')
      pub answered :
          r
          ≡ write_json j status
              (user_json j id username role)
              (attach_session_cookie session_id config.ttl config.secure_cookie res)

    pub start_session-Starts :
        (r : Response)
        → status ≢ 500
        → (start_session j m host config status id username role res c).0 ≡ ok r
        → r.status ≡ status
        → Starts r
    unfolding start_session ◌>>=◌ continue attempt resume
    start_session-Starts r fine e s = elim (result-cases (generate_session_id host.urandom)) [
      | inr (x, broken) ↦ cc (rw broken at e)
      | inl (session_id, drawn) ↦
          elim (Result-cases (create_session m id session_id config.ttl c)) [
            | inr (d, x, broken) ↦ absurd (
                fine
                  (sym s ∙ failed-status (bytes "session error: ") x d r (rw (drawn, broken) at e)))
            | inl (d, session, kept) ↦ record {
              session_id = session_id;
              session = session;
              c' = d;
              drawn = drawn;
              kept = kept;
              answered = sym (ok-injective (rw (drawn, kept) at e));
            }
          ]
    ]

    pub start_session-ok :
        (r : Response)
        → Starts r
        → (start_session j m host config status id username role res c).0 ≡ ok r
    unfolding start_session ◌>>=◌ continue attempt resume
    start_session-ok r a = rw (a.drawn, a.kept, a.answered) refl

    pub Starts-status : (r : Response) → Starts r → r.status ≡ status
    unfolding write_json
    Starts-status r a = rw a.answered refl
