-- ===== src/Http/Handlers/Auth/Tests.antt =====
-- A sign-up and a login on stand-ins for the libraries, the server and the system.
use oj_vibe_coding.Http.Handlers.Tests.{auth_host, settings, call, answer_of}
use oj_vibe_coding.Http.Message.{Request, Response, empty_response}
use oj_vibe_coding.Http.Tests.Objects.{Node, object_json, credentials}
use oj_vibe_coding.Http.Handlers.Auth.{
  read_auth_payload, parse_auth_payload, start_session, register_handler, log_in, login_payload,
  login_handler, logout_handler,
}
use oj_vibe_coding.Http.Handlers.Auth.Login.{IsLoggedIn, login_handler_iff}
use oj_vibe_coding.Http.Handlers.Auth.Logout.{IsLoggedOut, logout_handler-IsLoggedOut}
use oj_vibe_coding.Http.Handlers.Auth.Register.{IsRegistered, register_handler_iff}
use oj_vibe_coding.Db.Client.Toy.{scripted, answering, done, gives}
use oj_vibe_coding.Config.Numbers.{stoull, unsigned_of, count_space, read_sign, read_digits}
use oj_vibe_coding.Db.Users.{
  find_user_by_username, create_session, insert_session, is_shape_session_id,
}
use oj_vibe_coding.Db.Users.Rows.{read_user, first_row, parse_role_or_throw}
use oj_vibe_coding.Auth.Password.{
  verify_password, matches, is_acceptable_crypt_result, constant_time_equals, diff_loop, xor_bits,
  or_bits, c_str,
}
use oj_vibe_coding.Auth.Session.{generate_session_id, random_hex, read_loop, hex_bytes}
use oj_vibe_coding.Http.Handlers.{failed, refused_input}
use oj_vibe_coding.Http.Cookie.{write_json, write_error}
use oj_vibe_coding.Base.{◌≡◌, refl, ◌↔◌, none, some, [], ◌∷◌, if◌then◌else◌}
use oj_vibe_coding.Base.Result.{ok}
use oj_vibe_coding.Text.{bytes, eqb}
use oj_vibe_coding.Base.Effect.{continue, ◌>>=◌, ◌>>◌, resume, attempt}
use oj_vibe_coding.Db.Client.{
  column, Client, send, throw_error, execute, stored, fetch, select, escape, give_back, with_lease,
  using_lease,
}

abbrev ann : Node
ann = credentials (bytes "ann") (bytes "secret123")

-- The database knows ann, and then stores her session.
abbrev knowing_ann : Client scripted
knowing_ann = answering (
    gives (
      some (bytes "12") ∷ some (bytes "ann") ∷ some (bytes "user") ∷ some (bytes "$secret123") ∷ [])
    ∷ done
    ∷ [])

abbrev logged_in : Response
logged_in = answer_of (
    login_handler (object_json ann) scripted auth_host settings (call (bytes "/api/auth/login"))
      empty_response knowing_ann)

ann_logged_in : logged_in.status ≡ 200
unfolding login_handler login_payload log_in start_session parse_auth_payload read_auth_payload
    find_user_by_username create_session insert_session is_shape_session_id read_user first_row
    parse_role_or_throw column verify_password matches is_acceptable_crypt_result
    constant_time_equals diff_loop xor_bits or_bits c_str generate_session_id random_hex read_loop
    hex_bytes stoull unsigned_of count_space read_sign read_digits refused_input failed attempt
    resume using_lease with_lease give_back escape select execute send fetch stored throw_error
    ◌>>=◌ ◌>>◌ continue write_json write_error bytes eqb
ann_logged_in = refl

login_handler_iff_example :
    (((login_handler
          (object_json ann)
          scripted
          auth_host
          settings
          (call (bytes "/api/auth/login"))
          empty_response
          knowing_ann).0
        ≡ ok logged_in)
      × (logged_in.status ≡ 200))
    ↔ IsLoggedIn
        (object_json ann)
        scripted
        auth_host
        settings
        (call (bytes "/api/auth/login"))
        empty_response
        knowing_ann
        logged_in
login_handler_iff_example =
    login_handler_iff (object_json ann) scripted auth_host settings (call (bytes "/api/auth/login"))
      empty_response knowing_ann logged_in

-- The user and the session are stored.
abbrev storing : Client scripted
storing = answering (done ∷ done ∷ [])

abbrev registered : Response
registered = answer_of (
    register_handler (object_json ann) scripted auth_host settings
      (call (bytes "/api/auth/register")) empty_response storing)

register_handler_iff_example :
    (((register_handler
          (object_json ann)
          scripted
          auth_host
          settings
          (call (bytes "/api/auth/register"))
          empty_response
          storing).0
        ≡ ok registered)
      × (registered.status ≡ 201))
    ↔ IsRegistered
        (object_json ann)
        scripted
        auth_host
        settings
        (call (bytes "/api/auth/register"))
        empty_response
        storing
        registered
register_handler_iff_example =
    register_handler_iff (object_json ann) scripted auth_host settings
      (call (bytes "/api/auth/register")) empty_response storing registered

-- A logout with a session, while the server answers nothing.
abbrev leave : Request
leave = record (call (bytes "/api/auth/logout")) {
  header = λ name.
      if eqb name (bytes "Cookie")
      then some
          (bytes "minioj_sid=0123456789abcdef0123456789abcdef0123456789abcdef0123456789abcdef")
      else none;
}

logout_handler-IsLoggedOut_example :
    let out =
      logout_handler (object_json ann) scripted settings leave empty_response (answering []) in
    (r : Response) × (out.0 ≡ ok r)
    × IsLoggedOut (object_json ann) scripted settings leave empty_response r
logout_handler-IsLoggedOut_example =
    logout_handler-IsLoggedOut (object_json ann) scripted settings leave empty_response
      (answering [])
