-- ===== src/Http/Handlers/Auth.antt =====
-- backend/src/http/handlers_auth.cpp
pub mod Starting
pub mod Login
pub mod Register
pub mod Logout
mod Tests
use oj_vibe_coding.Auth.Validator.{validate_username, validate_password}
use oj_vibe_coding.Auth.Session.{Source, generate_session_id}
use oj_vibe_coding.Auth.Password.{Got, hash_password, verify_password}
use oj_vibe_coding.Db.Users.Rows.{UserRole, UserSummary}
use oj_vibe_coding.Db.Users.{
  find_user_by_username, find_user_by_valid_session_id, create_user, create_session, delete_session,
}
use oj_vibe_coding.Http.Message.{Response, Json}
use oj_vibe_coding.Http.Cookie.{
  parse_session_id, write_json, write_error, attach_session_cookie, clear_session_cookie,
}
use oj_vibe_coding.Http.Dto.{with_fields}
use oj_vibe_coding.Http.Handlers.{Handler, failed, refused_input}
use oj_vibe_coding.Base.{
  ℕ, Bool, not, ◌&&◌, ◌||◌, Option, none, some, List, [], ◌∷◌, if◌then◌else◌, is_empty,
}
use oj_vibe_coding.Base.Result.{Exception, invalid_argument, username_exists, Result, ok, err}
use oj_vibe_coding.Text.{Bytes, bytes}
use oj_vibe_coding.Base.Effect.{pure, from_result, ◌>>=◌, attempt}
use oj_vibe_coding.Db.Client.{Mysql, Dao}

pub record AuthPayload : Type 0 where
  pub username : Bytes
  pub password : Bytes

-- What the operating system and crypt(3) answer while one request is handled.
pub record AuthHost : Type 0 where
  pub crypt : Bytes → Bytes → Option Bytes
  pub crypt_error : Bytes
  pub salt : List Got
  pub urandom : Source

-- `ttl` is in seconds, and positive in a configuration that is valid.
pub record SessionSettings : Type 0 where
  pub ttl : ℕ
  pub secure_cookie : Bool

abbrev pub role_name : UserRole → Bytes
role_name UserRole.admin = bytes "admin"
role_name UserRole.user = bytes "user"

module _ (j : Json) where
  open j use {
    Value, parse, is_object, is_member, member, is_string, as_string, object_value, string_value,
    uint_value,
  }

  abbrev pub has_string : Value → Bytes → Bool
  has_string root key = is_member root key && is_string (member root key)

  unfoldable pub read_auth_payload : Value → Result AuthPayload
  read_auth_payload root =
      if not (is_object root)
      then err (invalid_argument (bytes "JSON body must be an object"))
      else if not (has_string root (bytes "username"))
      then err (invalid_argument (bytes "missing or invalid 'username'"))
      else if not (has_string root (bytes "password"))
      then err (invalid_argument (bytes "missing or invalid 'password'"))
      else ok (record {
        username = as_string (member root (bytes "username"));
        password = as_string (member root (bytes "password"));
      })

  unfoldable pub parse_auth_payload : Bytes → Result AuthPayload
  parse_auth_payload body = elim (parse body) [
    | none ↦ err (invalid_argument (bytes "invalid JSON body"))
    | some root ↦ read_auth_payload root
  ]

  -- The JSON of a user.
  unfoldable pub user_json : ℕ → Bytes → Bytes → Value
  user_json id username role = with_fields j object_value (
      (bytes "id", uint_value id)
      ∷ (bytes "username", string_value username)
      ∷ (bytes "role", string_value role)
      ∷ [])

  -- The three checks in the first `try` of `registerHandler`.
  unfoldable pub check_registration : Bytes → Result AuthPayload
  check_registration body = elim (parse_auth_payload body) [
    | err e ↦ err e
    | ok payload ↦ elim (validate_username payload.username) [
      | err e ↦ err e
      | ok valid ↦ elim (validate_password payload.password) [
        | err e ↦ err e
        | ok strong ↦ ok payload
      ]
    ]
  ]

  module _ (m : Mysql) where
    unfoldable pub answer_me : Response → Option UserSummary → Dao m Response
    answer_me res none = pure (write_error j 401 (bytes "session expired or invalid") res)
    answer_me res (some user) =
        pure (write_json j 200 (user_json user.id user.username (role_name user.role)) res)

    unfoldable pub me_handler : Handler m
    me_handler req res = elim (parse_session_id req) [
      | none ↦ pure (write_error j 401 (bytes "not logged in") res)
      | some session_id ↦
          attempt (find_user_by_valid_session_id m session_id)
            (failed j m (bytes "database error: ") res) (answer_me res)
    ]

    -- The end of `registerHandler` and of `loginHandler`: a session for the user, and the answer.
    unfoldable pub start_session :
        AuthHost → SessionSettings → ℕ → ℕ → Bytes → Bytes → Response → Dao m Response
    start_session host config status id username role res = do
      session_id ← from_result (generate_session_id host.urandom)
      attempt (create_session m id session_id config.ttl) (failed j m (bytes "session error: ") res)
          λ session. pure (
            write_json j status (user_json id username role)
              (attach_session_cookie session_id config.ttl config.secure_cookie res))

    -- `catch (const db::UsernameExistsError&)`, and the catch behind it.
    unfoldable pub not_created : Response → Exception → Dao m Response
    not_created res (username_exists message) =
        pure (write_error j 409 (bytes "username already exists") res)
    not_created res e = failed j m (bytes "database error: ") res e

    -- `registerHandler` from the hashing on.
    unfoldable pub register_payload :
        AuthHost → SessionSettings → Response → AuthPayload → Dao m Response
    register_payload host config res payload =
        attempt (from_result (hash_password host.crypt host.crypt_error payload.password host.salt))
          (failed j m (bytes "hash error: ") res)
          λ password_hash.
            attempt (create_user m payload.username password_hash (bytes "user")) (not_created res)
              λ user_id. start_session host config 201 user_id payload.username (bytes "user") res

    unfoldable pub register_handler : AuthHost → SessionSettings → Handler m
    register_handler host config req res =
        attempt (from_result (check_registration req.body)) (refused_input j m res)
          (register_payload host config res)

    -- `loginHandler` from the look-up's answer on.
    unfoldable pub log_in :
        AuthHost → SessionSettings → Response → Bytes → Option UserSummary → Dao m Response
    log_in host config res password none =
        pure (write_error j 401 (bytes "invalid username or password") res)
    log_in host config res password (some user) =
        if not (verify_password host.crypt password user.password_hash)
        then pure (write_error j 401 (bytes "invalid username or password") res)
        else start_session host config 200 user.id user.username (role_name user.role) res

    unfoldable pub login_payload :
        AuthHost → SessionSettings → Response → AuthPayload → Dao m Response
    login_payload host config res payload =
        if is_empty payload.username || is_empty payload.password
        then pure (write_error j 400 (bytes "username and password are required") res)
        else attempt (find_user_by_username m payload.username)
            (failed j m (bytes "database error: ") res) (log_in host config res payload.password)

    unfoldable pub login_handler : AuthHost → SessionSettings → Handler m
    login_handler host config req res =
        attempt (from_result (parse_auth_payload req.body)) (refused_input j m res)
          (login_payload host config res)

    unfoldable pub logged_out : SessionSettings → Response → Dao m Response
    logged_out config res = pure (
        write_json j 200
          (with_fields j object_value ((bytes "status", string_value (bytes "ok")) ∷ []))
          (clear_session_cookie config.secure_cookie res))

    unfoldable pub logout_handler : SessionSettings → Handler m
    logout_handler config req res = elim (parse_session_id req) [
      | none ↦ logged_out config res
      | some session_id ↦
          attempt (delete_session m session_id) (failed j m (bytes "database error: ") res)
            λ deleted. logged_out config res
    ]
