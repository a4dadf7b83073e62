-- ===== src/Config.antt =====
-- backend/include/config.hpp and backend/src/util/config.cpp. The environment is a function; a file
-- that cannot be opened is `none`, and else a list of lines. Durations are counts of their units.
pub mod Dotenv
pub mod Numbers
pub mod Valid
mod Tests
use oj_vibe_coding.Base.{
  ℕ, ◌+◌, ◌-◌, ◌^◌, Bool, true, false, not, ◌&&◌, ◌||◌, Option, none, some, List, [], ◌++◌, ltb,
  ◌==◌, if◌then◌else◌, length, is_empty,
}
use oj_vibe_coding.Base.Result.{Exception, other, Result, ok, err, ◌>>=◌, ◌>>◌, require}
use oj_vibe_coding.Text.{Bytes, bytes, eqb}
use oj_vibe_coding.Config.Dotenv.{Values, find_value, head_or, load_dotenv}
use oj_vibe_coding.Auth.Session.{decimal}
use oj_vibe_coding.Http.Message.{Int64, non_negative, negative}
use oj_vibe_coding.Config.Numbers.{stoull}

pub record DatabaseConfig : Type 0 where
  pub host : Bytes
  pub port : ℕ
  pub name : Bytes
  pub user : Bytes
  pub password : Bytes
  pub pool_size : ℕ
  pub connect_timeout : Int64
  pub acquire_timeout : Int64

pub record HttpConfig : Type 0 where
  pub host : Bytes
  pub port : ℕ

pub record SessionConfig : Type 0 where
  pub ttl : Int64
  pub secure_cookie : Bool

pub record LoggingConfig : Type 0 where
  pub level : Bytes

pub record AppConfig : Type 0 where
  pub database : DatabaseConfig
  pub http : HttpConfig
  pub session : SessionConfig
  pub logging : LoggingConfig

abbrev pub Environment : Type 0
Environment = Bytes → Option Bytes

abbrev or_entry : Option Bytes → Option Bytes → Bytes → Bytes
or_entry (some v) entry fallback = v
or_entry none (some v) fallback = v
or_entry none none fallback = fallback

unfoldable pub value_of : Environment → Values → Bytes → Bytes → Bytes
value_of environment dotenv key fallback =
    or_entry (environment key) (find_value key dotenv) fallback

-- Whatever stoull throws is replaced; all characters must be used.
unfoldable pub all_consumed : Exception → Bytes → Result (ℕ × ℕ) → Result ℕ
all_consumed error value (err e) = err error
all_consumed error value (ok (result, consumed)) =
    if not (consumed == length value) then err error else ok result

unfoldable pub parse_unsigned : Bytes → Bytes → Result ℕ
unfolding all_consumed
parse_unsigned key value =
    if is_empty value || head_or value 0 == b'-'
    then err (other (bytes "invalid unsigned value for " ++ key))
    else all_consumed (other (bytes "invalid unsigned value for " ++ key)) value (stoull value)

unfoldable pub parse_port : Bytes → Bytes → Result ℕ
parse_port key value = do
  port ← parse_unsigned key value
  require (not (port == 0 || ltb 65_535 port)) (other (bytes "port out of range for " ++ key))
  ok port

-- `std::size_t` has 64 bits, so the test on the range never fails.
unfoldable pub parse_size : Bytes → Bytes → Result ℕ
parse_size key value = do
  parsed ← parse_unsigned key value
  require (not (ltb 18_446_744_073_709_551_615 parsed))
      (other (bytes "value out of range for " ++ key))
  ok parsed

unfoldable pub parse_boolean : Bytes → Bytes → Result Bool
parse_boolean key value =
    if eqb value (bytes "true") || eqb value (bytes "1") || eqb value (bytes "yes")
    then ok true
    else if eqb value (bytes "false") || eqb value (bytes "0") || eqb value (bytes "no")
    then ok false
    else err (other (bytes "invalid boolean value for " ++ key))

-- The conversion of an unsigned 64-bit number to the signed count of a duration.
unfoldable pub to_count : ℕ → Int64
to_count n = if ltb n (2 ^ 63) then non_negative n else negative (2 ^ 64 - n - 1)

abbrev pub is_positive_count : Int64 → Bool
is_positive_count (non_negative n) = ltb 0 n
is_positive_count (negative n) = false

-- `AppConfig::validate`: the first test that fails throws.
unfoldable pub validate : AppConfig → Result (Unit {0})
validate config = do
  require
      (not (
        is_empty config.database.host
        || is_empty config.database.name
        || is_empty config.database.user))
      (other (bytes "database host, name and user must not be empty"))
  require (not (is_empty config.database.password)) (other (bytes "DB_PASSWORD must not be empty"))
  require (not (config.database.pool_size == 0 || ltb 128 config.database.pool_size))
      (other (bytes "DB_POOL_SIZE must be between 1 and 128"))
  require
      (is_positive_count config.database.connect_timeout
        && is_positive_count config.database.acquire_timeout)
      (other (bytes "database timeouts must be positive"))
  require (not (is_empty config.http.host)) (other (bytes "HTTP_HOST must not be empty"))
  require (is_positive_count config.session.ttl)
      (other (bytes "SESSION_TTL_SECONDS must be positive"))
  require
      (eqb config.logging.level (bytes "debug")
        || eqb config.logging.level (bytes "info")
        || eqb config.logging.level (bytes "warning")
        || eqb config.logging.level (bytes "error"))
      (other (bytes "LOG_LEVEL must be debug, info, warning or error"))

-- The database's part of `AppConfig::load`. The defaults are those of the header; numbers among them
-- are printed and parsed again.
unfoldable pub load_database : Environment → Values → Result DatabaseConfig
load_database environment dotenv = do
  let read = value_of environment dotenv
  port ← parse_port (bytes "DB_PORT") (read (bytes "DB_PORT") (decimal 3306))
  pool_size ← parse_size (bytes "DB_POOL_SIZE") (read (bytes "DB_POOL_SIZE") (decimal 10))
  connect_timeout ←
      parse_unsigned (bytes "DB_CONNECT_TIMEOUT_SECONDS")
        (read (bytes "DB_CONNECT_TIMEOUT_SECONDS") (decimal 5))
  acquire_timeout ←
      parse_unsigned (bytes "DB_ACQUIRE_TIMEOUT_MS")
        (read (bytes "DB_ACQUIRE_TIMEOUT_MS") (decimal 2000))
  ok (record {
    host = read (bytes "DB_HOST") (bytes "127.0.0.1");
    port = port;
    name = read (bytes "DB_NAME") (bytes "minioj");
    user = read (bytes "DB_USER") (bytes "minioj");
    password = read (bytes "DB_PASSWORD") [];
    pool_size = pool_size;
    connect_timeout = to_count connect_timeout;
    acquire_timeout = to_count acquire_timeout;
  })

unfoldable pub load_http : Environment → Values → Result HttpConfig
load_http environment dotenv = do
  port ←
      parse_port (bytes "HTTP_PORT")
        (value_of environment dotenv (bytes "HTTP_PORT") (decimal 8080))
  ok (record {
    host = value_of environment dotenv (bytes "HTTP_HOST") (bytes "0.0.0.0");
    port = port;
  })

unfoldable pub load_session : Environment → Values → Result SessionConfig
load_session environment dotenv = do
  ttl ←
      parse_unsigned (bytes "SESSION_TTL_SECONDS")
        (value_of environment dotenv (bytes "SESSION_TTL_SECONDS") (decimal 604800))
  secure_cookie ←
      parse_boolean (bytes "SESSION_COOKIE_SECURE")
        (value_of environment dotenv (bytes "SESSION_COOKIE_SECURE") (bytes "false"))
  ok (record { ttl = to_count ttl; secure_cookie = secure_cookie })

-- The configuration that is read, before it is validated.
unfoldable pub load_parts : Environment → Option (List Bytes) → Result AppConfig
load_parts environment file = do
  dotenv ← load_dotenv file
  database ← load_database environment dotenv
  http ← load_http environment dotenv
  session ← load_session environment dotenv
  ok (record {
    database = database;
    http = http;
    session = session;
    logging = record { level = value_of environment dotenv (bytes "LOG_LEVEL") (bytes "info") };
  })

-- `AppConfig::load`.
unfoldable pub load : Environment → Option (List Bytes) → Result AppConfig
load environment file = do config ← load_parts environment file; validate config; ok config
