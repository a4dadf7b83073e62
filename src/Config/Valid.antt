-- ===== src/Config/Valid.antt =====
-- What a configuration that is loaded satisfies (backend/src/util/config.cpp).
use oj_vibe_coding.Base.{
  ℕ, ◌^◌, ◌≤◌, ◌<◌, ◌≡◌, refl, subst, ◌≢◌, ◌⊎◌, true, false, Option, List, [], ◌∷◌, arith, is_empty,
}
use oj_vibe_coding.Base.Result.{Result, ok, err, ◌>>=◌, ◌>>◌, ok-injective}
use oj_vibe_coding.Text.{Bytes, bytes, eqb_iff}
use oj_vibe_coding.Config.{
  DatabaseConfig, HttpConfig, AppConfig, Environment, parse_port, is_positive_count, validate,
  load_database, load_http, load_parts, load,
}
use oj_vibe_coding.Config.Dotenv.{Values}

-- A configuration that the program can start with.
pub record IsValid (config : AppConfig) : Type 0 where
  pub db_port : (0 < config.database.port) × (config.database.port < 2 ^ 16)
  pub http_port : (0 < config.http.port) × (config.http.port < 2 ^ 16)
  pub connections : (0 < config.database.pool_size) × (config.database.pool_size ≤ 128)
  pub named :
      (config.database.host ≢ [])
      × (config.database.name ≢ [])
      × (config.database.user ≢ [])
      × (config.database.password ≢ [])
      × (config.http.host ≢ [])
  pub patient :
      (is_positive_count config.database.connect_timeout ≡ true)
      × (is_positive_count config.database.acquire_timeout ≡ true)
  pub lasting : is_positive_count config.session.ttl ≡ true
  pub levelled :
      (config.logging.level ≡ bytes "debug")
      ⊎ (config.logging.level ≡ bytes "info")
      ⊎ (config.logging.level ≡ bytes "warning")
      ⊎ (config.logging.level ≡ bytes "error")

parse_port-bounds :
    (key value : Bytes) (port : ℕ) → parse_port key value ≡ ok port → (0 < port) × (port < 2 ^ 16)
unfolding parse_port
parse_port-bounds key value port e = ground arith

load_database-port :
    (environment : Environment) (dotenv : Values) (config : DatabaseConfig)
    → load_database environment dotenv ≡ ok config
    → (0 < config.port) × (config.port < 2 ^ 16)
unfolding load_database
load_database-port environment dotenv config e = grind (arith, parse_port-bounds (bytes "DB_PORT"))

load_http-port :
    (environment : Environment) (dotenv : Values) (config : HttpConfig)
    → load_http environment dotenv ≡ ok config
    → (0 < config.port) × (config.port < 2 ^ 16)
unfolding load_http
load_http-port environment dotenv config e = grind (arith, parse_port-bounds (bytes "HTTP_PORT"))

is_empty-ne : (s : Bytes) → is_empty s ≡ false → s ≢ []
is_empty-ne [] h = cc
is_empty-ne (c ∷ s) h = cc

validate-IsValid :
    (config : AppConfig)
    → validate config ≡ ok tt
    → (0 < config.database.port) × (config.database.port < 2 ^ 16)
    → (0 < config.http.port) × (config.http.port < 2 ^ 16)
    → IsValid config
unfolding validate
validate-IsValid config e db http = record {
  db_port = db;
  http_port = http;
  connections = ground arith;
  named = ground (
    arith,
    is_empty-ne config.database.host,
    is_empty-ne config.database.name,
    is_empty-ne config.database.user,
    is_empty-ne config.database.password,
    is_empty-ne config.http.host,
  );
  patient = ground arith;
  lasting = ground arith;
  levelled = ground (
    arith,
    eqb_iff config.logging.level (bytes "debug"),
    eqb_iff config.logging.level (bytes "info"),
    eqb_iff config.logging.level (bytes "warning"),
    eqb_iff config.logging.level (bytes "error"),
  );
}

load_parts-ports :
    (environment : Environment) (file : Option (List Bytes)) (config : AppConfig)
    → load_parts environment file ≡ ok config
    → ((0 < config.database.port) × (config.database.port < 2 ^ 16))
      × ((0 < config.http.port) × (config.http.port < 2 ^ 16))
unfolding load_parts
load_parts-ports environment file config e =
    grind (arith, load_database-port environment, load_http-port environment)

checked-eq-ok :
    (parts : Result AppConfig) (config : AppConfig)
    → (parts >>= λ c. validate c >> ok c) ≡ ok config
    → (parts ≡ ok config) × (validate config ≡ ok tt)
checked-eq-ok (err e) config h = cc
checked-eq-ok (ok c) config h = by_check (validate c) refl h
  where
    by_check :
        (r : Result (Unit {0}))
        → validate c ≡ r
        → (r >> ok c) ≡ ok config
        → (ok c ≡ ok config) × (validate config ≡ ok tt)
    by_check (err e) v h = cc
    by_check (ok u) v h = (h, subst (λ x. validate x ≡ ok tt) (ok-injective h) v)

-- A configuration that loads, from any environment and any file, is valid: both ports are between 1 and
-- 65535, the pool has 1 to 128 connections, hosts, names and the password are not empty, the timeouts
-- and the life of a session are positive, and the level of the log is one of the four.
pub load-IsValid :
    (environment : Environment) (file : Option (List Bytes)) (config : AppConfig)
    → load environment file ≡ ok config
    → IsValid config
unfolding load
load-IsValid environment file config e =
    let (parts, valid) = checked-eq-ok (load_parts environment file) config e in
    let (db, http) = load_parts-ports environment file config parts in
    validate-IsValid config valid db http
