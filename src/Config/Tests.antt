-- ===== src/Config/Tests.antt =====
-- Loading a configuration from a file and an environment.
use oj_vibe_coding.Base.{◌≡◌, refl, false, none, some, List, [], ◌∷◌, if◌then◌else◌}
use oj_vibe_coding.Base.Result.{ok}
use oj_vibe_coding.Text.{Bytes, bytes, eqb}
use oj_vibe_coding.Auth.Session.{decimal}
use oj_vibe_coding.Http.Message.{non_negative}
use oj_vibe_coding.Config.{
  AppConfig, Environment, value_of, parse_unsigned, parse_port, parse_size, parse_boolean, to_count,
  validate, load_database, load_http, load_session, load_parts, load, decimal,
}
use oj_vibe_coding.Config.Dotenv.{
  trim_front, trim_back, trim, find_value, split_entry, unquote, read_entry, read_lines,
  load_dotenv,
}
use oj_vibe_coding.Config.Numbers.{count_space, read_digits, read_sign, stoull}
use oj_vibe_coding.Config.Valid.{IsValid, load-IsValid}

abbrev settings : List Bytes
settings = bytes "# settings" ∷ bytes "DB_PASSWORD = 'secret'" ∷ [] ∷ bytes " DB_POOL_SIZE=4" ∷ []

abbrev environment : Environment
environment key = if eqb key (bytes "HTTP_PORT") then some (bytes "80") else none

abbrev loaded : AppConfig
loaded = record {
  database = record {
    host = bytes "127.0.0.1";
    port = 3306;
    name = bytes "minioj";
    user = bytes "minioj";
    password = bytes "secret";
    pool_size = 4;
    connect_timeout = non_negative 5;
    acquire_timeout = non_negative 2000;
  };
  http = record { host = bytes "0.0.0.0"; port = 80 };
  session = record { ttl = non_negative 604_800; secure_cookie = false };
  logging = record { level = bytes "info" };
}

settings-loaded : load environment (some settings) ≡ ok loaded
unfolding load load_parts load_database load_http load_session load_dotenv read_lines read_entry
    split_entry unquote trim trim_front trim_back value_of find_value parse_port parse_size
    parse_unsigned parse_boolean stoull count_space read_sign read_digits decimal to_count validate
    bytes eqb
settings-loaded = refl

load-IsValid_example : IsValid loaded
load-IsValid_example = load-IsValid environment (some settings) loaded settings-loaded
