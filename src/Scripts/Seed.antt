-- ===== src/Scripts/Seed.antt =====
-- backend/scripts/seed.cpp, less its log and what it prints, which is returned.
pub mod Laws
mod Tests
use oj_vibe_coding.Auth.Session.{Source, read_loop}
use oj_vibe_coding.Auth.Password.{hash_password}
use oj_vibe_coding.Db.Users.Rows.{UserSummary}
use oj_vibe_coding.Db.Users.{find_user_by_username, create_user}
use oj_vibe_coding.Db.SeedLoader.{Files, clear_problem_bank, load_problems_from_json}
use oj_vibe_coding.Http.Message.{Json}
use oj_vibe_coding.Http.Handlers.Auth.{AuthHost}
use oj_vibe_coding.Http.Handlers.Admin.{before_last_slash, default_seed, beside, first_existing}
use oj_vibe_coding.Base.{
  ℕ, ◌+◌, ◌-◌, ◌/◌, ◌%◌, Bool, true, false, not, ◌&&◌, ◌||◌, Option, none, some, List, [], ◌∷◌,
  ◌++◌, ltb, ◌==◌, if◌then◌else◌, length, get_or,
}
use oj_vibe_coding.Base.Result.{other, Result, ok, err}
use oj_vibe_coding.Text.{Bytes, bytes, eqb}
use oj_vibe_coding.Base.Effect.{pure, from_result, ◌>>=◌, ◌>>◌}
use oj_vibe_coding.Db.Client.{Mysql, Dao, execute, using_lease}

-- The environment variables MINIOJ_SEED_JSON and `_`, and the files.
pub record SeedHost : Type 0 where
  pub seed_json : Option Bytes
  pub underscore : Option Bytes
  pub files : Files

-- A variable that is set and not empty.
abbrev pub set_text : Option Bytes → Option Bytes
set_text none = none
set_text (some []) = none
set_text (some (c ∷ s)) = some (c ∷ s)

-- The candidates beside the program, if `_` has a '/'.
unfoldable pub beside_program : Option Bytes → List Bytes
beside_program none = []
beside_program (some exe) = elim (before_last_slash exe) [ none ↦ [] | some dir ↦ beside dir ]

unfoldable pub default_seed_path : SeedHost → Bytes
default_seed_path host = elim (set_text host.seed_json) [
  | some path ↦ path
  | none ↦ first_existing host.files (default_seed ∷ beside_program (set_text host.underscore))
]

-- The letters A to Z and the digits 2 to 7.
abbrev pub alphabet : Bytes
alphabet = bytes "ABCDEFGHIJKLMNOPQRSTUVWXYZ234567"

abbrev pub password_bytes : ℕ
password_bytes = 12

-- `kAlphabet[buffer[i] & 0x1F]` for each of the bytes.
unfoldable pub base32 : Bytes → Bytes
base32 [] = []
base32 (b ∷ rest) = get_or alphabet (b % 32) 0 ∷ base32 rest

-- The loop over `read` is the one of backend/src/auth/session.cpp, with another message.
unfoldable pub generate_random_password : Source → Result Bytes
unfolding base32
generate_random_password source =
    if not source.opens
    then err (other (bytes "failed to open /dev/urandom"))
    else elim (read_loop password_bytes password_bytes source 0) [
      | err e ↦ err (other (bytes "failed to read /dev/urandom"))
      | ok buffer ↦ ok (base32 buffer)
    ]

pub record Options : Type 0 where
  pub reset : Bool
  pub seed_json : Bytes
  pub admin_username : Bytes
  pub admin_password : Option Bytes

-- What the chain of comparisons takes an argument for.
pub data Flag : Type 0 where
  reset_flag seed_json_flag username_flag password_flag unknown_flag : Flag

unfoldable pub flag_of : Bytes → Flag
flag_of arg =
    if eqb arg (bytes "--reset")
    then reset_flag
    else if eqb arg (bytes "--seed-json")
    then seed_json_flag
    else if eqb arg (bytes "--admin-username")
    then username_flag
    else if eqb arg (bytes "--admin-password")
    then password_flag
    else unknown_flag

abbrev pub malformed : Bytes → Result Options
malformed arg = err (other (bytes "unknown or malformed argument: " ++ arg))

-- The loop over `argv`; a flag with a value is malformed as the last argument.
unfoldable pub parse_loop : Options → List Bytes → Result Options
parse_loop opts [] = ok opts
parse_loop opts (arg ∷ []) = elim (flag_of arg) [
  | reset_flag ↦ ok (record opts { reset = true })
  | seed_json_flag ↦ malformed arg
  | username_flag ↦ malformed arg
  | password_flag ↦ malformed arg
  | unknown_flag ↦ malformed arg
]
parse_loop opts (arg ∷ value ∷ rest) = elim (flag_of arg) [
  | reset_flag ↦ parse_loop (record opts { reset = true }) (value ∷ rest)
  | seed_json_flag ↦ parse_loop (record opts { seed_json = value }) rest
  | username_flag ↦ parse_loop (record opts { admin_username = value }) rest
  | password_flag ↦ parse_loop (record opts { admin_password = some value }) rest
  | unknown_flag ↦ malformed arg
]

abbrev pub fits_password : Option Bytes → Bool
fits_password none = true
fits_password (some password) = not (ltb (length password) 8 || ltb 64 (length password))

-- The two tests behind the loop.
unfoldable pub check_options : Options → Result Options
check_options opts =
    if ltb (length opts.admin_username) 3 || ltb 20 (length opts.admin_username)
    then err (other (bytes "admin username must be 3-20 characters"))
    else if not (fits_password opts.admin_password)
    then err (other (bytes "admin password must be 8-64 characters"))
    else ok opts

abbrev pub default_options : SeedHost → Options
default_options host = record {
  reset = false;
  seed_json = default_seed_path host;
  admin_username = bytes "admin";
  admin_password = none;
}

unfoldable pub parse_args : SeedHost → List Bytes → Result Options
parse_args host args = elim (parse_loop (default_options host) args) [
  | err e ↦ err e
  | ok opts ↦ check_options opts
]

-- The loop that escapes the user name.
unfoldable pub escape_quotes : Bytes → Bytes
escape_quotes [] = []
escape_quotes (ch ∷ rest) =
    let escaped = escape_quotes rest in
    if ch == b'\'' || ch == b'\\' then b'\\' ∷ ch ∷ escaped else ch ∷ escaped

unfoldable pub admin_delete : Bytes → Bytes
unfolding escape_quotes
admin_delete username =
    bytes "DELETE FROM users WHERE username = '" ++ escape_quotes username ++ bytes "'"

abbrev pub is_some : Option UserSummary → Bool
is_some none = false
is_some (some user) = true

unfoldable pub chosen_password : Options → Source → Result Bytes
chosen_password opts source = elim opts.admin_password [
  | some password ↦ ok password
  | none ↦ generate_random_password source
]

module _ (m : Mysql) where
  -- The existing account is removed if there is one and `--reset` is given.
  unfoldable pub remove_admin : Options → Bool → Dao m (Unit {0})
  remove_admin opts exists =
      if opts.reset && exists
      then using_lease m
          (execute m (admin_delete opts.admin_username) (bytes "delete admin failed: "))
      else pure tt

  -- `ensureAdminAccount` from the choice of the password on: the id and the password, which is printed.
  unfoldable pub create_admin : AuthHost → Options → Bool → Dao m (Option (ℕ × Bytes))
  create_admin host opts exists = do
    password ← from_result (chosen_password opts host.urandom)
    remove_admin opts exists
    hash ← from_result (hash_password host.crypt host.crypt_error password host.salt)
    id ← create_user m opts.admin_username hash (bytes "admin")
    pure (some (id, password))

  unfoldable pub ensure_admin_account : AuthHost → Options → Dao m (Option (ℕ × Bytes))
  ensure_admin_account host opts = do
    existing ← find_user_by_username m opts.admin_username
    let kept = is_some existing && not opts.reset
    if kept then pure none else create_admin host opts (is_some existing)

  unfoldable pub clear_if : Bool → Dao m (Unit {0})
  clear_if reset = if reset then clear_problem_bank m else pure tt

  -- `main`, once the configuration is loaded and the pool is made; an exception is exit status 1.
  unfoldable pub seed : Json → SeedHost → AuthHost → List Bytes → Dao m (Option (ℕ × Bytes))
  seed j around host args = do
    opts ← from_result (parse_args around args)
    clear_if opts.reset
    load_problems_from_json m j around.files opts.seed_json
    ensure_admin_account host opts
