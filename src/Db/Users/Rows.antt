-- ===== src/Db/Users/Rows.antt =====
-- The rows of users that backend/src/db/user_dao.cpp reads, and the types they are read into.
use oj_vibe_coding.Config.Numbers.{stoull}
use oj_vibe_coding.Db.Client.{Row, column}
use oj_vibe_coding.Base.{ℕ, Option, none, some, List, [], ◌∷◌, ◌++◌, if◌then◌else◌}
use oj_vibe_coding.Base.Result.{other, Result, ok, err, ◌>>=◌}
use oj_vibe_coding.Text.{Bytes, bytes, eqb}

pub data UserRole : Type 0 where
  user admin : UserRole

pub record UserSummary : Type 0 where
  pub id : ℕ
  pub username : Bytes
  pub role : UserRole
  pub password_hash : Bytes

unfoldable pub parse_role_or_throw : Bytes → Result UserRole
parse_role_or_throw value =
    if eqb value (bytes "admin")
    then ok admin
    else if eqb value (bytes "user")
    then ok user
    else err (other (bytes "invalid role value: " ++ value))

-- A row of a user with its password hash, and a row of a session's user.
unfoldable pub read_user : Row → Result UserSummary
read_user row = do
  parsed ← stoull (column row 0)
  role ← parse_role_or_throw (column row 2)
  ok (record { id = parsed.0; username = column row 1; role = role; password_hash = column row 3 })

unfoldable pub read_session_user : Row → Result UserSummary
read_session_user row = do
  parsed ← stoull (column row 0)
  role ← parse_role_or_throw (column row 2)
  ok (record { id = parsed.0; username = column row 1; role = role; password_hash = [] })

-- `if (MYSQL_ROW row = mysql_fetch_row(result)) { ... }`: the first row, if there is one.
unfoldable pub first_row : {A : Type 0} → (Row → Result A) → List Row → Result (Option A)
first_row read [] = ok none
first_row read (row ∷ rest) = do first ← read row; ok (some first)
