-- ===== src/Db/Users.antt =====
-- backend/src/db/user_dao.hpp and user_dao.cpp
pub mod Rows
use oj_vibe_coding.Db.Users.Rows.{user, UserSummary, read_user, read_session_user, first_row}
use oj_vibe_coding.Auth.Session.{decimal}
use oj_vibe_coding.Base.{
  ℕ, ◌+◌, Bool, false, not, ◌&&◌, Option, none, ◌++◌, ltb, ◌==◌, if◌then◌else◌, length, all,
}
use oj_vibe_coding.Base.Result.{Exception, invalid_argument, username_exists}
use oj_vibe_coding.Text.{Bytes, bytes, is_xdigit}
use oj_vibe_coding.Base.Effect.{pure, throw, from_result, gets, ◌>>=◌, ◌>>◌, attempt}
use oj_vibe_coding.Db.Client.{
  Mysql, Client, Dao, send, throw_error, execute, select, escape, using_lease,
}

-- `expires_at` is a time in seconds.
pub record SessionRecord : Type 0 where
  pub id : Bytes
  pub user_id : ℕ
  pub expires_at : ℕ

abbrev pub duplicate_key_error_code : ℕ
duplicate_key_error_code = 1062

-- The message of a UsernameExistsError.
abbrev pub taken : Bytes → Exception
taken username = username_exists (bytes "username '" ++ username ++ bytes "' is already taken")

unfoldable pub is_shape_session_id : Bytes → Bool
is_shape_session_id value = length value == 64 && all is_xdigit value

unfoldable pub username_lookup : Bytes → Bytes
username_lookup username_esc =
    bytes "SELECT id, username, role, password_hash FROM users WHERE username = '"
    ++ username_esc
    ++ bytes "' LIMIT 1"

unfoldable pub id_lookup : ℕ → Bytes
id_lookup user_id =
    bytes "SELECT id, username, role, password_hash FROM users WHERE id = "
    ++ decimal user_id
    ++ bytes " LIMIT 1"

unfoldable pub user_insert : Bytes → Bytes → Bytes → Bytes
user_insert username_esc hash_esc role_esc =
    bytes "INSERT INTO users (username, password_hash, role) VALUES ('"
    ++ username_esc
    ++ bytes "', '"
    ++ hash_esc
    ++ bytes "', '"
    ++ role_esc
    ++ bytes "')"

unfoldable pub session_insert : Bytes → ℕ → Bytes → Bytes
session_insert session_esc user_id expires_esc =
    bytes "INSERT INTO sessions (id, user_id, expires_at) VALUES ('"
    ++ session_esc
    ++ bytes "', "
    ++ decimal user_id
    ++ bytes ", '"
    ++ expires_esc
    ++ bytes "')"

unfoldable pub session_lookup : Bytes → Bytes
session_lookup session_esc =
    bytes "SELECT u.id, u.username, u.role FROM users u "
    ++ bytes "INNER JOIN sessions s ON s.user_id = u.id "
    ++ bytes "WHERE s.id = '"
    ++ session_esc
    ++ bytes "' AND s.expires_at > UTC_TIMESTAMP() ORDER BY s.expires_at DESC LIMIT 1"

unfoldable pub session_delete : Bytes → Bytes
session_delete session_esc = bytes "DELETE FROM sessions WHERE id = '" ++ session_esc ++ bytes "'"

module _ (m : Mysql) where
  unfoldable pub find_user_by_username : Bytes → Dao m (Option UserSummary)
  find_user_by_username username = using_lease m (do
    username_esc ← escape m username
    rows ←
        select m (username_lookup username_esc) (bytes "user lookup failed: ")
          (bytes "user lookup store failed: ")
    from_result (first_row read_user rows))

  unfoldable pub find_user_by_id : ℕ → Dao m (Option UserSummary)
  find_user_by_id user_id = using_lease m (do
    rows ←
        select m (id_lookup user_id) (bytes "user id lookup failed: ")
          (bytes "user id lookup store failed: ")
    from_result (first_row read_user rows))

  unfoldable pub is_duplicate_key_error : Client m → Bool
  is_duplicate_key_error c = m.errno c.server == duplicate_key_error_code

  -- What `createUser` throws when the insertion fails.
  unfoldable pub insert_error : Bytes → Dao m ℕ
  insert_error username = do
    duplicate ← gets is_duplicate_key_error
    if duplicate then throw (taken username) else throw_error m (bytes "user insert failed: ")

  unfoldable pub create_user : Bytes → Bytes → Bytes → Dao m ℕ
  create_user username password_hash role = using_lease m (do
    username_esc ← escape m username
    hash_esc ← escape m password_hash
    role_esc ← escape m role
    done ← send m (user_insert username_esc hash_esc role_esc)
    if done then gets (λ c. m.insert_id c.server) else insert_error username)

  unfoldable pub insert_session : ℕ → Bytes → ℕ → Dao m SessionRecord
  insert_session user_id session_id ttl = do
    now ← gets (λ c. m.now c.server)
    let expires_at = now + ttl
    session_esc ← escape m session_id
    expires_esc ← escape m (m.utc_text expires_at)
    execute m (session_insert session_esc user_id expires_esc) (bytes "session insert failed: ")
    pure (record { id = session_id; user_id = user_id; expires_at = expires_at })

  unfoldable pub create_session : ℕ → Bytes → ℕ → Dao m SessionRecord
  create_session user_id session_id ttl = using_lease m (
      if not (is_shape_session_id session_id)
      then throw (invalid_argument (bytes "session id has invalid shape"))
      else insert_session user_id session_id ttl)

  unfoldable pub find_user_by_valid_session_id : Bytes → Dao m (Option UserSummary)
  find_user_by_valid_session_id session_id =
      if not (is_shape_session_id session_id)
      then pure none
      else using_lease m (do
        session_esc ← escape m session_id
        rows ←
            select m (session_lookup session_esc) (bytes "session lookup failed: ")
              (bytes "session lookup store failed: ")
        from_result (first_row read_session_user rows))

  unfoldable pub remove_session : Bytes → Dao m Bool
  remove_session session_id = using_lease m (do
    session_esc ← escape m session_id
    done ← send m (session_delete session_esc)
    if done then gets (λ c. ltb 0 (m.affected_rows c.server)) else pure false)

  -- Every exception is caught, and `false` is returned for it.
  unfoldable pub delete_session : Bytes → Dao m Bool
  delete_session session_id =
      if not (is_shape_session_id session_id)
      then pure false
      else attempt (remove_session session_id) (λ e. pure false) pure
