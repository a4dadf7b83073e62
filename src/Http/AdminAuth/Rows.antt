-- ===== src/Http/AdminAuth/Rows.antt =====
-- The rows of users that backend/src/http/admin_auth.cpp takes for administrators.
use mathlib.Core.Option.{some-injective}
use oj_vibe_coding.Base.{ℕ, ◌≡◌, refl, ap, ◌∙◌, true, some, List, [], ◌∷◌, arith}
use oj_vibe_coding.Base.Result.{Result, ok, err, ◌>>=◌, ok-injective}
use oj_vibe_coding.Text.{Bytes, bytes, eq_of_eqb}
use oj_vibe_coding.Config.Numbers.{stoull}
use oj_vibe_coding.Http.AdminAuth.{is_admin}
use oj_vibe_coding.Db.Client.{Row, column}
use oj_vibe_coding.Db.Users.Rows.{
  UserRole, UserSummary, parse_role_or_throw, read_session_user, first_row,
}

-- The user of a row is an administrator.
unfoldable pub IsAdminRow : Row → Type 0
IsAdminRow row = ((n : ℕ × ℕ) × (stoull (column row 0) ≡ ok n)) × (column row 2 ≡ bytes "admin")

parse_role_or_throw-admin :
    (value : Bytes) (role : UserRole)
    → parse_role_or_throw value ≡ ok role
    → is_admin role ≡ true
    → value ≡ bytes "admin"
unfolding parse_role_or_throw
parse_role_or_throw-admin value role e h = ground (arith, eq_of_eqb value (bytes "admin"))

-- What is left of a row once its number is read.
with_role : Row → ℕ × ℕ → UserRole → Result UserSummary
with_role row parsed role =
    ok (record { id = parsed.0; username = column row 1; role = role; password_hash = [] })

with_role-role :
    (row : Row) (parsed : ℕ × ℕ) (r : Result UserRole) (u : UserSummary)
    → (r >>= with_role row parsed) ≡ ok u
    → (role : UserRole) × (r ≡ ok role) × (role ≡ u.role)
unfolding with_role
with_role-role row parsed (err x) u e = cc
with_role-role row parsed (ok role) u e = (role, refl, ap (λ x. x.role) (ok-injective e))

with_number-role :
    (row : Row) (p : Result (ℕ × ℕ)) (r : Result UserRole) (u : UserSummary)
    → (p >>= λ parsed. r >>= with_role row parsed) ≡ ok u
    → ((n : ℕ × ℕ) × (p ≡ ok n)) × ((role : UserRole) × (r ≡ ok role) × (role ≡ u.role))
with_number-role row (err x) r u e = cc
with_number-role row (ok n) r u e = ((n, refl), with_role-role row n r u e)

read_session_user-IsAdminRow :
    (row : Row) (u : UserSummary)
    → read_session_user row ≡ ok u
    → is_admin u.role ≡ true
    → IsAdminRow row
unfolding read_session_user IsAdminRow with_role
read_session_user-IsAdminRow row u e h =
    let (number, (role, ranked, same)) =
      with_number-role row (stoull (column row 0)) (parse_role_or_throw (column row 2)) u e in
    (number, parse_role_or_throw-admin (column row 2) role ranked (ap is_admin same ∙ h))

some_of-eq-ok :
    (r : Result UserSummary) (u : UserSummary)
    → (r >>= λ first. ok (some first)) ≡ ok (some u)
    → r ≡ ok u
some_of-eq-ok (err x) u e = cc
some_of-eq-ok (ok v) u e = ap ok (some-injective v u (ok-injective e))

pub first_row-IsAdminRow :
    (rows : List Row) (u : UserSummary)
    → first_row read_session_user rows ≡ ok (some u)
    → is_admin u.role ≡ true
    → (row : Row) × (rest : List Row) × (rows ≡ row ∷ rest) × IsAdminRow row
unfolding first_row
first_row-IsAdminRow [] u e h = cc e
first_row-IsAdminRow (row ∷ rest) u e h = (
  row,
  rest,
  refl,
  read_session_user-IsAdminRow row u (some_of-eq-ok (read_session_user row) u e) h,
)
