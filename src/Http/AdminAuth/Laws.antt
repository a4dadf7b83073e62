-- ===== src/Http/AdminAuth/Laws.antt =====
-- Whom the guard of backend/src/http/admin_auth.cpp lets through.
use oj_vibe_coding.Http.Cookie.{write_error, write_json, parse_session_id}
use oj_vibe_coding.Config.Numbers.{stoull}
use oj_vibe_coding.Db.Users.Rows.{UserSummary, parse_role_or_throw, read_session_user, first_row}
use oj_vibe_coding.Db.Users.{is_shape_session_id, session_lookup, find_user_by_valid_session_id}
use oj_vibe_coding.Http.AdminAuth.{
  starts_with_admin_path, is_admin, judge_user, judge_session, check_admin_auth, handled,
}
use oj_vibe_coding.Http.Message.{Request, Response, unhandled, Json}
use oj_vibe_coding.Base.{
  ℕ, ◌≡◌, refl, ap, ◌↔◌, ◌⊎◌, inl, inr, true, false, Option, none, some, List, ◌∷◌, arith,
  if◌then◌else◌, Bool-cases,
}
use oj_vibe_coding.Base.Result.{Result, ok, err}
use oj_vibe_coding.Text.{Bytes, bytes, eqb_refl}
use oj_vibe_coding.Base.Effect.{continue, ◌>>=◌, ◌>>◌}
use oj_vibe_coding.Db.Client.{
  Row, Mysql, column, Client, send, throw_error, execute, stored, fetch, select, escape, give_back,
  with_lease, using_lease,
}
use oj_vibe_coding.Http.AdminAuth.Rows.{IsAdminRow, first_row-IsAdminRow}
use oj_vibe_coding.Db.Client.Lookup.{Looked, looking_up-eq-ok}
use oj_vibe_coding.Http.Message.{HandlerResponse}

-- The request carries a session id whose row, read from the database without an error, names an
-- administrator. `lent`, `asked` and `read` are the server after each of the three calls.
pub record FromAdmin (m : Mysql) (req : Request) (c : Client m) : Type 0 where
  pub session_id : Bytes
  pub row : Row
  pub rest : List Row
  pub lent : m.Server
  pub asked : m.Server
  pub read : m.Server
  pub sent : parse_session_id req ≡ some session_id
  pub shaped : is_shape_session_id session_id ≡ true
  pub connected : m.acquire c.server ≡ (ok tt, lent)
  pub queried : m.query (session_lookup (m.escape lent session_id)) lent ≡ (true, asked)
  pub found : m.store_result asked ≡ (some (row ∷ rest), read)
  pub numbered : (n : ℕ × ℕ) × (stoull (column row 0) ≡ ok n)
  pub ranked : column row 2 ≡ bytes "admin"

judge_user-unhandled :
    (j : Json) (res : Response) (r : Result (Option UserSummary))
    → (judge_user j r res).0 ≡ unhandled
    → (u : UserSummary) × (r ≡ ok (some u)) × (is_admin u.role ≡ true)
unfolding judge_user
judge_user-unhandled j res (err x) e = cc
judge_user-unhandled j res (ok none) e = cc
judge_user-unhandled j res (ok (some u)) e = (u, refl, ground arith)

find_user-Looked :
    (m : Mysql) (id : Bytes) (c : Client m) (u : UserSummary)
    → (find_user_by_valid_session_id m id c).0 ≡ ok (some u)
    → (is_shape_session_id id ≡ true)
      × ((rows : List Row) × Looked m session_lookup id c rows
          × (first_row read_session_user rows ≡ ok (some u)))
unfolding find_user_by_valid_session_id
find_user-Looked m id c u e = elim (Bool-cases (is_shape_session_id id)) [
  | inr odd ↦ cc (rw odd at e)
  | inl shaped ↦ (
    shaped,
    looking_up-eq-ok m session_lookup (bytes "session lookup failed: ")
        (bytes "session lookup store failed: ") (first_row read_session_user) id c (some u)
        (rw shaped at e),
  )
]

judge_session-unhandled :
    (j : Json) (m : Mysql) (res : Response) (c : Client m) (req : Request) (session : Option Bytes)
    → parse_session_id req ≡ session
    → (judge_session j m session res c).0.0 ≡ unhandled
    → FromAdmin m req c
unfolding judge_session IsAdminRow
judge_session-unhandled j m res c req none carried e = cc
judge_session-unhandled j m res c req (some id) carried e =
    let (u, looked_up, rank) =
      judge_user-unhandled j res (find_user_by_valid_session_id m id c).0 e in
    let (shaped, (rows, looked, first)) = find_user-Looked m id c u looked_up in
    let (r, rest, top, (numbered, ranked)) = first_row-IsAdminRow rows u first rank in
    record {
      session_id = id;
      row = r;
      rest = rest;
      lent = looked.lent;
      asked = looked.asked;
      read = looked.read;
      sent = carried;
      shaped = shaped;
      connected = looked.connected;
      queried = looked.queried;
      found = rw (← top) looked.found;
      numbered = numbered;
      ranked = ranked;
    }

judge_session-FromAdmin :
    (j : Json) (m : Mysql) (res : Response) (c : Client m) (req : Request)
    → FromAdmin m req c
    → (judge_session j m (parse_session_id req) res c).0 ≡ (unhandled, res)
unfolding judge_session find_user_by_valid_session_id read_session_user judge_user first_row
    parse_role_or_throw using_lease with_lease give_back escape select execute send fetch stored
    throw_error ◌>>=◌ ◌>>◌ continue
judge_session-FromAdmin j m res c req a =
    rw
      (
        a.sent,
        a.shaped,
        a.connected,
        a.queried,
        a.found,
        a.numbered.1,
        a.ranked,
        eqb_refl (bytes "admin"),
      )
      refl

-- A request for a path below /api/admin/ is let through exactly if it carries a session id whose user, read
-- from the database without an error, is an administrator.
pub check_admin_auth_iff :
    (j : Json) (m : Mysql) (req : Request) (res : Response) (c : Client m)
    → starts_with_admin_path req.path ≡ true
    → ((check_admin_auth j m req res c).0.0 ≡ unhandled) ↔ FromAdmin m req c
unfolding check_admin_auth
check_admin_auth_iff j m req res c below = rw below (
  judge_session-unhandled j m res c req (parse_session_id req) refl,
  λ a. ap (λ p. p.0) (judge_session-FromAdmin j m res c req a),
)

pub check_admin_auth-elsewhere :
    (j : Json) (m : Mysql) (req : Request) (res : Response) (c : Client m)
    → starts_with_admin_path req.path ≡ false
    → (check_admin_auth j m req res c).0.0 ≡ unhandled
unfolding check_admin_auth
check_admin_auth-elsewhere j m req res c elsewhere = rw elsewhere refl

-- Let through with the response untouched, or stopped with status 401, 403 or 500.
pub IsGuarded : Response → HandlerResponse × Response → Type 0
IsGuarded res out =
    (out ≡ (unhandled, res))
    ⊎ ((out.0 ≡ handled) × ((out.1.status ≡ 401) ⊎ (out.1.status ≡ 403) ⊎ (out.1.status ≡ 500)))

judge_user-IsGuarded :
    (j : Json) (r : Result (Option UserSummary)) (res : Response)
    → IsGuarded res (judge_user j r res)
unfolding judge_user write_error write_json IsGuarded
judge_user-IsGuarded j (err e) res = inr (refl, inr (inr refl))
judge_user-IsGuarded j (ok none) res = inr (refl, inl refl)
judge_user-IsGuarded j (ok (some u)) res = elim (Bool-cases (is_admin u.role)) [
  | inl ranked ↦ rw ranked (inl refl)
  | inr plain ↦ rw plain (inr (refl, inr (inl refl)))
]

judge_session-IsGuarded :
    (j : Json) (m : Mysql) (session : Option Bytes) (res : Response) (c : Client m)
    → IsGuarded res (judge_session j m session res c).0
unfolding judge_session write_error write_json IsGuarded
judge_session-IsGuarded j m none res c = inr (refl, inl refl)
judge_session-IsGuarded j m (some id) res c =
    judge_user-IsGuarded j (find_user_by_valid_session_id m id c).0 res

-- Every request is either let through with the response untouched, or stopped with status 401, 403 or
-- 500.
pub check_admin_auth-IsGuarded :
    (j : Json) (m : Mysql) (req : Request) (res : Response) (c : Client m)
    → IsGuarded res (check_admin_auth j m req res c).0
unfolding check_admin_auth IsGuarded
check_admin_auth-IsGuarded j m req res c = elim (Bool-cases (starts_with_admin_path req.path)) [
  | inr elsewhere ↦ rw (elsewhere, if◌then◌else◌) (inl refl)
  | inl below ↦ rw (below, if◌then◌else◌) (judge_session-IsGuarded j m (parse_session_id req) res c)
]
