-- ===== src/Http/Handlers.antt =====
-- What the handlers under backend/src/http share.
pub mod Auth
pub mod Public
pub mod Admin
pub mod Tests
use oj_vibe_coding.Http.Message.{Request, Response, Json}
use oj_vibe_coding.Http.Cookie.{write_error}
use oj_vibe_coding.Config.Numbers.{stoull}
use oj_vibe_coding.Base.Effect.{pure}
use oj_vibe_coding.Db.Client.{Mysql, Dao}
use oj_vibe_coding.Base.{
  ℕ, ◌+◌, not, Option, none, some, ◌++◌, ◌==◌, if◌then◌else◌, length, is_empty,
}
use oj_vibe_coding.Base.Result.{Exception, invalid_argument, what, ok, err}
use oj_vibe_coding.Text.{Bytes}

-- A handler gives the response, or an exception that it does not catch.
abbrev pub Handler : Mysql → Type 0
Handler m = Request → Response → Dao m Response

-- The number of a path, which all of the text must be; what stoull throws is caught.
unfoldable pub parse_problem_id : Request → Option ℕ
parse_problem_id req = if is_empty req.id_param then none else elim (stoull req.id_param) [
  | err e ↦ none
  | ok parsed ↦ if not (parsed.1 == length req.id_param) then none else some parsed.0
]

-- `catch (const std::exception& error) { writeError(res, 500, context + error.what()); }`
unfoldable pub failed : Json → (m : Mysql) → Bytes → Response → Exception → Dao m Response
failed j m context res e = pure (write_error j 500 (context ++ what e) res)

-- `catch (const std::invalid_argument& error)` with 400 in front of it.
unfoldable pub rejected : Json → (m : Mysql) → Bytes → Response → Exception → Dao m Response
unfolding failed
rejected j m context res (invalid_argument message) = pure (write_error j 400 message res)
rejected j m context res e = failed j m context res e

-- A lone `catch (const std::invalid_argument& error)` with 400: other exceptions go on.
unfoldable pub refused_input : Json → (m : Mysql) → Response → Exception → Dao m Response
refused_input j m res (invalid_argument message) c = (ok (write_error j 400 message res), c)
refused_input j m res e c = (err e, c)
