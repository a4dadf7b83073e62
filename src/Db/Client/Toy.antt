-- ===== src/Db/Client/Toy.antt =====
-- Stand-ins for the MySQL server: every statement is answered from a list of answers, in order.
use oj_vibe_coding.Base.{Bool, true, false, some, List, [], ◌∷◌}
use oj_vibe_coding.Base.Result.{ok}
use oj_vibe_coding.Text.{bytes}
use oj_vibe_coding.Db.Client.{Row, Mysql, Client}

-- The answer to one statement: whether it succeeds, and the rows that it gives.
pub record Answer : Type 0 where
  pub succeeds : Bool
  pub rows : List Row

-- The answers that are left, and the rows of the last statement.
pub record Script : Type 0 where
  pub answers : List Answer
  pub last : List Row

abbrev answer_from : List Answer → Bool × Script
answer_from [] = (false, record { answers = []; last = [] })
answer_from (a ∷ answers) = (a.succeeds, record { answers = answers; last = a.rows })

abbrev pub scripted : Mysql
scripted = record {
  Server = Script;
  acquire = λ s. (ok tt, s);
  query = λ sql s. answer_from s.answers;
  store_result = λ s. (some s.last, s);
  insert_id = λ s. 7;
  affected_rows = λ s. 1;
  errno = λ s. 1062;
  error = λ s. bytes "no";
  escape = λ s text. text;
  now = λ s. 1_000;
  utc_text = λ t. [];
}

abbrev pub answering : List Answer → Client scripted
answering answers = record { server = record { answers = answers; last = [] }; log = [] }

abbrev pub done : Answer
done = record { succeeds = true; rows = [] }

abbrev pub gives : Row → Answer
gives row = record { succeeds = true; rows = row ∷ [] }
