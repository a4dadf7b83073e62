-- ===== src/Db/Client.antt =====
-- The MySQL client library as the data access objects under backend/src/db use it, through one
-- connection that the pool lends. The library and the server are outside the repository's code.
pub mod Lookup
pub mod Plain
pub mod Toy
use oj_vibe_coding.Base.Effect.{Effect, pure, ◌>>=◌, ◌>>◌}
use oj_vibe_coding.Base.{
  ℕ, ◌+◌, Bool, Option, none, some, List, [], ◌∷◌, ◌++◌, if◌then◌else◌, get_or,
}
use oj_vibe_coding.Base.Result.{other, Result, ok, err}
use oj_vibe_coding.Text.{Bytes}

-- The values of one row; NULL is `none`.
abbrev pub Row : Type 0
Row = List (Option Bytes)

-- `acquire` is the pool's, which throws when no connection is to be had. `query` tells whether
-- mysql_query gives 0, `store_result` the rows, or `none` for a null pointer. `escape` is
-- mysql_real_escape_string. `now` is the system clock in seconds, `utc_text` is gmtime_r with strftime.
pub record Mysql : Type 1 where
  pub Server : Type 0
  pub acquire : Server → Result (Unit {0}) × Server
  pub query : Bytes → Server → Bool × Server
  pub store_result : Server → Option (List Row) × Server
  pub insert_id : Server → ℕ
  pub affected_rows : Server → ℕ
  pub errno : Server → ℕ
  pub error : Server → Bytes
  pub escape : Server → Bytes → Bytes
  pub now : Server → ℕ
  pub utc_text : ℕ → Bytes

-- What is seen from outside: a connection is lent or refused, a statement is sent and succeeds or not,
-- and the connection is given back.
pub data Event : Type 0 where
  leased refused returned : Event
  sent : Bytes → Bool → Event

-- `column`: NULL is read as an empty string.
unfoldable pub column : Row → ℕ → Bytes
column row index = text (get_or row index none)
  where
    text : Option Bytes → Bytes
    text none = []
    text (some s) = s

module _ (m : Mysql) where
  -- The server, and the events so far, which no code reads.
  pub record Client : Type 0 where
    pub server : m.Server
    pub log : List Event

  abbrev pub Dao : Type 0 → Type 0
  Dao A = Effect Client A

  abbrev pub note : Event → Client → Client
  note event c = record c { log = c.log ++ (event ∷ []) }

  -- `mysql_query(connection, sql.c_str()) == 0`
  unfoldable pub send : Bytes → Dao Bool
  send sql c =
      let (done, server') = m.query sql c.server in
      (ok done, note (sent sql done) (record c { server = server' }))

  -- `throw std::runtime_error(context + mysql_error(connection));`
  unfoldable pub throw_error {ℓ} : {A : Type ℓ} → Bytes → Effect Client A
  throw_error context c = (err (other (context ++ m.error c.server)), c)

  -- `if (mysql_query(...) != 0) throw ...`
  unfoldable pub execute : Bytes → Bytes → Dao (Unit {0})
  execute sql context = do done ← send sql; if done then pure tt else throw_error context

  unfoldable pub stored : Bytes → Option (List Row) × m.Server → Client → Result (List Row) × Client
  stored context (none, server') c = throw_error context (record c { server = server' })
  stored context (some rows, server') c = (ok rows, record c { server = server' })

  unfoldable pub fetch : Bytes → Dao (List Row)
  fetch context c = stored context (m.store_result c.server) c

  -- A query, whose result is fetched, with the texts of its two exceptions.
  unfoldable pub select : Bytes → Bytes → Bytes → Dao (List Row)
  select sql context store_context = do execute sql context; fetch store_context

  unfoldable pub escape : Bytes → Dao Bytes
  escape text c = (ok (m.escape c.server text), c)

  unfoldable pub give_back {ℓ} : {A : Type ℓ} → Result A × Client → Result A × Client
  give_back (r, c) = (r, note returned c)

  unfoldable pub with_lease {ℓ} :
      {A : Type ℓ} → Effect Client A → Result (Unit {0}) × m.Server → Client → Result A × Client
  with_lease body (err e, server') c = (err e, note refused (record c { server = server' }))
  with_lease body (ok done, server') c =
      give_back (body (note leased (record c { server = server' })))

  -- `auto lease = pool.acquire();`: the destructor gives the connection back, however the rest ends.
  unfoldable pub using_lease {ℓ} : {A : Type ℓ} → Effect Client A → Effect Client A
  using_lease body c = with_lease body (m.acquire c.server) c
