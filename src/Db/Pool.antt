-- ===== src/Db/Pool.antt =====
-- backend/src/db/pool.hpp and pool.cpp. A connection is a number, given in the order in which
-- mysql_init makes them. Every critical section under the mutex is one step, and so is the health
-- check between two of them, whose answers from the MySQL client are the argument `Calls`.
pub mod Invariant
pub mod Conserved
pub mod Shrinking
use oj_vibe_coding.Base.{
  ℕ, suc, ◌+◌, ◌-◌, ◌≡◌, Bool, true, false, not, List, [], ◌∷◌, ◌++◌, ltb, if◌then◌else◌, length,
}
use oj_vibe_coding.Base.Result.{other, Result, ok, err}
use oj_vibe_coding.Text.{Bytes, bytes}

-- What the client library answers in one health check: mysql_ping gives 0, mysql_init gives a handle,
-- mysql_real_connect connects, and the text of mysql_error.
pub record Calls : Type 0 where
  pub pings : Bool
  pub initialises : Bool
  pub connects : Bool
  pub error : Bytes

-- `checking` are the connections that are in `ensureHealthy`, `leases` those that leases hold. `made`
-- counts the handles that were ever made, and `closed` are those that mysql_close was called on.
pub record State : Type 0 where
  pub pool_size : ℕ
  pub idle : List ℕ
  pub in_use : ℕ
  pub stopping : Bool
  pub checking : List ℕ
  pub leases : List ℕ
  pub made : ℕ
  pub closed : List ℕ

abbrev pub close : ℕ → State → State
close connection s = record s { closed = connection ∷ s.closed }

-- A failed connect closes the handle that it was tried on.
unfoldable pub create_connection : Calls → State → Result ℕ × State
create_connection calls s =
    if not calls.initialises
    then (err (other (bytes "mysql_init failed")), s)
    else if not calls.connects
    then (
      err (other (bytes "database connection failed: " ++ calls.error)),
      close s.made (record s { made = suc s.made }),
    )
    else (ok s.made, record s { made = suc s.made })

unfoldable pub ensure_healthy : Calls → ℕ → State → Result ℕ × State
ensure_healthy calls connection s =
    if calls.pings then (ok connection, s) else create_connection calls (close connection s)

-- `giveBack`, on a state from whose leases the connection is removed.
unfoldable pub give_back : ℕ → State → State
give_back connection s =
    let less = if ltb 0 s.in_use then s.in_use - 1 else s.in_use in
    if s.stopping
    then record s { in_use = less; closed = connection ∷ s.closed }
    else record s { in_use = less; idle = s.idle ++ (connection ∷ []) }

-- The end of the wait in `acquireFor`: `ready` is the value of its predicate then.
pub acquire_from : List ℕ → State → Result State
acquire_from [] s =
    if s.stopping
    then err (other (bytes "database connection pool is shutting down"))
    else err (other (bytes "timed out acquiring database connection"))
acquire_from (connection ∷ rest) s =
    if s.stopping
    then err (other (bytes "database connection pool is shutting down"))
    else ok (record s { idle = rest; in_use = s.in_use + 1; checking = connection ∷ s.checking })

unfoldable pub acquire : State → Result State
unfolding acquire_from
acquire s = acquire_from s.idle s

-- The rest of `acquireFor`: a healthy connection becomes a lease, an exception gives up the slot.
pub settle : Result ℕ × State → State
settle (ok connection, s) = record s { leases = connection ∷ s.leases }
settle (err e, s) = record s { in_use = s.in_use - 1 }

unfoldable pub finish_acquire : Calls → ℕ → List ℕ → State → State
unfolding settle
finish_acquire calls connection others s =
    settle (ensure_healthy calls connection (record s { checking = others }))

-- The loop of `shutdown`, and of the destructor, closes what is idle from the front.
unfoldable pub close_all : List ℕ → List ℕ → List ℕ
close_all [] closed = closed
close_all (connection ∷ rest) closed = close_all rest (connection ∷ closed)

unfoldable pub shutdown : State → State
unfolding close_all
shutdown s = record s { stopping = true; idle = []; closed = close_all s.idle s.closed }

unfoldable pub capacity : State → ℕ
capacity s = s.pool_size

unfoldable pub idle_count : State → ℕ
idle_count s = length s.idle

unfoldable pub in_use_count : State → ℕ
in_use_count s = s.in_use

-- One round of the constructor's loop, and the rest of it.
unfoldable pub and_then :
    (State → Result (Unit {0}) × State) → Result ℕ × State → Result (Unit {0}) × State
and_then rest (ok connection, t) = rest (record t { idle = t.idle ++ (connection ∷ []) })
and_then rest (err e, t) = (err e, t)

-- The loop of the constructor, with the answers for each connection that is still wanted.
unfoldable pub open_loop : List Calls → State → Result (Unit {0}) × State
unfolding and_then
open_loop [] s = (ok tt, s)
open_loop (calls ∷ rest) s = and_then (open_loop rest) (create_connection calls s)

-- The state before any connection is made.
abbrev pub fresh : List Calls → State
fresh wanted = record {
  pool_size = length wanted;
  idle = [];
  in_use = 0;
  stopping = false;
  checking = [];
  leases = [];
  made = 0;
  closed = [];
}

-- An exception of the constructor's loop destroys the state, which closes what was made.
unfoldable pub ended : Result (Unit {0}) × State → Result (Unit {0}) × State
unfolding close_all
ended (ok u, t) = (ok u, t)
ended (err e, t) = (err e, record t { idle = []; closed = close_all t.idle t.closed })

-- The constructor of the pool; `wanted` has an entry for each of the `pool_size` connections.
unfoldable pub make_pool : Bool → List Calls → Result (Unit {0}) × State
unfolding open_loop ended
make_pool library_starts wanted =
    if not library_starts
    then (err (other (bytes "mysql client library initialization failed")), fresh wanted)
    else ended (open_loop wanted (fresh wanted))

-- One step of some thread.
pub data Step (s : State) (t : State) : Type 0 where
  acquires : acquire s ≡ ok t → Step s t
  settles :
      (xs : List ℕ) (connection : ℕ) (ys : List ℕ) (calls : Calls)
      → s.checking ≡ xs ++ (connection ∷ ys)
      → t ≡ finish_acquire calls connection (xs ++ ys) s
      → Step s t
  gives_back :
      (xs : List ℕ) (connection : ℕ) (ys : List ℕ)
      → s.leases ≡ xs ++ (connection ∷ ys)
      → t ≡ give_back connection (record s { leases = xs ++ ys })
      → Step s t
  shuts_down : t ≡ shutdown s → Step s t

-- The states behind a given one.
pub data Reach (s : State) : State → Type 0 where
  here : Reach s s
  step : {t u : State} → Reach s t → Step t u → Reach s u
