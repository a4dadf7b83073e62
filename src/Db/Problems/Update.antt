-- ===== src/Db/Problems/Update.antt =====
-- How `updateProblem` of backend/src/db/problem_dao.cpp ends.
use mathlib.Core.List.{append_assoc}
use oj_vibe_coding.Db.Client.Plain.{Adds}
use oj_vibe_coding.Db.Problems.{
  roll_back, commit, start_transaction, in_transaction, change_problem, problem_exists,
  update_problem,
}
use oj_vibe_coding.Db.Problems.Statements.{exists_select}
use oj_vibe_coding.Db.Problems.Transactions.{
  Transacts, Lends, in_transaction-Transacts, using_lease-Lends_from,
}
use oj_vibe_coding.Db.Problems.Atomic.{change_problem-IsPlain}
use oj_vibe_coding.Http.Requests.{ProblemInput}
use oj_vibe_coding.Base.{
  ℕ, ◌≡◌, refl, ap, ◌∙◌, subst, ◌≢◌, Bool, true, false, not, Option, none, some, List, [], ◌∷◌,
  ◌++◌, if◌then◌else◌, is_empty,
}
use oj_vibe_coding.Base.Result.{Exception, Result, ok, err}
use oj_vibe_coding.Text.{bytes}
use oj_vibe_coding.Base.Effect.{pure, continue, ◌>>=◌, ◌>>◌, resume, attempt}
use oj_vibe_coding.Db.Client.{
  Row, Mysql, Event, sent, Client, Dao, note, send, throw_error, execute, stored, fetch, select,
}

-- Whether the rows of the look-up are there, and whether there is one.
abbrev pub has_row : {S : Type 0} → Option (List Row) × S → Option Bool
has_row (none, server) = none
has_row (some [], server) = some false
has_row (some (row ∷ rest), server) = some true

abbrev pub row_behind : (m : Mysql) → Bool × m.Server → Option Bool
row_behind m (false, server) = none
row_behind m (true, server) = has_row (m.store_result server)

-- What the look-up of a problem answers on this server: `none` if it fails, else whether the problem is
-- there.
abbrev pub is_there : (m : Mysql) → ℕ → m.Server → Option Bool
is_there m id server = row_behind m (m.query (exists_select id) server)

-- The statements of `updateProblem`, by the answer of its look-up: nothing follows if the problem is not
-- there or the look-up fails; a transaction follows if the problem is there.
pub data Checks (id : ℕ) : Option Bool → Result Bool → List Event → Type 0 where
  unknown : {done : Bool} → Checks id (some false) (ok false) (sent (exists_select id) done ∷ [])
  unchecked :
      {e : Exception} {done : Bool} → Checks id none (err e) (sent (exists_select id) done ∷ [])
  changed :
      {r : Result Bool} (events : List Event)
      → r ≢ ok false
      → Transacts r events
      → Checks id (some true) r (sent (exists_select id) true ∷ events)

module _ (m : Mysql) where
  -- It never returns `false`.
  unfoldable IsTrue : Dao m Bool → Type 0
  IsTrue step = (c : Client m) → (step c).0 ≢ ok false

  continue-IsTrue :
      {A : Type 0} (next : A → Dao m Bool) (out : Result A × Client m)
      → ((a : A) → IsTrue (next a))
      → (continue next out).0 ≢ ok false
  unfolding continue IsTrue
  continue-IsTrue next (err e, c) h = cc
  continue-IsTrue next (ok a, c) h = h a c

  bind-IsTrue :
      {A : Type 0} (first : Dao m A) (next : A → Dao m Bool)
      → ((a : A) → IsTrue (next a))
      → IsTrue (first >>= next)
  unfolding ◌>>=◌ IsTrue
  bind-IsTrue first next h c = continue-IsTrue next (first c) h

  then-IsTrue :
      (first : Dao m (Unit {0})) (next : Dao m Bool) → IsTrue next → IsTrue (first >> next)
  unfolding ◌>>◌ IsTrue
  then-IsTrue first next h c = continue-IsTrue (λ done. next) (first c) (λ done. h)

  pure-IsTrue : IsTrue (pure true)
  unfolding IsTrue
  pure-IsTrue c = cc

  change_problem-IsTrue : (id : ℕ) (input : ProblemInput) → IsTrue (change_problem m id input)
  unfolding change_problem
  change_problem-IsTrue id input = search (bind-IsTrue, then-IsTrue, pure-IsTrue)

  committed-IsTrue :
      (a : Bool) (out : Result (Unit {0}) × Client m)
      → ok a ≢ ok false
      → (resume (roll_back m) (λ (done : Unit {0}). pure a) out).0 ≢ ok false
  unfolding resume roll_back ◌>>=◌ send continue
  committed-IsTrue a (err e, c) h = cc
  committed-IsTrue a (ok done, c) h = h

  finished-IsTrue :
      (out : Result Bool × Client m)
      → out.0 ≢ ok false
      → (resume
          (roll_back m)
          (λ a. attempt (commit m) (roll_back m) (λ (done : Unit {0}). pure a))
          out).0
        ≢ ok false
  unfolding resume roll_back ◌>>=◌ send continue attempt
  finished-IsTrue (err e, c) h = cc
  finished-IsTrue (ok a, c) h = committed-IsTrue a (commit m c) h

  in_transaction-IsTrue : (body : Dao m Bool) → IsTrue body → IsTrue (in_transaction m body)
  unfolding in_transaction attempt IsTrue
  in_transaction-IsTrue body h =
      then-IsTrue (start_transaction m) _ (λ c. finished-IsTrue (body c) (h c))

  -- From the answer to the query of `problemExists` on.
  checked-Adds :
      (id : ℕ) (input : ProblemInput) (c d : Client m) (rows : Option (List Row))
      (server : m.Server)
      → d.log ≡ c.log ++ (sent (exists_select id) true ∷ [])
      → Adds m (Checks id (has_row (rows, server))) c (
          continue
            (λ found.
              if not found then pure false else in_transaction m (change_problem m id input))
            (continue
              (λ rows. pure (not (is_empty rows)))
              (stored m (bytes "existence store failed: ") (rows, server) d)))
  unfolding continue stored throw_error IsTrue
  checked-Adds id input c d none server e = record {
    events = sent (exists_select id) true ∷ [];
    logged = e;
    shown = unchecked;
  }
  checked-Adds id input c d (some []) server e = record {
    events = sent (exists_select id) true ∷ [];
    logged = e;
    shown = unknown;
  }
  checked-Adds id input c d (some (row ∷ rest)) server e =
      let body = change_problem m id input in
      let d' = record d { server = server } in
      let a = in_transaction-Transacts m body (change_problem-IsPlain m id input) d' in
      record {
        events = sent (exists_select id) true ∷ a.events;
        logged =
            a.logged
            ∙ ap (λ l. l ++ a.events) e
            ∙ append_assoc c.log (sent (exists_select id) true ∷ []) a.events;
        shown =
            changed a.events (in_transaction-IsTrue body (change_problem-IsTrue id input) d')
              a.shown;
      }

  asked-Adds :
      (id : ℕ) (input : ProblemInput) (c : Client m) (done : Bool) (server : m.Server)
      → Adds m (Checks id (row_behind m (done, server))) c (
          continue
            (λ found.
              if not found then pure false else in_transaction m (change_problem m id input))
            (continue
              (λ rows. pure (not (is_empty rows)))
              (continue
                (λ (done : Unit {0}). fetch m (bytes "existence store failed: "))
                ((if done then pure tt else throw_error m (bytes "existence check failed: "))
                  (note m (sent (exists_select id) done) (record c { server = server }))))))
  unfolding continue throw_error fetch
  asked-Adds id input c true server =
      let (rows, after) = m.store_result server in checked-Adds id input c _ rows after refl
  asked-Adds id input c false server = record {
    events = sent (exists_select id) false ∷ [];
    logged = refl;
    shown = unchecked;
  }

-- `updateProblem` on the connection that it is lent.
abbrev updating : (m : Mysql) → ℕ → ProblemInput → Dao m Bool
updating m id input = do
  found ← problem_exists m id
  if not found then pure false else in_transaction m (change_problem m id input)

updating-Adds :
    (m : Mysql) (id : ℕ) (input : ProblemInput) (d : Client m)
    → Adds m (Checks id (is_there m id d.server)) d (updating m id input d)
unfolding problem_exists select execute send ◌>>=◌ ◌>>◌ continue
updating-Adds m id input d =
    let (done, server) = m.query (exists_select id) d.server in asked-Adds m id input d done server

-- Updating a problem either is refused a connection and sends nothing, or first looks the problem up on
-- a connection that it gives back. If the look-up shows that the problem is not there, `false` is
-- returned and nothing else is sent; if the look-up fails, an exception is thrown and nothing else is
-- sent; if the problem is there, one transaction follows, which is committed with all of its statements
-- successful if no exception ends it, and `false` is not returned.
pub update_problem-Checks :
    (m : Mysql) (id : ℕ) (input : ProblemInput) (c : Client m)
    → Adds m
        (Lends (Checks id (is_there m id (m.acquire c.server).1)))
        c
        (update_problem m id input c)
unfolding update_problem
update_problem-Checks m id input c =
    using_lease-Lends_from m (Checks id (is_there m id (m.acquire c.server).1))
      (updating m id input) c
      λ d same.
        subst (λ s. Adds m (Checks id (is_there m id s)) d (updating m id input d)) same
          (updating-Adds m id input d)
