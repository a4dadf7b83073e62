-- ===== src/Db/SeedLoader/Loss.antt =====
-- What backend/src/db/seed_loader.cpp has done to the database when the seed file is of no use.
use oj_vibe_coding.Base.{
  ◌≡◌, refl, sym, ap, ◌∙◌, inl, inr, Bool, true, false, none, List, [], ◌∷◌, ◌++◌, if◌then◌else◌,
}
use oj_vibe_coding.Base.Result.{other, Result, ok, err}
use oj_vibe_coding.Text.{Bytes, bytes}
use oj_vibe_coding.Base.Effect.{pure, continue, ◌>>=◌, ◌>>◌}
use oj_vibe_coding.Db.Client.{
  Mysql, Event, leased, returned, sent, Client, Dao, note, send, throw_error, execute, give_back,
  with_lease, using_lease,
}
use oj_vibe_coding.Base.Result.{other, Result, ok, err}
use oj_vibe_coding.Base.Effect.{pure, continue, ◌>>=◌, ◌>>◌}
use oj_vibe_coding.Db.Client.{
  Mysql, Event, leased, returned, sent, Client, Dao, note, send, throw_error, execute, give_back,
  with_lease, using_lease,
}
use oj_vibe_coding.Db.SeedLoader.{
  Files, read_file_to_string, clear_statements, reset_ai, execute_all, clear_problem_bank,
  load_problems_from_json, reset_problem_bank,
}
use oj_vibe_coding.Http.Message.{Json}
use oj_vibe_coding.Db.Client.Lookup.{Result-cases}
use oj_vibe_coding.Db.Problems.Transactions.{append_between}
use mathlib.Core.List.{append_assoc, append-nil}
use oj_vibe_coding.Base.Result.{other, Result, ok, err}
use oj_vibe_coding.Base.Effect.{pure, continue, ◌>>=◌, ◌>>◌}
use oj_vibe_coding.Db.Client.{
  Mysql, Event, leased, returned, sent, Client, Dao, note, send, throw_error, execute, give_back,
  with_lease, using_lease,
}

-- The events of statements that succeed.
abbrev pub all_sent : List Bytes → List Event
all_sent [] = []
all_sent (sql ∷ rest) = sent sql true ∷ all_sent rest

module _ (m : Mysql) where
  ran-sent :
      (sql context : Bytes) (done : Bool) (server : m.Server) (c d : Client m)
      → let step : Dao m (Unit {0}) = if done then pure tt else throw_error m context in
        step (note m (sent sql done) (record c { server = server })) ≡ (ok tt, d)
        → d.log ≡ c.log ++ (sent sql true ∷ [])
  unfolding throw_error
  ran-sent sql context true server c d e = ap (λ x. x.1.log) (sym e)
  ran-sent sql context false server c d e = cc (ap (λ x. x.0) e)

  execute-sent :
      (sql context : Bytes) (c d : Client m)
      → execute m sql context c ≡ (ok tt, d)
      → d.log ≡ c.log ++ (sent sql true ∷ [])
  unfolding execute send ◌>>=◌ continue
  execute-sent sql context c d e =
      let (done, server) = m.query sql c.server in ran-sent sql context done server c d e

  execute_all-sent :
      (context : Bytes) (sqls : List Bytes) (c d : Client m)
      → execute_all m context sqls c ≡ (ok tt, d)
      → d.log ≡ c.log ++ all_sent sqls
  unfolding execute_all ◌>>◌ continue
  execute_all-sent context [] c d e = ap (λ x. x.1.log) (sym e) ∙ sym (append-nil c.log)
  execute_all-sent context (sql ∷ rest) c d e = elim (Result-cases (execute m sql context c)) [
    | inr (c', x, broken) ↦ cc (ap (λ y. y.0) (rw broken at e))
    | inl (c', u, done) ↦
        execute_all-sent context rest c' d (rw done at e)
        ∙ ap (λ l. l ++ all_sent rest) (execute-sent sql context c c' done)
        ∙ append_assoc c.log (sent sql true ∷ []) (all_sent rest)
  ]

  -- The two loops of `clearProblemBank`.
  loops-sent :
      (context context' : Bytes) (sqls sqls' : List Bytes) (c d : Client m)
      → (execute_all m context sqls >> execute_all m context' sqls') c ≡ (ok tt, d)
      → d.log ≡ c.log ++ (all_sent sqls ++ all_sent sqls')
  unfolding ◌>>◌ continue
  loops-sent context context' sqls sqls' c d e =
      elim (Result-cases (execute_all m context sqls c)) [
        | inr (c', x, broken) ↦ cc (ap (λ y. y.0) (rw broken at e))
        | inl (c', u, done) ↦
            execute_all-sent context' sqls' c' d (rw done at e)
            ∙ ap (λ l. l ++ all_sent sqls') (execute_all-sent context sqls c c' done)
            ∙ append_assoc c.log (all_sent sqls) (all_sent sqls')
      ]

  give_back-sent :
      (out : Result (Unit {0}) × Client m) (d : Client m)
      → give_back m out ≡ (ok tt, d)
      → (c : Client m) × (out ≡ (ok tt, c)) × (d.log ≡ c.log ++ (returned ∷ []))
  unfolding give_back
  give_back-sent (err e, c) d h = cc (ap (λ x. x.0) h)
  give_back-sent (ok u, c) d h = (c, refl, ap (λ x. x.1.log) (sym h))

  clear_problem_bank-sent :
      (c d : Client m)
      → clear_problem_bank m c ≡ (ok tt, d)
      → d.log
        ≡ c.log ++ (leased ∷ (all_sent clear_statements ++ all_sent reset_ai) ++ (returned ∷ []))
  unfolding clear_problem_bank using_lease with_lease
  clear_problem_bank-sent c d e = elim (Result-cases (m.acquire c.server)) [
    | inr (s, x, denied) ↦ cc (ap (λ y. y.0) (rw denied at e))
    | inl (s, u, lent) ↦
        let (c', cleared, given_back) = give_back-sent _ d (rw lent at e) in
        given_back
        ∙ append_between c.log leased (all_sent clear_statements ++ all_sent reset_ai)
            (returned ∷ []) (loops-sent _ _ _ _ _ c' cleared)
  ]

  -- When the seed file cannot be opened, and the tables can be cleared, a reset of the problem bank fails
  -- after it has deleted every problem, test case and tag, on one connection and in no transaction.
  pub reset_problem_bank-loses :
      (j : Json) (files : Files) (path : Bytes) (c d : Client m)
      → files path ≡ none
      → clear_problem_bank m c ≡ (ok tt, d)
      → (reset_problem_bank m j files path c
          ≡ (err (other (bytes "failed to open seed file: " ++ path)), d))
        × (d.log
            ≡ c.log
              ++ (leased ∷ (all_sent clear_statements ++ all_sent reset_ai) ++ (returned ∷ [])))
  unfolding reset_problem_bank load_problems_from_json read_file_to_string ◌>>◌ ◌>>=◌ continue
  reset_problem_bank-loses j files path c d missing cleared = (
    rw (cleared, load_problems_from_json, read_file_to_string, missing) refl,
    clear_problem_bank-sent c d cleared,
  )
