-- ===== src/Db/Problems/Transactions.antt =====
-- What a transaction of backend/src/db/problem_dao.cpp sends, and what happens to its connection.
use mathlib.Core.List.{append_assoc}
use oj_vibe_coding.Db.Client.Plain.{plain, succeeded, Adds, IsPlain, Plainly}
use oj_vibe_coding.Db.Problems.{roll_back, start_transaction, commit, in_transaction}
use oj_vibe_coding.Base.{
  ◌≡◌, refl, ap, ◌∙◌, Bool, true, false, List, [], ◌∷◌, ◌++◌, if◌then◌else◌, all,
}
use oj_vibe_coding.Base.Result.{Exception, Result, ok, err}
use oj_vibe_coding.Text.{bytes}
use oj_vibe_coding.Base.Effect.{pure, continue, ◌>>=◌, ◌>>◌, resume, attempt}
use oj_vibe_coding.Db.Client.{
  Mysql, Event, leased, refused, returned, sent, Client, Dao, note, send, throw_error, execute,
  give_back, with_lease, using_lease,
}

-- The statements of a transaction: it does not start, or what it sends is rolled back, or all of it
-- succeeds and is committed.
pub data Transacts {A : Type 0} : Result A → List Event → Type 0 where
  not_started : {e : Exception} → Transacts (err e) (sent (bytes "START TRANSACTION") false ∷ [])
  rolled_back :
      {e : Exception} (body : List Event) (done : Bool)
      → all plain body ≡ true
      → Transacts
          (err e)
          (sent (bytes "START TRANSACTION") true ∷ body ++ (sent (bytes "ROLLBACK") done ∷ []))
  commit_failed :
      {e : Exception} (body : List Event) (done : Bool)
      → all succeeded body ≡ true
      → Transacts (err e) (
          sent (bytes "START TRANSACTION") true ∷ body
          ++ (sent (bytes "COMMIT") false ∷ sent (bytes "ROLLBACK") done ∷ []))
  committed :
      {a : A} (body : List Event)
      → all succeeded body ≡ true
      → Transacts
          (ok a)
          (sent (bytes "START TRANSACTION") true ∷ body ++ (sent (bytes "COMMIT") true ∷ []))

-- A connection is refused, or lent and given back after what `P` says.
pub data Lends {A : Type 0} (P : Result A → List Event → Type 0)
    : Result A → List Event → Type 0 where
  denied : {e : Exception} → Lends P (err e) (refused ∷ [])
  lent :
      {r : Result A} (events : List Event)
      → P r events
      → Lends P r (leased ∷ events ++ (returned ∷ []))

pub append_between :
    (before : List Event) (first : Event) (middle after : List Event) {all_of : List Event}
    → all_of ≡ (before ++ (first ∷ [])) ++ middle
    → all_of ++ after ≡ before ++ (first ∷ middle ++ after)
append_between before first middle after e =
    ap (λ l. l ++ after) e
    ∙ append_assoc (before ++ (first ∷ [])) middle after
    ∙ append_assoc before (first ∷ []) (middle ++ after)

module _ (m : Mysql) {A : Type 0} where
  commit-Adds :
      (a : A) (body : List Event) (c d : Client m) (done : Bool) (server : m.Server)
      → d.log ≡ (c.log ++ (sent (bytes "START TRANSACTION") true ∷ [])) ++ body
      → all succeeded body ≡ true
      → Adds m Transacts c (
          resume
            (roll_back m)
            (λ (x : Unit {0}). pure a)
            ((if done then pure tt else throw_error m (bytes "commit failed: "))
              (note m (sent (bytes "COMMIT") done) (record d { server = server }))))
  unfolding throw_error roll_back send ◌>>=◌ continue resume
  commit-Adds a body c d true server e h = record {
    events = sent (bytes "START TRANSACTION") true ∷ body ++ (sent (bytes "COMMIT") true ∷ []);
    logged = append_between c.log _ body _ e;
    shown = committed body h;
  }
  commit-Adds a body c d false server e h =
      let done = (m.query (bytes "ROLLBACK") server).0 in
      record {
        events =
            sent (bytes "START TRANSACTION") true ∷ body
            ++ (sent (bytes "COMMIT") false ∷ sent (bytes "ROLLBACK") done ∷ []);
        logged =
            append_assoc d.log (sent (bytes "COMMIT") false ∷ []) _
            ∙ append_between c.log _ body _ e;
        shown = commit_failed body done h;
      }

  body-Adds :
      (c d : Client m) (out : Result A × Client m)
      → d.log ≡ c.log ++ (sent (bytes "START TRANSACTION") true ∷ [])
      → Adds m Plainly d out
      → Adds m Transacts c (
          resume
            (roll_back m)
            (λ a. attempt (commit m) (roll_back m) (λ (done : Unit {0}). pure a))
            out)
  unfolding roll_back commit execute send attempt resume ◌>>=◌ continue
  body-Adds c d (err e, d') start a =
      let done = (m.query (bytes "ROLLBACK") d'.server).0 in
      record {
        events =
            sent (bytes "START TRANSACTION") true ∷ a.events ++ (sent (bytes "ROLLBACK") done ∷ []);
        logged = append_between c.log _ a.events _ (a.logged ∙ ap (λ l. l ++ a.events) start);
        shown = rolled_back a.events done a.shown;
      }
  body-Adds c d (ok a', d') start a =
      let (done, server) = m.query (bytes "COMMIT") d'.server in
      commit-Adds a' a.events c d' done server (a.logged ∙ ap (λ l. l ++ a.events) start) a.shown

  started-Adds :
      (body : Dao m A) (c : Client m) (done : Bool) (server : m.Server)
      → IsPlain m body
      → Adds m Transacts c (
          continue
            (λ (x : Unit {0}).
              attempt body
                (roll_back m)
                (λ a. attempt (commit m) (roll_back m) (λ (y : Unit {0}). pure a)))
            ((if done then pure tt else throw_error m (bytes "transaction start failed: "))
              (note m (sent (bytes "START TRANSACTION") done) (record c { server = server }))))
  unfolding continue attempt throw_error IsPlain
  started-Adds body c true server h =
      let d = note m (sent (bytes "START TRANSACTION") true) (record c { server = server }) in
      body-Adds c d (body d) refl (h d)
  started-Adds body c false server h = record {
    events = sent (bytes "START TRANSACTION") false ∷ [];
    logged = refl;
    shown = not_started;
  }

  pub in_transaction-Transacts :
      (body : Dao m A)
      → IsPlain m body
      → (c : Client m) → Adds m Transacts c (in_transaction m body c)
  unfolding in_transaction start_transaction execute send ◌>>◌ ◌>>=◌ continue
  in_transaction-Transacts body h c =
      let (done, server) = m.query (bytes "START TRANSACTION") c.server in
      started-Adds body c done server h

  module _ (P : Result A → List Event → Type 0) where
    lease-Adds :
        (body : Dao m A) (out : Result (Unit {0}) × m.Server) (c : Client m)
        → ((d : Client m) → d.server ≡ out.1 → Adds m P d (body d))
        → Adds m (Lends P) c (with_lease m body out c)
    unfolding with_lease give_back
    lease-Adds body (err e, server) c h = record {
      events = refused ∷ [];
      logged = refl;
      shown = denied;
    }
    lease-Adds body (ok u, server) c h =
        let a = h (note m leased (record c { server = server })) refl in
        record {
          events = leased ∷ a.events ++ (returned ∷ []);
          logged = append_between c.log leased a.events (returned ∷ []) a.logged;
          shown = lent a.events a.shown;
        }

    -- The body starts with the server as it is behind `acquire`.
    pub using_lease-Lends_from :
        (body : Dao m A) (c : Client m)
        → ((d : Client m) → d.server ≡ (m.acquire c.server).1 → Adds m P d (body d))
        → Adds m (Lends P) c (using_lease m body c)
    unfolding using_lease
    using_lease-Lends_from body c h = lease-Adds body (m.acquire c.server) c h

    pub using_lease-Lends :
        (body : Dao m A)
        → ((d : Client m) → Adds m P d (body d))
        → (c : Client m) → Adds m (Lends P) c (using_lease m body c)
    using_lease-Lends body h c = using_lease-Lends_from body c (λ d e. h d)
