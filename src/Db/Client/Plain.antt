-- ===== src/Db/Client/Plain.antt =====
-- The statements that a piece of code sends: which they are, and whether they succeed when the code
-- ends without an exception.
use mathlib.Core.List.{append-nil, append_assoc}
use oj_vibe_coding.Base.{
  ◌≡◌, refl, sym, ap, ◌∙◌, Bool, true, false, not, ◌&&◌, Option, none, some, List, [], ◌∷◌, ◌++◌,
  arith, if◌then◌else◌, all,
}
use oj_vibe_coding.Base.Result.{Result, ok, err}
use oj_vibe_coding.Text.{Bytes, bytes, eqb}
use oj_vibe_coding.Base.Effect.{pure, from_result, gets, continue, ◌>>=◌, ◌>>◌}
use oj_vibe_coding.Db.Client.{
  Row, Mysql, Event, leased, refused, returned, sent, Client, Dao, note, send, throw_error, execute,
  stored, fetch, select, escape,
}

-- A statement that neither starts nor ends a transaction.
unfoldable pub is_plain : Bytes → Bool
is_plain sql =
    not (eqb sql (bytes "START TRANSACTION"))
    && not (eqb sql (bytes "COMMIT"))
    && not (eqb sql (bytes "ROLLBACK"))

abbrev pub plain : Event → Bool
plain (sent sql done) = is_plain sql
plain _ = false

abbrev pub succeeded : Event → Bool
succeeded (sent sql done) = done && is_plain sql
succeeded _ = false

-- Only plain statements, all of which succeed unless the code throws.
abbrev pub fits {ℓ} : {A : Type ℓ} → Result A → List Event → Bool
fits (ok a) events = all succeeded events
fits (err e) events = all plain events

abbrev pub Plainly {ℓ} : {A : Type ℓ} → Result A → List Event → Type 0
Plainly r events = fits r events ≡ true

all-append :
    {A : Type 0} (p : A → Bool) (xs ys : List A)
    → all p xs ≡ true
    → all p ys ≡ true
    → all p (xs ++ ys) ≡ true
all-append p [] ys hx hy = hy
all-append p (x ∷ xs) ys hx hy = ground (arith, all-append p xs ys)

plain_of_succeeded : (events : List Event) → all succeeded events ≡ true → all plain events ≡ true
plain_of_succeeded [] h = refl
plain_of_succeeded (sent sql done ∷ events) h = ground (arith, plain_of_succeeded events)
plain_of_succeeded (leased ∷ events) h = cc
plain_of_succeeded (refused ∷ events) h = cc
plain_of_succeeded (returned ∷ events) h = cc

fits-append :
    {A : Type 0} (r : Result A) (xs ys : List Event)
    → all succeeded xs ≡ true
    → fits r ys ≡ true
    → fits r (xs ++ ys) ≡ true
fits-append (ok a) xs ys hx hy = all-append succeeded xs ys hx hy
fits-append (err e) xs ys hx hy = all-append plain xs ys (plain_of_succeeded xs hx) hy

module _ (m : Mysql) where
  -- What happened since `c`, of which `P` holds for the outcome.
  pub record Adds {A : Type 0} (P : Result A → List Event → Type 0) (c : Client m)
      (out : Result A × Client m) : Type 0 where
    pub events : List Event
    pub logged : out.1.log ≡ c.log ++ events
    pub shown : P out.0 events

  unfoldable pub IsPlain : {A : Type 0} → Dao m A → Type 0
  IsPlain step = (c : Client m) → Adds Plainly c (step c)

  nothing : {A : Type 0} (r : Result A) (c : Client m) → Adds Plainly c (r, c)
  nothing (ok a) c = record { events = []; logged = sym (append-nil c.log); shown = refl }
  nothing (err e) c = record { events = []; logged = sym (append-nil c.log); shown = refl }

  continue-Adds :
      {A B : Type 0} (next : A → Dao m B) (c : Client m) (out : Result A × Client m)
      → Adds Plainly c out
      → ((a : A) → IsPlain (next a))
      → Adds Plainly c (continue next out)
  unfolding continue IsPlain
  continue-Adds next c (err e, d) a h = record {
    events = a.events;
    logged = a.logged;
    shown = a.shown;
  }
  continue-Adds next c (ok x, d) a h =
      let b = h x d in
      record {
        events = a.events ++ b.events;
        logged = b.logged ∙ ap (λ l. l ++ b.events) a.logged ∙ append_assoc c.log a.events b.events;
        shown = fits-append (next x d).0 a.events b.events a.shown b.shown;
      }

  pub bind-IsPlain :
      {A B : Type 0} (first : Dao m A) (next : A → Dao m B)
      → IsPlain first
      → ((a : A) → IsPlain (next a))
      → IsPlain (first >>= next)
  unfolding ◌>>=◌ IsPlain
  bind-IsPlain first next h k c = continue-Adds next c (first c) (h c) k

  pub then-IsPlain :
      {B : Type 0} (first : Dao m (Unit {0})) (next : Dao m B)
      → IsPlain first
      → IsPlain next
      → IsPlain (first >> next)
  unfolding ◌>>◌ IsPlain
  then-IsPlain first next h k c = continue-Adds (λ done. next) c (first c) (h c) (λ done. k)

  pub result-IsPlain : {A : Type 0} (r : Result A) → IsPlain (from_result r)
  unfolding IsPlain
  result-IsPlain r c = nothing r c

  sent-Adds :
      (sql context : Bytes) (done : Bool) (server : m.Server) (c : Client m)
      → is_plain sql ≡ true
      → Adds Plainly c (
          (if done then pure tt else throw_error m context)
            (note m (sent sql done) (record c { server = server })))
  unfolding throw_error
  sent-Adds sql context true server c h = record {
    events = sent sql true ∷ [];
    logged = refl;
    shown = ground arith;
  }
  sent-Adds sql context false server c h = record {
    events = sent sql false ∷ [];
    logged = refl;
    shown = ground arith;
  }

  pub execute-IsPlain :
      (sql context : Bytes) → is_plain sql ≡ true → IsPlain (execute m sql context)
  unfolding execute send throw_error ◌>>=◌ continue IsPlain
  execute-IsPlain sql context h c =
      let (done, server) = m.query sql c.server in sent-Adds sql context done server c h

  stored-Adds :
      (context : Bytes) (out : Option (List Row) × m.Server) (c : Client m)
      → Adds Plainly c (stored m context out c)
  unfolding stored throw_error
  stored-Adds context (none, server) c = record {
    events = [];
    logged = sym (append-nil c.log);
    shown = refl;
  }
  stored-Adds context (some rows, server) c = record {
    events = [];
    logged = sym (append-nil c.log);
    shown = refl;
  }

  pub select-IsPlain :
      (sql context store_context : Bytes)
      → is_plain sql ≡ true
      → IsPlain (select m sql context store_context)
  unfolding select fetch IsPlain
  select-IsPlain sql context store_context h =
      then-IsPlain (execute m sql context) (fetch m store_context) (execute-IsPlain sql context h)
        (λ c. stored-Adds store_context (m.store_result c.server) c)

  pub escape-IsPlain : (text : Bytes) → IsPlain (escape m text)
  unfolding escape IsPlain
  escape-IsPlain text c = nothing (ok (m.escape c.server text)) c

  pub gets-IsPlain : {A : Type 0} (read : Client m → A) → IsPlain (gets read)
  unfolding IsPlain
  gets-IsPlain read c = nothing (ok (read c)) c

  pub if-IsPlain :
      {A : Type 0} (t : Bool) (first second : Dao m A)
      → IsPlain first
      → IsPlain second
      → IsPlain (if t then first else second)
  if-IsPlain true first second h k = h
  if-IsPlain false first second h k = k
