-- ===== src/Http/Handlers/Admin/Creating.antt =====
-- What `createProblemHandler` of backend/src/http/handlers_admin.cpp stores.
use oj_vibe_coding.Http.Message.{Request, Response, Json}
use oj_vibe_coding.Http.Cookie.{write_json}
use oj_vibe_coding.Http.Dto.{with_fields}
use oj_vibe_coding.Http.Requests.{ProblemInput, parse_json_body, parse_problem_input}
use oj_vibe_coding.Http.Requests.Checked.{IsBounded, parse_problem_input-IsBounded}
use oj_vibe_coding.Http.Handlers.{rejected}
use oj_vibe_coding.Http.Handlers.Admin.{create_problem_handler}
use oj_vibe_coding.Http.Handlers.Auth.Starting.{result-cases, write_error-status, failed-status}
use oj_vibe_coding.Db.Problems.{create_problem}
use oj_vibe_coding.Db.Problems.Transactions.{Transacts, Lends}
use oj_vibe_coding.Db.Problems.Atomic.{create_problem-Transacts}
use oj_vibe_coding.Db.Client.Plain.{Adds}
use oj_vibe_coding.Db.Client.Lookup.{Result-cases}
use oj_vibe_coding.Base.Result.{ok-injective}
use oj_vibe_coding.Base.{ℕ, ◌≡◌, refl, sym, ap, ◌∙◌, subst, ◌≢◌, ◌↔◌, inl, inr, [], ◌∷◌, arith}
use oj_vibe_coding.Base.Result.{Exception, invalid_argument, username_exists, other, ok}
use oj_vibe_coding.Text.{Bytes, bytes}
use oj_vibe_coding.Base.Effect.{continue, ◌>>=◌, resume, attempt}
use oj_vibe_coding.Db.Client.{Mysql, Client}

module _ (j : Json) (m : Mysql) (req : Request) (res : Response) (c : Client m) where
  open j use {Value, object_value, uint_value}

  -- The body is a problem within the parser's bounds, it is stored by one transaction, and the answer has
  -- its id.
  pub record IsCreated (r : Response) : Type 0 where
    pub body : Value
    pub input : ProblemInput
    pub id : ℕ
    pub c' : Client m
    pub read : parse_json_body j req.body ≡ ok body
    pub parsed : parse_problem_input j body ≡ ok input
    pub bounded : IsBounded j input
    pub created : create_problem m input c ≡ (ok id, c')
    pub sent : Adds m (Lends Transacts) c (ok id, c')
    pub answered :
        r ≡ write_json j 201 (with_fields j object_value ((bytes "id", uint_value id) ∷ [])) res

  rejected-status :
      (context : Bytes) (e : Exception) (d : Client m) (r : Response)
      → (rejected j m context res e d).0 ≡ ok r
      → r.status ≢ 201
  unfolding rejected
  rejected-status context (invalid_argument message) d r h s = absurd (
      omega (
        arith,
        s,
        ap (λ x. x.status) (sym (ok-injective h)) ∙ write_error-status j m res 400 message,
      ))
  rejected-status context (username_exists message) d r h s =
      absurd (omega (arith, s, failed-status j m res context (username_exists message) d r h))
  rejected-status context (other message) d r h s =
      absurd (omega (arith, s, failed-status j m res context (other message) d r h))

  create_problem_handler-IsCreated :
      (r : Response)
      → (create_problem_handler j m req res c).0 ≡ ok r
      → r.status ≡ 201
      → IsCreated r
  unfolding create_problem_handler attempt resume ◌>>=◌ continue
  create_problem_handler-IsCreated r e s = elim (result-cases (parse_json_body j req.body)) [
    | inr (x, bad) ↦ absurd (rejected-status (bytes "database error: ") x c r (rw bad at e) s)
    | inl (body, read) ↦ elim (result-cases (parse_problem_input j body)) [
      | inr (x, bad) ↦
          absurd (rejected-status (bytes "database error: ") x c r (rw (read, bad) at e) s)
      | inl (input, parsed) ↦ elim (Result-cases (create_problem m input c)) [
        | inr (d, x, broken) ↦
            absurd
              (rejected-status (bytes "database error: ") x d r (rw (read, parsed, broken) at e) s)
        | inl (d, id, created) ↦ record {
          body = body;
          input = input;
          id = id;
          c' = d;
          read = read;
          parsed = parsed;
          bounded = parse_problem_input-IsBounded j body input parsed;
          created = created;
          sent = subst (Adds m (Lends Transacts) c) created (create_problem-Transacts m input c);
          answered = sym (ok-injective (rw (read, parsed, created) at e));
        }
      ]
    ]
  ]

  IsCreated-ok : (r : Response) → IsCreated r → (create_problem_handler j m req res c).0 ≡ ok r
  unfolding create_problem_handler attempt resume ◌>>=◌ continue
  IsCreated-ok r a = rw (a.read, a.parsed, a.created, a.answered) refl

  IsCreated-status : (r : Response) → IsCreated r → r.status ≡ 201
  unfolding write_json
  IsCreated-status r a = rw a.answered refl

-- The creation of a problem is answered with status 201 exactly if the body is a problem that the parser
-- accepts and the database stores it; the problem keeps the bounds on its fields, the statements that
-- store it are one committed transaction, and the answer has the problem's id.
pub create_problem_handler_iff :
    (j : Json) (m : Mysql) (req : Request) (res : Response) (c : Client m) (r : Response)
    → (((create_problem_handler j m req res c).0 ≡ ok r) × (r.status ≡ 201))
      ↔ IsCreated j m req res c r
create_problem_handler_iff j m req res c r = (
  λ e. create_problem_handler-IsCreated j m req res c r e.0 e.1,
  λ a. (IsCreated-ok j m req res c r a, IsCreated-status j m req res c r a),
)
