-- ===== src/Http/Handlers/Admin/Tests.antt =====
-- The creation of a problem by an administrator, on stand-ins for the JSON library and the server.
use oj_vibe_coding.Http.Handlers.Tests.{call, answer_of}
use oj_vibe_coding.Http.Message.{Response, empty_response}
use oj_vibe_coding.Http.Tests.Instances.{toy_json}
use oj_vibe_coding.Http.Handlers.Admin.{create_problem_handler}
use oj_vibe_coding.Http.Handlers.Admin.Creating.{IsCreated, create_problem_handler_iff}
use oj_vibe_coding.Db.Client.{Client}
use oj_vibe_coding.Db.Client.Toy.{scripted, answering, done}
use oj_vibe_coding.Base.{◌≡◌, ◌↔◌, [], ◌∷◌}
use oj_vibe_coding.Base.Result.{ok}
use oj_vibe_coding.Text.{bytes}

-- Every statement of the transaction is carried out.
abbrev agreeing : Client scripted
agreeing = answering (done ∷ done ∷ done ∷ done ∷ done ∷ done ∷ [])

abbrev created : Response
created = answer_of (
    create_problem_handler toy_json scripted (call (bytes "/api/admin/problems")) empty_response
      agreeing)

create_problem_handler_iff_example :
    (((create_problem_handler toy_json scripted
          (call (bytes "/api/admin/problems"))
          empty_response
          agreeing).0
        ≡ ok created)
      × (created.status ≡ 201))
    ↔ IsCreated toy_json scripted
        (call (bytes "/api/admin/problems"))
        empty_response
        agreeing
        created
create_problem_handler_iff_example =
    create_problem_handler_iff toy_json scripted (call (bytes "/api/admin/problems")) empty_response
      agreeing created
