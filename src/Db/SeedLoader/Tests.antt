-- ===== src/Db/SeedLoader/Tests.antt =====
-- A reset without a seed file, on a scripted server.
use oj_vibe_coding.Db.Client.{
  Client, leased, returned, send, throw_error, execute, with_lease, give_back, using_lease,
}
use oj_vibe_coding.Db.Client.Toy.{scripted, answering, done}
use oj_vibe_coding.Db.SeedLoader.{
  Files, clear_statements, reset_ai, execute_all, clear_problem_bank, reset_problem_bank,
}
use oj_vibe_coding.Db.SeedLoader.Loss.{all_sent, reset_problem_bank-loses}
use oj_vibe_coding.Http.Tests.Instances.{toy_json}
use oj_vibe_coding.Base.{◌≡◌, refl, none, [], ◌∷◌, ◌++◌}
use oj_vibe_coding.Base.Result.{other, ok, err}
use oj_vibe_coding.Text.{bytes}
use oj_vibe_coding.Base.Effect.{continue, ◌>>=◌, ◌>>◌}

abbrev no_files : Files
no_files path = none

abbrev full_bank : Client scripted
full_bank = answering (done ∷ done ∷ done ∷ done ∷ done ∷ done ∷ done ∷ [])

abbrev emptied : Client scripted
emptied = record {
  server = record { answers = []; last = [] };
  log = leased ∷ (all_sent clear_statements ++ all_sent reset_ai) ++ (returned ∷ []);
}

bank_emptied : clear_problem_bank scripted full_bank ≡ (ok tt, emptied)
unfolding clear_problem_bank execute_all execute send throw_error using_lease with_lease give_back
    ◌>>=◌ ◌>>◌ continue
bank_emptied = refl

reset_problem_bank-loses_example :
    (reset_problem_bank scripted toy_json no_files (bytes "seed.json") full_bank
      ≡ (err (other (bytes "failed to open seed file: " ++ bytes "seed.json")), emptied))
    × (emptied.log
        ≡ [] ++ (leased ∷ (all_sent clear_statements ++ all_sent reset_ai) ++ (returned ∷ [])))
reset_problem_bank-loses_example =
    reset_problem_bank-loses scripted toy_json no_files (bytes "seed.json") full_bank emptied refl
      bank_emptied
