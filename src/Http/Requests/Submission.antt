-- ===== src/Http/Requests/Submission.antt =====
-- backend/src/http/submission_request.hpp and submission_request.cpp
use oj_vibe_coding.Base.{
  ℕ, ◌*◌, ◌≤◌, ◌≡◌, ◌≢◌, ◌⊎◌, true, not, ◌||◌, List, [], ◌∷◌, ◌++◌, arith, leb, length, is_empty,
}
use oj_vibe_coding.Base.Result.{Result, ok, ◌>>=◌, ◌>>◌, require}
use oj_vibe_coding.Text.{Bytes, bytes, eqb, eqb_iff}
use oj_vibe_coding.Http.Message.{Json}
use oj_vibe_coding.Http.Requests.{invalid, require_string, parse_json_body, positive_integer}

pub record SubmissionInput : Type 0 where
  pub problem_id : ℕ
  pub language : Bytes
  pub source_code : Bytes

module _ (j : Json) where
  open j use {Value, is_object, is_member, member}

  unfoldable pub require_id : Value → Bytes → Result ℕ
  require_id body key = do
    require (is_member body key) (invalid (key ++ bytes " is required"))
    positive_integer j (member body key) (invalid (key ++ bytes " must be a positive integer"))

  unfoldable pub parse_submission_input : Bytes → Result SubmissionInput
  parse_submission_input raw_body = do
    body ← parse_json_body j raw_body
    require (is_object body) (invalid (bytes "body must be a JSON object"))
    problem_id ← require_id body (bytes "problem_id")
    language ← require_string j body (bytes "lang")
    require (eqb language (bytes "cpp") || eqb language (bytes "c"))
        (invalid (bytes "lang must be \"cpp\" or \"c\""))
    source_code ← require_string j body (bytes "code")
    require (not (is_empty source_code)) (invalid (bytes "code must not be empty"))
    require (leb (length source_code) (256 * 1024)) (invalid (bytes "code must not exceed 256 KiB"))
    ok (record { problem_id = problem_id; language = language; source_code = source_code })

  -- A submission that is accepted for judging.
  pub record IsAcceptable (s : SubmissionInput) : Type 0 where
    pub language_known : (s.language ≡ bytes "cpp") ⊎ (s.language ≡ bytes "c")
    pub some_code : s.source_code ≢ []
    pub bounded : length s.source_code ≤ 262144

  is_empty-ne : {A : Type 0} (l : List A) → not (is_empty l) ≡ true → l ≢ []
  is_empty-ne [] h = cc
  is_empty-ne (x ∷ l) h = cc

  -- Every submission that the parser lets through has the language `cpp` or `c`, and between 1 byte and
  -- 256 KiB of code.
  pub parse_submission_input-IsAcceptable :
      (raw : Bytes) (s : SubmissionInput) → parse_submission_input raw ≡ ok s → IsAcceptable s
  unfolding parse_submission_input
  parse_submission_input-IsAcceptable raw s e = record {
    language_known =
        ground (arith, eqb_iff s.language (bytes "cpp"), eqb_iff s.language (bytes "c"));
    some_code = ground (arith, is_empty-ne s.source_code);
    bounded = ground arith;
  }
