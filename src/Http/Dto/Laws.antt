-- ===== src/Http/Dto/Laws.antt =====
-- What a client sees of a judged submission (backend/src/http/submission_dto.cpp).
use mathlib.Core.List.{append_assoc, append-nil}
use oj_vibe_coding.Types.{CaseResult, SubmissionResult, is_wa, verdict_name}
use oj_vibe_coding.Http.Message.{Json}
use oj_vibe_coding.Http.Dto.{with_fields, append_all, array_of, case_json, submission_json}
use oj_vibe_coding.Base.{
  ◌≡◌, sym, ap, ◌∙◌, inl, inr, false, ◌||◌, List, [], ◌∷◌, ◌++◌, map, if◌then◌else◌, Bool-cases,
  All,
}
use oj_vibe_coding.Text.{Bytes, bytes, eqb}

-- What jsoncpp documents of objects and arrays: `value[key] = field` sets one member and keeps the
-- others, and `append` adds at the end.
pub record IsJson (j : Json) : Type 0 where
  pub is_member-object : (key : Bytes) → j.is_member j.object_value key ≡ false
  pub is_member-set :
      (v w : j.Value) (k key : Bytes)
      → j.is_member (j.set_member v k w) key ≡ (eqb k key || j.is_member v key)
  pub member-set :
      (v w : j.Value) (k key : Bytes)
      → j.member (j.set_member v k w) key ≡ (if eqb k key then w else j.member v key)
  pub elements-array : j.elements j.array_value ≡ []
  pub elements-append : (v w : j.Value) → j.elements (j.append v w) ≡ j.elements v ++ (w ∷ [])

module _ (j : Json) where
  -- Under this key a case has the text exactly if its verdict is WA; otherwise it has no such member.
  pub Shows : CaseResult → Bytes → Bytes → Type 0
  Shows c key text =
      (j.is_member (case_json j c) key ≡ is_wa c.verdict)
      × (j.member (case_json j c) key
          ≡ (if is_wa c.verdict then j.string_value text else j.member j.object_value key))

  -- What a case says of the expected and the actual output, and its verdict.
  pub ShowsOutputs : CaseResult → Type 0
  ShowsOutputs c =
      Shows c (bytes "expected") c.expected
      × Shows c (bytes "actual") c.actual
      × (j.member (case_json j c) (bytes "verdict") ≡ j.string_value (verdict_name c.verdict))

module _ (j : Json) (laws : IsJson j) where
  elements-append_all :
      {A : Type 0} (item : A → j.Value) (array : j.Value) (xs : List A)
      → j.elements (append_all j item array xs) ≡ j.elements array ++ map item xs
  unfolding append_all
  elements-append_all item array [] = sym (append-nil (j.elements array))
  elements-append_all item array (x ∷ xs) =
      elements-append_all item (j.append array (item x)) xs
      ∙ ap (λ l. l ++ map item xs) (laws.elements-append array (item x))
      ∙ append_assoc (j.elements array) (item x ∷ []) (map item xs)

  case_json-ShowsOutputs : (c : CaseResult) → ShowsOutputs j c
  unfolding ShowsOutputs Shows case_json with_fields bytes eqb
  case_json-ShowsOutputs c = elim (Bool-cases (is_wa c.verdict)) [
    | inl wrong ↦ rw wrong (
      (simp laws.is_member-set, simp laws.member-set),
      (simp laws.is_member-set, simp laws.member-set),
      simp laws.member-set,
    )
    | inr right ↦ rw right (
      (simp (laws.is_member-set, laws.is_member-object), simp laws.member-set),
      (simp (laws.is_member-set, laws.is_member-object), simp laws.member-set),
      simp laws.member-set,
    )
  ]

  All-ShowsOutputs : (cases : List CaseResult) → All (ShowsOutputs j) cases
  All-ShowsOutputs [] = tt
  All-ShowsOutputs (c ∷ rest) = (case_json-ShowsOutputs c, All-ShowsOutputs rest)

  -- The answer to a submission lists the results of its cases in order. Each case has its verdict; if
  -- that is WA it has the expected output under "expected" and the actual one under "actual", and
  -- otherwise it has neither member.
  pub submission_json-ShowsOutputs :
      (s : SubmissionResult)
      → (j.elements (j.member (submission_json j s) (bytes "per_case"))
          ≡ map (case_json j) s.per_case)
        × All (ShowsOutputs j) s.per_case
  unfolding submission_json with_fields bytes eqb
  submission_json-ShowsOutputs s = (
    ap j.elements (laws.member-set _ (array_of j (case_json j) s.per_case) _ _)
        ∙ elements-append_all (case_json j) j.array_value s.per_case
        ∙ ap (λ l. l ++ map (case_json j) s.per_case) laws.elements-array,
    All-ShowsOutputs s.per_case,
  )
