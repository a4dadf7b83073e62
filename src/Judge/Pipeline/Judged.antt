-- ===== src/Judge/Pipeline/Judged.antt =====
-- The judging loop of `runPipeline` (backend/src/judge/pipeline.cpp) against a relation without
-- accumulators.
use oj_vibe_coding.Base.{
  ℕ, suc, max, ◌≡◌, refl, sym, ap, ◌∙◌, subst, inl, inr, true, false, some, List, [], ◌∷◌, ◌++◌,
  arith, Bool-cases, length, length-append,
}
use mathlib.Core.List.{append-nil, append_assoc}
use oj_vibe_coding.Base.Result.{ok, returned-injective, then_run-eq-ok}
use oj_vibe_coding.Types.{TestCase, Verdict, ac, CaseResult, is_ac}
use oj_vibe_coding.Judge.Pipeline.{
  PipelineInput, JudgeHost, aggregate_verdict, run_case, Progress, record_case, case_loop,
}

-- `Judged input host k cases results v`: from the k-th run on, judging `cases` yields `results` and
-- the verdict `v`. It stops behind the first case that is not accepted.
pub data Judged (input : PipelineInput) (host : JudgeHost)
    : ℕ → List TestCase → List CaseResult → Verdict → Type 0 where
  all_judged : (k : ℕ) → Judged input host k [] [] ac
  stop :
      (k : ℕ) (t : TestCase) (ts : List TestCase) (c : CaseResult)
      → run_case input host k t ≡ some (ok c)
      → is_ac c.verdict ≡ false
      → Judged input host k (t ∷ ts) (c ∷ []) c.verdict
  next :
      (k : ℕ) (t : TestCase) (ts : List TestCase) (c : CaseResult) (cs : List CaseResult)
      (v : Verdict)
      → run_case input host k t ≡ some (ok c)
      → is_ac c.verdict ≡ true
      → Judged input host (suc k) ts cs v
      → Judged input host k (t ∷ ts) (c ∷ cs) v

-- The largest time and memory of a list of cases.
abbrev pub max_time_of : List CaseResult → ℕ
max_time_of [] = 0
max_time_of (c ∷ cs) = max c.time_ms (max_time_of cs)

abbrev pub max_memory_of : List CaseResult → ℕ
max_memory_of [] = 0
max_memory_of (c ∷ cs) = max c.memory_mb (max_memory_of cs)

pub is_ac-eq : (v : Verdict) → is_ac v ≡ true → v ≡ ac
is_ac-eq ac h = refl
is_ac-eq _ h = cc

aggregate-verdict_ac : (v w : Verdict) → is_ac v ≡ true → aggregate_verdict v w ≡ w
unfolding aggregate_verdict
aggregate-verdict_ac v w h = rw h

module _ (input : PipelineInput) (host : JudgeHost) where
  -- What the loop has added to `p` when it ends in `q`.
  abbrev Extends : Progress → List TestCase → Progress → Type 0
  Extends p ts q =
      (cs : List CaseResult) × Judged input host (length p.per_case) ts cs q.verdict
      × (q.per_case ≡ p.per_case ++ cs)
      × (q.max_time ≡ max p.max_time (max_time_of cs))
      × (q.max_memory ≡ max p.max_memory (max_memory_of cs))

  Extends-nil : (p : Progress) → is_ac p.verdict ≡ true → Extends p [] p
  Extends-nil p a = (
    [],
    subst (Judged input host (length p.per_case) [] []) (sym (is_ac-eq p.verdict a)) (all_judged _),
    sym (append-nil p.per_case),
    omega arith,
    omega arith,
  )

  Extends-stop :
      (t : TestCase) (ts : List TestCase) (p : Progress) (c : CaseResult)
      → is_ac p.verdict ≡ true
      → run_case input host (length p.per_case) t ≡ some (ok c)
      → is_ac c.verdict ≡ false
      → Extends p (t ∷ ts) (record_case p c)
  unfolding record_case
  Extends-stop t ts p c a run bad = (
    c ∷ [],
    subst (Judged input host (length p.per_case) (t ∷ ts) (c ∷ []))
        (sym (aggregate-verdict_ac p.verdict c.verdict a)) (stop _ t ts c run bad),
    refl,
    omega arith,
    omega arith,
  )

  Extends-next :
      (t : TestCase) (ts : List TestCase) (p q : Progress) (c : CaseResult)
      → run_case input host (length p.per_case) t ≡ some (ok c)
      → is_ac c.verdict ≡ true
      → Extends (record_case p c) ts q
      → Extends p (t ∷ ts) q
  unfolding record_case
  Extends-next t ts p q c run good (cs, j, per, time, memory) = (
    c ∷ cs,
    next _ t ts c cs q.verdict run good (subst (λ k. Judged input host k ts cs q.verdict) count j),
    per ∙ append_assoc p.per_case (c ∷ []) cs,
    omega arith,
    omega arith,
  )
    where
      count : length (p.per_case ++ (c ∷ [])) ≡ suc (length p.per_case)
      count = omega (arith, length-append p.per_case (c ∷ []))

  pub case_loop-Extends :
      (ts : List TestCase) (p q : Progress)
      → is_ac p.verdict ≡ true
      → case_loop input host ts p ≡ some (ok q)
      → Extends p ts q
  unfolding case_loop
  case_loop-Extends [] p q a e = subst (Extends p []) (returned-injective e) (Extends-nil p a)
  case_loop-Extends (t ∷ ts) p q a e =
      let (c, run, e') = then_run-eq-ok (run_case input host (length p.per_case) t) _ q e in
      elim (Bool-cases (is_ac c.verdict)) [
        | inl good ↦
            Extends-next t ts p q c run good
              (case_loop-Extends ts (record_case p c) q (same c ∙ good) (rw (same c ∙ good) at e'))
        | inr bad ↦
            subst (Extends p (t ∷ ts)) (returned-injective (rw (same c ∙ bad) at e'))
              (Extends-stop t ts p c a run bad)
      ]
    where
      same : (c : CaseResult) → is_ac (record_case p c).verdict ≡ is_ac c.verdict
      same c = unfold record_case in ap is_ac (aggregate-verdict_ac p.verdict c.verdict a)
