-- ===== src/Judge/Diff/Laws.antt =====
-- What the comparison of outputs (backend/src/judge/diff.cpp) accepts.
use oj_vibe_coding.Base.{
  ℕ, zero, suc, ◌+◌, ◌≤◌, ◌<◌, ◌≡◌, refl, sym, ap, ◌∙◌, ◌↔◌, inl, inr, true, [], ◌∷◌, ◌++◌, arith,
  Bool-cases, length, drop, get_or, length-append, take-append-drop, take-append,
  get_or-append_left, All,
}
use oj_vibe_coding.Text.{Bytes, eqb_refl, eq_of_eqb}
use oj_vibe_coding.Judge.Diff.{is_trailing_space, trim_end, trim_trailing_whitespace, outputs_match}

abbrev pub IsBlank : ℕ → Type 0
IsBlank c = is_trailing_space c ≡ true

trim_end-le : (v : Bytes) (n : ℕ) → trim_end v n ≤ n
unfolding trim_end
trim_end-le v zero = omega arith
trim_end-le v (suc n) = ground (arith, trim_end-le v n)

-- Only the bytes below `n` are read.
trim_end-append : (v s : Bytes) (n : ℕ) → n ≤ length v → trim_end (v ++ s) n ≡ trim_end v n
unfolding trim_end
trim_end-append v s zero h = refl
trim_end-append v s (suc n) h = ground (arith, trim_end-append v s n, get_or-append_left v s n 0)

get_or-append_right : (v s : Bytes) (i : ℕ) → get_or (v ++ s) (length v + i) 0 ≡ get_or s i 0
get_or-append_right [] s i = ap (λ k. get_or s k 0) (omega arith)
get_or-append_right (c ∷ v) s i =
    let e : length (c ∷ v) + i ≡ suc (length v + i) = omega arith in
    rw e (get_or-append_right v s i)

All-get :
    (s : Bytes) (i : ℕ) → All IsBlank s → i < length s → is_trailing_space (get_or s i 0) ≡ true
All-get [] i h l = absurd (omega arith)
All-get (c ∷ s) zero h l = h.0
All-get (c ∷ s) (suc i) h l = All-get s i h.1 (omega arith)

-- Blank bytes at the end are skipped.
trim_end_skip :
    (v s : Bytes) (k n : ℕ)
    → All IsBlank s
    → k ≤ length s
    → n ≡ length v + k
    → trim_end (v ++ s) n ≡ trim_end (v ++ s) (length v)
trim_end_skip v s zero n h l e = let e' : n ≡ length v = omega arith in rw e'
trim_end_skip v s (suc k) n h l e =
    let e' : n ≡ suc (length v + k) = omega arith in
    rw e' (step ∙ trim_end_skip v s k (length v + k) h (omega arith) refl)
  where
    step : trim_end (v ++ s) (suc (length v + k)) ≡ trim_end (v ++ s) (length v + k)
    step = unfold trim_end in ground (arith, get_or-append_right v s k, All-get s k)

-- The part that the loop cuts off is blank.
trim_end-IsBlank :
    (v : Bytes) (n : ℕ)
    → n ≤ length v
    → All IsBlank (drop n v)
    → All IsBlank (drop (trim_end v n) v)
unfolding trim_end
trim_end-IsBlank v zero h b = b
trim_end-IsBlank v (suc n) h b = elim (Bool-cases (is_trailing_space (get_or v n 0))) [
  | inl blank ↦
      rw (blank, trim_end) (trim_end-IsBlank v n (omega arith) (drop-IsBlank v n h blank b))
  | inr solid ↦ rw (solid, trim_end) b
]
  where
    drop-IsBlank :
        (v : Bytes) (n : ℕ)
        → suc n ≤ length v
        → is_trailing_space (get_or v n 0) ≡ true
        → All IsBlank (drop (suc n) v)
        → All IsBlank (drop n v)
    drop-IsBlank [] n h c b = absurd (omega arith)
    drop-IsBlank (x ∷ v) zero h c b = (c, b)
    drop-IsBlank (x ∷ v) (suc n) h c b = drop-IsBlank v n (omega arith) c b

trim_append :
    (core s : Bytes)
    → All IsBlank s
    → trim_trailing_whitespace (core ++ s) ≡ trim_trailing_whitespace core
unfolding trim_trailing_whitespace
trim_append core s b =
    let e =
      trim_end_skip core s (length s) (length (core ++ s)) b (omega arith) (length-append core s) in
    rw (e, trim_end-append core s (length core) (omega arith))
      (take-append (trim_end core (length core)) core s (trim_end-le core (length core)))

drop_all : (v : Bytes) → drop (length v) v ≡ []
drop_all [] = refl
drop_all (x ∷ v) = drop_all v

-- What `trim_trailing_whitespace` removes.
cut : Bytes → Bytes
cut v = drop (trim_end v (length v)) v

cut-IsBlank : (v : Bytes) → All IsBlank (cut v)
unfolding cut
cut-IsBlank v = trim_end-IsBlank v (length v) (omega arith) (rw (drop_all v) tt)

trim-append-cut : (v : Bytes) → trim_trailing_whitespace v ++ cut v ≡ v
unfolding trim_trailing_whitespace cut
trim-append-cut v = take-append-drop (trim_end v (length v)) v

-- The two texts are one text followed by blank bytes.
abbrev pub DifferInBlankEnds : Bytes → Bytes → Type 0
DifferInBlankEnds expected actual =
    (core : Bytes) × (s : Bytes) × (t : Bytes) × (expected ≡ core ++ s)
    × (actual ≡ core ++ t)
    × All IsBlank s
    × All IsBlank t

outputs_match_sound :
    (expected actual : Bytes)
    → outputs_match expected actual ≡ true
    → DifferInBlankEnds expected actual
unfolding outputs_match
outputs_match_sound a b h =
    let e = eq_of_eqb _ _ h in
    (
      trim_trailing_whitespace a,
      cut a,
      cut b,
      sym (trim-append-cut a),
      rw e (sym (trim-append-cut b)),
      cut-IsBlank a,
      cut-IsBlank b,
    )

outputs_match_complete :
    (expected actual : Bytes)
    → DifferInBlankEnds expected actual
    → outputs_match expected actual ≡ true
unfolding outputs_match
outputs_match_complete a b (core, s, t, ea, eb, hs, ht) =
    rw (ea, eb, trim_append core s hs, trim_append core t ht)
      (eqb_refl (trim_trailing_whitespace core))

-- Two outputs match exactly if they are one text followed by blank bytes (spaces, tabs, carriage
-- returns, line feeds) in each: nothing else is forgiven, inside or in front.
pub outputs_match_iff :
    (expected actual : Bytes)
    → (outputs_match expected actual ≡ true) ↔ DifferInBlankEnds expected actual
outputs_match_iff a b = (outputs_match_sound a b, outputs_match_complete a b)
