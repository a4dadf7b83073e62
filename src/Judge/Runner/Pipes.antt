-- ===== src/Judge/Runner/Pipes.antt =====
-- The loops around write(2) and read(2) of backend/src/judge/runner.cpp, over the answers of the
-- calls. A list of answers that ends before the loop does stands for a call that does not return.
use oj_vibe_coding.Base.{
  ℕ, ◌≡◌, refl, sym, ap, ◌∙◌, subst, ◌≢◌, ◌↔◌, Bool, true, false, Option, none, some, List, [], ◌∷◌,
  ◌++◌, take, drop, take-append-drop,
}
use mathlib.Core.Option.{some-injective}
use mathlib.Core.List.{append_assoc}
use oj_vibe_coding.Text.{Bytes}

-- What a call of write gives: a number of bytes that are taken, -1 with EINTR, or -1 with another errno.
pub data Wrote : Type 0 where
  took : ℕ → Wrote
  interrupted broken : Wrote

abbrev then_taken : Bytes → Option (Bool × Bytes) → Option (Bool × Bytes)
then_taken taken none = none
then_taken taken (some (done, later)) = some (done, taken ++ later)

abbrev pub returns : Bool → Bytes → Option (Bool × Bytes)
returns done taken = some (done, taken)

-- The result of `writeAll`, with the bytes that were taken.
unfoldable pub write_all : List Wrote → Bytes → Option (Bool × Bytes)
write_all calls [] = some (true, [])
write_all [] (b ∷ content) = none
write_all (interrupted ∷ calls) (b ∷ content) = write_all calls (b ∷ content)
write_all (broken ∷ calls) (b ∷ content) = some (false, [])
write_all (took n ∷ calls) (b ∷ content) =
    then_taken (take n (b ∷ content)) (write_all calls (drop n (b ∷ content)))

-- What a call of read gives: bytes, the end, or an error.
pub data Got : Type 0 where
  delivered : Bytes → Got
  ended failed : Got

-- `drainPipe`: what it appends to the sink.
unfoldable pub drain_pipe : List Got → Option Bytes
drain_pipe [] = none
drain_pipe (delivered [] ∷ calls) = some []
drain_pipe (delivered (b ∷ got) ∷ calls) = elim (drain_pipe calls) [
  | none ↦ none
  | some later ↦ some ((b ∷ got) ++ later)
]
drain_pipe (ended ∷ calls) = some []
drain_pipe (failed ∷ calls) = some []

module _ (content : Bytes) where
  -- The bytes that are taken are the first of the content, and all of it exactly on success.
  pub record IsSent (done : Bool) (taken : Bytes) : Type 0 where
    pub rest : Bytes
    pub parted : content ≡ taken ++ rest
    pub all_of_it : (done ≡ true) ↔ (rest ≡ [])

took-IsSent :
    (content : Bytes) (n : ℕ) (done : Bool) (later : Bytes)
    → IsSent (drop n content) done later
    → IsSent content done (take n content ++ later)
took-IsSent content n done later a = record {
  rest = a.rest;
  parted =
      sym (take-append-drop n content)
      ∙ ap (λ l. take n content ++ l) a.parted
      ∙ sym (append_assoc (take n content) later a.rest);
  all_of_it = a.all_of_it;
}

nothing_left :
    (done : Bool) (taken : Bytes) → returns true [] ≡ returns done taken → IsSent [] done taken
nothing_left done taken e =
    let same = some-injective (true, []) (done, taken) e in
    subst (λ p. IsSent [] p.0 p.1) same
      (record { rest = []; parted = refl; all_of_it = (λ h. refl, λ h. refl) })

gave_up :
    (content : Bytes) (done : Bool) (taken : Bytes)
    → content ≢ []
    → returns false [] ≡ returns done taken
    → IsSent content done taken
gave_up content done taken filled e =
    let same = some-injective (false, []) (done, taken) e in
    subst (λ p. IsSent content p.0 p.1) same
      (record { rest = content; parted = refl; all_of_it = (λ h. cc h, λ h. absurd (filled h)) })

after_taking :
    (content : Bytes) (n : ℕ) (out : Option (Bool × Bytes)) (done : Bool) (taken : Bytes)
    → ((d : Bool) (later : Bytes) → out ≡ some (d, later) → IsSent (drop n content) d later)
    → then_taken (take n content) out ≡ some (done, taken)
    → IsSent content done taken
after_taking content n none done taken ih e = cc e
after_taking content n (some (d, later)) done taken ih e =
    let same = some-injective (d, take n content ++ later) (done, taken) e in
    subst (λ p. IsSent content p.0 p.1) same (took-IsSent content n d later (ih d later refl))

-- Whenever `writeAll` returns, the other end has got the first bytes of the content in their order, and
-- all of them exactly if it returns true.
pub write_all-IsSent :
    (calls : List Wrote) (content : Bytes) (done : Bool) (taken : Bytes)
    → write_all calls content ≡ some (done, taken)
    → IsSent content done taken
unfolding write_all
write_all-IsSent calls [] done taken e = nothing_left done taken e
write_all-IsSent [] (b ∷ content) done taken e = cc e
write_all-IsSent (interrupted ∷ calls) (b ∷ content) done taken e =
    write_all-IsSent calls (b ∷ content) done taken e
write_all-IsSent (broken ∷ calls) (b ∷ content) done taken e =
    gave_up (b ∷ content) done taken (λ h. cc h) e
write_all-IsSent (took n ∷ calls) (b ∷ content) done taken e =
    after_taking (b ∷ content) n (write_all calls (drop n (b ∷ content))) done taken
      (λ d l h. write_all-IsSent calls (drop n (b ∷ content)) d l h) e
