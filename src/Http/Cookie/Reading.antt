-- ===== src/Http/Cookie/Reading.antt =====
-- Reading back a Cookie header (backend/src/http/middleware.cpp) that lists well-formed pairs.
use oj_vibe_coding.Base.{
  ℕ, zero, suc, ◌<◌, ◌≡◌, refl, sym, ap, ◌∙◌, ◌↔◌, Bool, true, false, not, ◌&&◌, Option, none, some,
  List, [], ◌∷◌, ◌++◌, arith, ◌==◌, if◌then◌else◌, ==_iff, length, is_empty, length-append, All,
  All-append,
}
use oj_vibe_coding.Text.{Bytes, bytes}
use oj_vibe_coding.Http.Message.{Request, value_or_empty}
use oj_vibe_coding.Http.Cookie.{
  equals_ignore_case, is_whitespace, skip_whitespace, drop_trailing, split_at, match_pair,
  read_loop, read_cookie_value, parse_session_id, or_else, match_value,
}
use mathlib.Core.List.{append-nil, append_assoc}
use oj_vibe_coding.Auth.Session.{session_cookie_name, is_session_id_shape}

abbrev Pairs : Type 0
Pairs = List (Bytes × Bytes)

-- `key=value` pairs, separated by `; ` as RFC 6265 has it.
abbrev pub print_rest : Pairs → Bytes
print_rest [] = []
print_rest ((k, v) ∷ ps) = b';' ∷ b' ' ∷ (k ++ (b'=' ∷ (v ++ print_rest ps)))

abbrev pub print_pairs : Pairs → Bytes
print_pairs [] = []
print_pairs ((k, v) ∷ ps) = k ++ (b'=' ∷ (v ++ print_rest ps))

-- The value of the first key that is `name` up to the case of letters.
pub lookup_ignoring_case : Bytes → Pairs → Option Bytes
lookup_ignoring_case name [] = none
lookup_ignoring_case name ((k, v) ∷ ps) =
    if equals_ignore_case k name then some v else lookup_ignoring_case name ps

abbrev pub is_plain : ℕ → Bool
is_plain c = not (is_whitespace c) && not (c == b'=') && not (c == b';')

-- No key has a blank, `=` or `;` in it, and no value a `;`.
abbrev pub WellFormed : Pairs → Type 0
WellFormed =
    All
      (λ (p : Bytes × Bytes). All (λ c. is_plain c ≡ true) p.0 × All (λ c. (c == b';') ≡ false) p.1)

split_at-found :
    (c : ℕ) (s t : Bytes) → All (λ x. (x == c) ≡ false) s → split_at c (s ++ (c ∷ t)) ≡ (s, some t)
unfolding split_at
split_at-found c [] t h = let same : (c == c) ≡ true = (==_iff c c).1 refl in rw same
split_at-found c (x ∷ s) t h = rw (split_at-found c s t h.1, h.0, split_at)

split_at-missing : (c : ℕ) (s : Bytes) → All (λ x. (x == c) ≡ false) s → split_at c s ≡ (s, none)
unfolding split_at
split_at-missing c [] h = refl
split_at-missing c (x ∷ s) h = rw (split_at-missing c s h.1, h.0, split_at)

plain-ne :
    (k : Bytes)
    → All (λ c. is_plain c ≡ true) k
    → All (λ c. (c == b'=') ≡ false) k × All (λ c. (c == b';') ≡ false) k
plain-ne [] h = (tt, tt)
plain-ne (c ∷ k) h =
    let (a, b) = plain-ne k h.1 in ((ground (arith, h.0), a), (ground (arith, h.0), b))

skip_whitespace-plain :
    (k t : Bytes)
    → All (λ c. is_plain c ≡ true) k
    → skip_whitespace (k ++ (b'=' ∷ t)) ≡ k ++ (b'=' ∷ t)
unfolding skip_whitespace
skip_whitespace-plain [] t h = refl
skip_whitespace-plain (c ∷ k) t h =
    let solid : is_whitespace c ≡ false = ground (arith, h.0) in rw solid

drop_trailing-plain : (k : Bytes) → All (λ c. is_plain c ≡ true) k → drop_trailing k ≡ k
unfolding drop_trailing
drop_trailing-plain [] h = refl
drop_trailing-plain (c ∷ []) h =
    let solid : is_whitespace c ≡ false = ground (arith, h.0) in rw solid
drop_trailing-plain (c ∷ d ∷ k) h = rw (drop_trailing-plain (d ∷ k) h.1, drop_trailing)

trim-plain : (k : Bytes) → All (λ c. is_plain c ≡ true) k → drop_trailing (skip_whitespace k) ≡ k
unfolding skip_whitespace
trim-plain [] h = drop_trailing-plain [] h
trim-plain (c ∷ k) h =
    let solid : is_whitespace c ≡ false = ground (arith, h.0) in
    rw solid (drop_trailing-plain (c ∷ k) h)

match_pair-plain :
    (name k v : Bytes)
    → All (λ c. is_plain c ≡ true) k
    → match_pair name (k ++ (b'=' ∷ v)) ≡ (if equals_ignore_case k name then some v else none)
unfolding match_pair
match_pair-plain name k v h =
    let (at_eq, _) = plain-ne k h in
    rw (split_at-found b'=' k v at_eq, match_pair) (rw (trim-plain k h, match_value))

module _ (name : Bytes) where
  -- One round of the loop, at a pair that starts the text.
  read_loop-step :
      (fuel : ℕ) (s pair : Bytes) (rest : Option Bytes)
      → is_empty (skip_whitespace s) ≡ false
      → split_at b';' (skip_whitespace s) ≡ (pair, rest)
      → read_loop (suc fuel) name s
        ≡ or_else (match_pair name pair) (read_loop fuel name (value_or_empty rest))
  unfolding read_loop
  read_loop-step fuel s pair rest filled e = rw (filled, e, read_loop)

  read_loop-nil : (fuel : ℕ) → read_loop fuel name [] ≡ none
  unfolding read_loop skip_whitespace split_at
  read_loop-nil zero = refl
  read_loop-nil (suc fuel) = refl

  -- The texts that the loop meets: those whose blanks are followed by well-formed pairs.
  abbrev Meets : Bytes → Pairs → Type 0
  Meets s ps = skip_whitespace s ≡ print_pairs ps

  or_else-if :
      (b : Bool) (v : Bytes) (later : Option Bytes)
      → or_else (if b then some v else none) later ≡ (if b then some v else later)
  or_else-if true v later = refl
  or_else-if false v later = refl

  pair-ne :
      (k v : Bytes)
      → All (λ c. is_plain c ≡ true) k
      → All (λ c. (c == b';') ≡ false) v
      → All (λ c. (c == b';') ≡ false) (k ++ (b'=' ∷ v))
  pair-ne k v hk hv =
      All-append (λ c. (c == b';') ≡ false) k (b'=' ∷ v) (plain-ne k hk).1 (refl, hv)

  filled : (k t : Bytes) → is_empty (k ++ (b'=' ∷ t)) ≡ false
  filled [] t = refl
  filled (c ∷ k) t = refl

  print_pairs-cons :
      (k v : Bytes) (ps : Pairs) → print_pairs ((k, v) ∷ ps) ≡ (k ++ (b'=' ∷ v)) ++ print_rest ps
  print_pairs-cons k v ps = sym (append_assoc k (b'=' ∷ v) (print_rest ps))

  read_loop-pairs :
      (fuel : ℕ) (ps : Pairs) (s : Bytes)
      → WellFormed ps
      → length (print_pairs ps) < fuel
      → Meets s ps
      → read_loop fuel name s ≡ lookup_ignoring_case name ps
  unfolding lookup_ignoring_case
  read_loop-pairs zero ps s w h e = absurd (omega arith)
  read_loop-pairs (suc fuel) [] s w h e = unfold read_loop in rw (e, read_loop)
  read_loop-pairs (suc fuel) ((k, v) ∷ []) s w h e =
      read_loop-step fuel s (k ++ (b'=' ∷ v)) none (ap is_empty e ∙ filled k (v ++ [])) (
        ap (split_at b';') (e ∙ print_pairs-cons k v [] ∙ append-nil _)
        ∙ split_at-missing b';' (k ++ (b'=' ∷ v)) (pair-ne k v w.0.0 w.0.1))
      ∙ rw (match_pair-plain name k v w.0.0, read_loop-nil fuel) (or_else-if _ v none)
  read_loop-pairs (suc fuel) ((k, v) ∷ (l, u) ∷ ps) s w h e =
      read_loop-step fuel s (k ++ (b'=' ∷ v)) (some (b' ' ∷ print_pairs ((l, u) ∷ ps)))
        (ap is_empty e ∙ filled k (v ++ print_rest ((l, u) ∷ ps)))
        (ap (split_at b';') (e ∙ print_pairs-cons k v ((l, u) ∷ ps))
          ∙ split_at-found b';' (k ++ (b'=' ∷ v)) (b' ' ∷ print_pairs ((l, u) ∷ ps))
              (pair-ne k v w.0.0 w.0.1))
      ∙ rw
          (
            match_pair-plain name k v w.0.0,
            read_loop-pairs fuel ((l, u) ∷ ps) (b' ' ∷ print_pairs ((l, u) ∷ ps)) w.1 shorter
                behind_blank,
          )
          (or_else-if (equals_ignore_case k name) v (lookup_ignoring_case name ((l, u) ∷ ps)))
    where
      shorter : length (print_pairs ((l, u) ∷ ps)) < fuel
      shorter = omega (
        arith,
        h,
        length-append k (b'=' ∷ (v ++ print_rest ((l, u) ∷ ps))),
        length-append v (print_rest ((l, u) ∷ ps)),
      )

      behind_blank : Meets (b' ' ∷ print_pairs ((l, u) ∷ ps)) ((l, u) ∷ ps)
      behind_blank = unfold skip_whitespace in skip_whitespace-plain l (u ++ print_rest ps) w.1.0.0

  read_cookie_value-pairs :
      (ps : Pairs)
      → WellFormed ps
      → read_cookie_value (print_pairs ps) name ≡ lookup_ignoring_case name ps
  unfolding read_cookie_value
  read_cookie_value-pairs ps w =
      read_loop-pairs (suc (length (print_pairs ps))) ps (print_pairs ps) w (omega arith)
        (start ps w)
    where
      start : (ps : Pairs) → WellFormed ps → Meets (print_pairs ps) ps
      start [] w = unfold skip_whitespace in refl
      start ((k, v) ∷ ps) w = skip_whitespace-plain k (v ++ print_rest ps) w.0.0

-- From a Cookie header that lists well-formed pairs, the session id read is the value of the first
-- pair whose key is `minioj_sid` up to the case of letters, and it is returned exactly if it has the
-- shape of a session id.
pub parse_session_id_iff :
    (req : Request) (ps : Pairs) (id : Bytes)
    → WellFormed ps
    → req.header (bytes "Cookie") ≡ some (print_pairs ps)
    → (parse_session_id req ≡ some id)
      ↔ ((lookup_ignoring_case session_cookie_name ps ≡ some id) × (is_session_id_shape id ≡ true))
unfolding parse_session_id
parse_session_id_iff req ps id w e =
    let read = read_cookie_value-pairs session_cookie_name ps w in
    rw (e, parse_session_id)
      (rw (read, parse_session_id) (by_value (lookup_ignoring_case session_cookie_name ps)))
  where
    by_value :
        (o : Option Bytes)
        → (elim o [
          | none ↦ none
          | some cookie ↦ if not (is_session_id_shape cookie) then none else some cookie
        ]
            ≡ some id)
          ↔ ((o ≡ some id) × (is_session_id_shape id ≡ true))
    by_value o = ground arith
