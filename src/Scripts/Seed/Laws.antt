-- ===== src/Scripts/Seed/Laws.antt =====
-- How MySQL reads the statement that backend/scripts/seed.cpp builds itself.
use oj_vibe_coding.Base.{
  ℕ, ◌≡◌, refl, Bool, true, false, ◌||◌, Option, none, some, [], ◌∷◌, ◌++◌, arith, ◌==◌,
  if◌then◌else◌,
}
use oj_vibe_coding.Text.{Bytes, bytes}
use oj_vibe_coding.Scripts.Seed.{escape_quotes, admin_delete}

abbrev pub push : ℕ → Option (Bytes × Bytes) → Option (Bytes × Bytes)
push c none = none
push c (some (value, rest)) = some (c ∷ value, rest)

-- A text literal of MySQL from behind its opening quote, as its manual has it: a backslash stands for
-- the quote or the backslash behind it, and a quote ends the literal. The value, and what follows the
-- literal; other escapes and a doubled quote are not read. `escaped` is true behind a backslash.
unfoldable pub read_literal : Bool → Bytes → Option (Bytes × Bytes)
read_literal escaped [] = none
read_literal true (c ∷ s) =
    let later = read_literal false s in if c == b'\'' || c == b'\\' then push c later else none
read_literal false (c ∷ s) =
    let behind = read_literal true s in
    let later = read_literal false s in
    if c == b'\'' then some ([], s) else if c == b'\\' then behind else push c later

read_literal-escape_quotes :
    (s : Bytes) → read_literal false (escape_quotes s ++ (b'\'' ∷ [])) ≡ some (s, [])
unfolding read_literal escape_quotes
read_literal-escape_quotes [] = refl
read_literal-escape_quotes (c ∷ s) = ground (arith, read_literal-escape_quotes s)

-- The part of the DELETE statement behind its opening quote is read by MySQL as one text literal, whose
-- value is the user name as it was given, whatever quotes and backslashes are in it, and nothing
-- follows the literal.
pub admin_delete-literal :
    (username : Bytes)
    → (literal : Bytes) × (admin_delete username
        ≡ bytes "DELETE FROM users WHERE username = '" ++ literal)
      × (read_literal false literal ≡ some (username, []))
unfolding admin_delete bytes
admin_delete-literal username =
    (escape_quotes username ++ (b'\'' ∷ []), refl, read_literal-escape_quotes username)
