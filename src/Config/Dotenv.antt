-- ===== src/Config/Dotenv.antt =====
-- The file of settings: `trim` and `loadDotenv` of backend/src/util/config.cpp. A file that cannot be
-- opened is `none`, and else a list of lines.
use oj_vibe_coding.Base.{
  ℕ, ◌-◌, Bool, ◌&&◌, ◌||◌, Option, none, some, List, [], ◌∷◌, leb, ◌==◌, if◌then◌else◌, length,
  take, drop, is_empty,
}
use oj_vibe_coding.Base.Result.{other, Result, ok, err, ◌>>=◌}
use oj_vibe_coding.Text.{Bytes, bytes, eqb}

-- " \t\r\n"
abbrev pub is_blank : ℕ → Bool
is_blank c = c == b' ' || c == b'\t' || c == b'\r' || c == b'\n'

unfoldable pub trim_front : Bytes → Bytes
trim_front [] = []
trim_front (c ∷ s) = if is_blank c then trim_front s else c ∷ s

unfoldable pub trim_back : Bytes → Bytes
trim_back [] = []
trim_back (c ∷ s) = let rest = trim_back s in if is_blank c && is_empty rest then [] else c ∷ rest

unfoldable pub trim : Bytes → Bytes
trim value = trim_back (trim_front value)

-- The map of the entries; a later entry replaces an earlier one, so the last one stands first.
abbrev pub Values : Type 0
Values = List (Bytes × Bytes)

unfoldable pub find_value : Bytes → Values → Option Bytes
find_value key [] = none
find_value key ((k, v) ∷ rest) = if eqb k key then some v else find_value key rest

-- The text in front of the first `=`, and the text behind it.
unfoldable pub split_entry : Bytes → Option (Bytes × Bytes)
split_entry [] = none
split_entry (c ∷ s) =
    let rest = split_entry s in
    if c == b'='
    then some ([], s)
    else elim rest [ none ↦ none | some (key, value) ↦ some (c ∷ key, value) ]

abbrev last_or : Bytes → ℕ → ℕ
last_or [] d = d
last_or (c ∷ s) d = last_or s c

abbrev pub head_or : Bytes → ℕ → ℕ
head_or [] d = d
head_or (c ∷ s) d = c

abbrev is_quoted_by : ℕ → Bytes → Bool
is_quoted_by quote value = head_or value 0 == quote && last_or value 0 == quote

-- One pair of quotes around a value is taken off.
unfoldable pub unquote : Bytes → Bytes
unquote value =
    if leb 2 (length value) && (is_quoted_by b'"' value || is_quoted_by b'\'' value)
    then take (length value - 2) (drop 1 value)
    else value

-- One entry, the text around its first `=`.
unfoldable pub read_entry : Values → Option (Bytes × Bytes) → Result Values
read_entry values none = err (other (bytes "invalid dotenv entry"))
read_entry values (some (key, value)) =
    if is_empty (trim key)
    then err (other (bytes "invalid dotenv key"))
    else ok ((trim key, unquote (trim value)) ∷ values)

unfoldable pub read_lines : Values → List Bytes → Result Values
read_lines values [] = ok values
read_lines values (line ∷ rest) =
    let skipped = read_lines values rest in
    if is_empty (trim line) || head_or (trim line) 0 == b'#'
    then skipped
    else do values' ← read_entry values (split_entry (trim line)); read_lines values' rest

unfoldable pub load_dotenv : Option (List Bytes) → Result Values
load_dotenv none = ok []
load_dotenv (some lines) = read_lines [] lines
