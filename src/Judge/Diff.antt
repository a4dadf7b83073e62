-- ===== src/Judge/Diff.antt =====
-- backend/src/judge/diff.cpp
pub mod Laws
use oj_vibe_coding.Base.{ℕ, zero, suc, Bool, ◌||◌, ◌==◌, if◌then◌else◌, length, take, get_or}
use oj_vibe_coding.Text.{Bytes, eqb}

-- `ch == ' ' || ch == '\t' || ch == '\n' || ch == '\r'`
abbrev pub is_trailing_space : ℕ → Bool
is_trailing_space ch = ch == b' ' || ch == b'\t' || ch == b'\n' || ch == b'\r'

-- The loop of `trimTrailingWhitespace`: `end` on entry, and where the loop leaves it.
pub trim_end : Bytes → ℕ → ℕ
trim_end value zero = 0
trim_end value (suc n) = if is_trailing_space (get_or value n 0) then trim_end value n else suc n

pub trim_trailing_whitespace : Bytes → Bytes
unfolding trim_end
trim_trailing_whitespace value = take (trim_end value (length value)) value

unfoldable pub outputs_match : Bytes → Bytes → Bool
unfolding trim_trailing_whitespace
outputs_match expected actual =
    eqb (trim_trailing_whitespace expected) (trim_trailing_whitespace actual)
