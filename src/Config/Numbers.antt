-- ===== src/Config/Numbers.antt =====
-- `std::stoull` and `std::stoul` in base 10, by which the program reads numbers.
use oj_vibe_coding.Base.{
  ℕ, suc, ◌+◌, ◌-◌, ◌*◌, ◌%◌, ◌^◌, Bool, true, false, ◌&&◌, ◌||◌, [], ◌∷◌, ltb, leb, ◌==◌,
  if◌then◌else◌,
}
use oj_vibe_coding.Base.Result.{invalid_argument, other, Result, ok, err}
use oj_vibe_coding.Text.{Bytes, bytes, is_digit}

-- isspace in the "C" locale.
abbrev pub is_space : ℕ → Bool
is_space c = c == b' ' || (leb b'\t' c && leb c b'\r')

-- The blanks in front, and what follows.
unfoldable pub count_space : Bytes → ℕ × Bytes
count_space [] = (0, [])
count_space (c ∷ s) =
    let (n, rest) = count_space s in if is_space c then (suc n, rest) else (0, c ∷ s)

-- The digits in front: how many, and their value behind `acc`.
unfoldable pub read_digits : ℕ → Bytes → ℕ × ℕ
read_digits acc [] = (0, acc)
read_digits acc (c ∷ s) =
    let (n, value) = read_digits (acc * 10 + (c - 48)) s in
    if is_digit c then (suc n, value) else (0, acc)

-- An optional sign: 1 or 0 characters, and whether it is a minus.
unfoldable pub read_sign : Bytes → ℕ × Bool × Bytes
read_sign [] = (0, false, [])
read_sign (c ∷ s) =
    if c == b'-' then (1, true, s) else if c == b'+' then (1, false, s) else (0, false, c ∷ s)

-- The value and the characters used; a minus wraps around. `name` is the function that is called.
unfoldable pub unsigned_of : Bytes → Bytes → Result (ℕ × ℕ)
unsigned_of name text =
    let (blanks, signed) = count_space text in
    let (sign, minus, digits) = read_sign signed in
    let (used, value) = read_digits 0 digits in
    if used == 0
    then err (invalid_argument name)
    else if ltb 18_446_744_073_709_551_615 value
    then err (other name)
    else ok ((if minus then (2 ^ 64 - value) % 2 ^ 64 else value), blanks + (sign + used))

unfoldable pub stoull : Bytes → Result (ℕ × ℕ)
unfolding unsigned_of
stoull text = unsigned_of (bytes "stoull") text

-- `unsigned long` has 64 bits.
unfoldable pub stoul : Bytes → Result (ℕ × ℕ)
unfolding unsigned_of
stoul text = unsigned_of (bytes "stoul") text
