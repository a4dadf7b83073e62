-- ===== src/Http/Tests/Instances.antt =====
-- Stand-ins for the libraries: a JSON library whose texts all parse to one value, and numbers that are
-- whole.
use oj_vibe_coding.Base.{
  ℕ, suc, ◌+◌, ◌-◌, ◌*◌, ◌/◌, ◌≤◌, min, ◌≡◌, refl, Bool, true, false, some, List, [], ◌∷◌, arith,
  ltb, leb, if◌then◌else◌,
}
use oj_vibe_coding.Base.Result.{ok}
use oj_vibe_coding.Text.{Bytes, bytes, eqb}
use oj_vibe_coding.Http.Message.{non_negative, Json}
use oj_vibe_coding.Http.RateLimiter.{Double}
use oj_vibe_coding.Http.RateLimiter.Bounds.{RoundingLaws}
use oj_vibe_coding.Http.RateLimiter.Burst.{ExactLaws}

-- Lists are built from `nothing` and `entry`.
pub data Toy : Type 0 where
  nothing : Toy
  text : Bytes → Toy
  number : ℕ → Toy
  entry : Toy → Toy → Toy
  fields : (Bytes → Toy) → Toy

abbrev entries : Toy → List Toy
entries (entry t rest) = t ∷ entries rest
entries _ = []

abbrev is_text : Toy → Bool
is_text (text s) = true
is_text _ = false

abbrev text_of : Toy → Bytes
text_of (text s) = s
text_of _ = []

abbrev is_number : Toy → Bool
is_number (number n) = true
is_number _ = false

abbrev number_of : Toy → ℕ
number_of (number n) = n
number_of _ = 0

abbrev is_list : Toy → Bool
is_list (entry t rest) = true
is_list _ = false

abbrev is_fields : Toy → Bool
is_fields (fields f) = true
is_fields _ = false

abbrev field : Toy → Bytes → Toy
field (fields f) key = f key
field _ key = nothing

abbrev is_there : Toy → Bool
is_there nothing = false
is_there _ = true

abbrev one_case : Toy
one_case = fields λ key.
    if eqb key (bytes "input")
    then text (bytes "1 2")
    else if eqb key (bytes "expected_output")
    then text (bytes "3")
    else nothing

-- A problem and a submission in one.
abbrev pub toy_body : Toy
toy_body = fields λ key.
    if eqb key (bytes "title")
    then text (bytes "Sum")
    else if eqb key (bytes "description_md")
    then text (bytes "Add them.")
    else if eqb key (bytes "difficulty")
    then text (bytes "easy")
    else if eqb key (bytes "time_limit_ms")
    then number 1_000
    else if eqb key (bytes "memory_limit_mb")
    then number 64
    else if eqb key (bytes "testcases")
    then entry one_case nothing
    else if eqb key (bytes "problem_id")
    then number 4
    else if eqb key (bytes "lang")
    then text (bytes "cpp")
    else if eqb key (bytes "code")
    then text (bytes "int main() {}")
    else nothing

abbrev pub toy_json : Json
toy_json = record {
  Value = Toy;
  parse = λ raw. some toy_body;
  parse_errors = λ raw. [];
  is_object = is_fields;
  is_member = λ v key. is_there (field v key);
  member = field;
  is_string = is_text;
  as_string = text_of;
  is_integral = is_number;
  as_int64 = λ v. ok (non_negative (number_of v));
  as_uint64 = λ v. ok (number_of v);
  is_bool = λ v. false;
  as_bool = λ v. false;
  is_array = is_list;
  elements = entries;
  object_value = fields λ key. nothing;
  array_value = nothing;
  string_value = text;
  uint_value = number;
  bool_value = λ b. nothing;
  set_member = λ v key w. fields λ k. if eqb k key then w else field v k;
  append = λ v w. entry w v;
  write = text_of;
}

abbrev pub whole_seconds : Double
whole_seconds = record {
  F = ℕ;
  of_ℕ = λ n. n;
  seconds = λ n. n / 1_000_000_000;
  add = λ a b. a + b;
  sub = λ a b. a - b;
  mul = λ a b. a * b;
  div = λ a b. a / b;
  min = λ a b. min a b;
  less = ltb;
  leq = leb;
  ceil_long = non_negative;
}

leb-true : (a b : ℕ) → a ≤ b → leb a b ≡ true
leb-true a b h = ground arith

zero_le : (n : ℕ) → 0 ≤ n
zero_le n = omega arith

pub whole_seconds-RoundingLaws : RoundingLaws whole_seconds
whole_seconds-RoundingLaws = record {
  trans = λ a b c h k. ground arith;
  min_left = λ a b. leb-true (min a b) a (omega arith);
  min_glb = λ a b c h k. ground arith;
  of_ℕ_refl = λ n. leb-true n n (omega arith);
  of_ℕ_nonneg = λ n. leb-true 0 n (omega arith);
  seconds_nonneg = λ n. leb-true 0 (n / 1_000_000_000) (omega arith);
  add_nonneg = λ a b h k. leb-true 0 (a + b) (omega arith);
  mul_nonneg = λ a b h k. leb-true 0 (a * b) (zero_le (a * b));
  sub_one_nonneg = λ a h. leb-true 0 (a - 1) (omega arith);
  sub_one_le = λ a. leb-true (a - 1) a (omega arith);
}

pub whole_seconds-ExactLaws : ExactLaws whole_seconds 100
whole_seconds-ExactLaws = record {
  no_time = refl;
  sub_one = λ n h. omega arith;
  one_le = λ n h. leb-true 1 (suc n) (omega arith);
  one_gt_zero = refl;
}
