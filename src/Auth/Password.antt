-- ===== src/Auth/Password.antt =====
-- backend/src/auth/password.hpp and password.cpp, over crypt(3) and getrandom(2), which are arguments.
-- The mutex around crypt makes each call atomic, so crypt is a function.
pub mod Laws
use oj_vibe_coding.Base.{
  ℕ, zero, suc, ◌+◌, ◌-◌, ◌*◌, ◌/◌, ◌%◌, max, Bool, false, not, ◌&&◌, ◌||◌, Option, none, some,
  List, [], ◌∷◌, ◌++◌, ltb, ◌==◌, if◌then◌else◌, length, take, is_empty,
}
use oj_vibe_coding.Base.Result.{invalid_argument, other, Result, ok, err, ◌>>=◌, ◌>>◌}
use oj_vibe_coding.Text.{Bytes, bytes}
use oj_vibe_coding.Auth.Session.{decimal, hex_bytes}

abbrev pub bcrypt_rounds : ℕ
bcrypt_rounds = 12

abbrev pub salt_bytes : ℕ
salt_bytes = 16

abbrev pub max_hash_length : ℕ
max_hash_length = 256

abbrev pub bcrypt_prefix : Bytes
bcrypt_prefix = bytes "$2b$"

-- What a call of getrandom gives: some bytes, -1 with errno EINTR, or -1 with another errno.
pub data Got : Type 0 where
  delivered : Bytes → Got
  interrupted : Got
  failed : Bytes → Got

-- The loop that fills the buffer, over the calls that getrandom answers; `need` bytes are missing.
pub fill_loop : ℕ → List Got → Result Bytes
fill_loop zero calls = ok []
fill_loop (suc need) [] = err (other (bytes "out of fuel"))
fill_loop (suc need) (interrupted ∷ calls) = fill_loop (suc need) calls
fill_loop (suc need) (failed reason ∷ calls) = err (other (bytes "getrandom failed: " ++ reason))
fill_loop (suc need) (delivered got ∷ calls) =
    let taken = take (suc need) got in
    let rest = fill_loop (suc need - length taken) calls in do later ← rest; ok (taken ++ later)

unfoldable pub random_hex_salt_bytes : ℕ → List Got → Result Bytes
unfolding fill_loop
random_hex_salt_bytes count calls =
    if count == 0 || ltb 32 count
    then err (invalid_argument (bytes "salt length out of range"))
    else (do buffer ← fill_loop count calls; ok (hex_bytes buffer))

unfoldable pub build_salt : List Got → Result Bytes
build_salt calls = do
  salt ← random_hex_salt_bytes salt_bytes calls
  ok (bcrypt_prefix ++ decimal bcrypt_rounds ++ bytes "$" ++ salt)

-- `^` and `|` on `width` bits.
unfoldable pub xor_bits : ℕ → ℕ → ℕ → ℕ
xor_bits zero a b = 0
xor_bits (suc width) a b = (a + b) % 2 + 2 * xor_bits width (a / 2) (b / 2)

unfoldable pub or_bits : ℕ → ℕ → ℕ → ℕ
or_bits zero a b = 0
or_bits (suc width) a b = max (a % 2) (b % 2) + 2 * or_bits width (a / 2) (b / 2)

-- The loop over two strings of one length, with `diff` so far.
unfoldable pub diff_loop : ℕ → Bytes → Bytes → ℕ
diff_loop diff (a ∷ s) (b ∷ t) = diff_loop (or_bits 8 diff (xor_bits 8 a b)) s t
diff_loop diff _ _ = diff

unfoldable pub constant_time_equals : Bytes → Bytes → Bool
constant_time_equals a b =
    let diff = diff_loop 0 a b in if not (length a == length b) then false else diff == 0

-- What a C function sees of a string: the bytes in front of the first 0.
unfoldable pub c_str : Bytes → Bytes
c_str [] = []
c_str (b ∷ s) = let rest = c_str s in if b == 0 then [] else b ∷ rest

unfoldable pub is_acceptable_crypt_result : Option Bytes → Bool
is_acceptable_crypt_result none = false
is_acceptable_crypt_result (some []) = false
is_acceptable_crypt_result (some (b ∷ s)) = not (b == b'*') && not (b == 0)

-- `crypt` takes the key and the setting, and gives nullptr or a string; `errors` is `strerror(errno)`
-- after it.
module _ (crypt : Bytes → Bytes → Option Bytes) (errors : Bytes) where
  -- What becomes of the result of crypt.
  unfoldable pub hashed : Option Bytes → Result Bytes
  hashed none = err (other (bytes "crypt(hash) failed: " ++ errors))
  hashed (some result) =
      if not (is_acceptable_crypt_result (some result))
      then err (other (bytes "crypt(hash) failed: " ++ errors))
      else ok result

  unfoldable pub hash_password : Bytes → List Got → Result Bytes
  hash_password password calls = do
    salt ← build_salt calls
    hashed (crypt (c_str password) (c_str salt))

-- The result of crypt is no error, and is the hash.
unfoldable pub matches : Bytes → Option Bytes → Bool
matches hash none = false
matches hash (some result) =
    if not (is_acceptable_crypt_result (some result))
    then false
    else constant_time_equals result hash

unfoldable pub verify_password : (Bytes → Bytes → Option Bytes) → Bytes → Bytes → Bool
unfolding matches
verify_password crypt password hash =
    if is_empty hash || ltb max_hash_length (length hash)
    then false
    else matches hash (crypt (c_str password) (c_str hash))
