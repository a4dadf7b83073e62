-- ===== src/Auth/Tests.antt =====
-- The models of user names, passwords and session ids on concrete input.
use mathlib.Core.Option.{some-injective}
use oj_vibe_coding.Base.{
  ◌≤◌, ◌<◌, ◌≡◌, refl, subst, ◌↔◌, true, Option, some, List, [], ◌∷◌, arith, length, All,
}
use oj_vibe_coding.Base.Result.{ok}
use oj_vibe_coding.Text.{Bytes, bytes, is_digit, is_alpha}
use oj_vibe_coding.Auth.Validator.{validate_password}
use oj_vibe_coding.Auth.Validator.Laws.{any, validate_password_iff}
use oj_vibe_coding.Auth.Session.{Source, generate_session_id, is_session_id_shape}
use oj_vibe_coding.Auth.Session.Laws.{Delivers, generate-is_session_id_shape}
use oj_vibe_coding.Auth.Password.{
  Got, delivered, interrupted, random_hex_salt_bytes, build_salt, c_str, is_acceptable_crypt_result,
  hashed, hash_password, verify_password,
}
use oj_vibe_coding.Auth.Password.Laws.{IsCrypt, verify_password-hash_password, verify_password_iff}

validate_password_iff_example : (validate_password (bytes "secret99") ≡ ok tt) ↔ (
    (8 ≤ length (bytes "secret99"))
    × (length (bytes "secret99") ≤ 64)
    × (any is_alpha (bytes "secret99") ≡ true)
    × (any is_digit (bytes "secret99") ≡ true))
validate_password_iff_example = validate_password_iff (bytes "secret99")

-- A device that delivers three bytes at a time.
abbrev device : Source
device = record { opens = true; reads = λ k. 0 ∷ 127 ∷ 255 ∷ [] }

device-Delivers : Delivers device
device-Delivers k = ((λ e. cc), (omega arith, (omega arith, (omega arith, tt))))

generate-is_session_id_shape_example :
    (id : Bytes) × (generate_session_id device ≡ ok id) × (is_session_id_shape id ≡ true)
generate-is_session_id_shape_example = generate-is_session_id_shape device refl device-Delivers

-- A toy for crypt(3): the hash of every password is its length in `x`s behind a `$`.
abbrev toy_hash : Bytes → Bytes
toy_hash [] = b'$' ∷ []
toy_hash (c ∷ s) = b'x' ∷ toy_hash s

abbrev toy_crypt : Bytes → Bytes → Option Bytes
toy_crypt key setting = some (toy_hash key)

toy_hash-positive : (key : Bytes) → All (λ b. 0 < b) (toy_hash key)
toy_hash-positive [] = (omega arith, tt)
toy_hash-positive (c ∷ s) = (omega arith, toy_hash-positive s)

toy_hash-bytes : (key : Bytes) → All (λ b. b < 256) (toy_hash key)
toy_hash-bytes [] = (omega arith, tt)
toy_hash-bytes (c ∷ s) = (omega arith, toy_hash-bytes s)

toy_crypt-IsCrypt : IsCrypt toy_crypt
toy_crypt-IsCrypt = record {
  c_string =
      λ key setting hash e. subst (All (λ b. 0 < b)) (some-injective _ _ e) (toy_hash-positive key);
  reproduces = λ key setting hash e good. e;
}

abbrev salted : List Got
salted =
    delivered (1 ∷ 2 ∷ 3 ∷ 4 ∷ 5 ∷ 6 ∷ 7 ∷ [])
    ∷ interrupted
    ∷ delivered (8 ∷ 9 ∷ 10 ∷ 11 ∷ 12 ∷ 13 ∷ 14 ∷ 15 ∷ 16 ∷ [])
    ∷ []

toy-hashed : hash_password toy_crypt [] (bytes "ab") salted ≡ ok (bytes "xx$")
unfolding hash_password build_salt random_hex_salt_bytes hashed c_str is_acceptable_crypt_result
    bytes
toy-hashed = refl

verify_password-hash_password_example : verify_password toy_crypt (bytes "ab") (bytes "xx$") ≡ true
unfolding bytes
verify_password-hash_password_example =
    verify_password-hash_password toy_crypt [] (bytes "ab") salted (bytes "xx$") toy_crypt-IsCrypt
      toy-hashed (omega arith)

verify_password_iff_example : (verify_password toy_crypt (bytes "ab") (bytes "xx$") ≡ true) ↔ (
    (length (bytes "xx$") ≤ 256)
    × (is_acceptable_crypt_result (some (bytes "xx$")) ≡ true)
    × (toy_crypt (c_str (bytes "ab")) (c_str (bytes "xx$")) ≡ some (bytes "xx$")))
unfolding bytes
verify_password_iff_example =
    verify_password_iff toy_crypt [] (bytes "ab") (bytes "xx$")
      (λ key setting r e. subst (All (λ b. b < 256)) (some-injective _ _ e) (toy_hash-bytes key))
      (omega arith, (omega arith, (omega arith, tt)))
