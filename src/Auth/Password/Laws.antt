-- ===== src/Auth/Password/Laws.antt =====
-- Passwords (backend/src/auth/password.cpp): the comparison in constant time is equality, and a
-- password is verified against its own hash.
use oj_vibe_coding.Base.{
  ℕ, zero, suc, ◌/◌, ◌≤◌, ◌<◌, ◌≡◌, refl, sym, ap, ◌∙◌, subst, ◌↔◌, inl, inr, true, false, Option,
  none, some, List, [], ◌∷◌, arith, Bool-cases, length, is_empty, All,
}
use oj_vibe_coding.Base.Result.{Result, ok, err, ◌>>=◌, ok-injective}
use oj_vibe_coding.Text.{Bytes}
use oj_vibe_coding.Auth.Password.{
  Got, build_salt, xor_bits, or_bits, diff_loop, constant_time_equals, c_str,
  is_acceptable_crypt_result, hash_password, verify_password, hashed, matches,
}

-- A number of `width` bits.
abbrev Fits : ℕ → ℕ → Type 0
Fits zero n = n ≡ 0
Fits (suc width) n = Fits width (n / 2)

byte-Fits : (b : ℕ) → b < 256 → Fits 8 b
byte-Fits b h = omega (arith, h)

xor_bits-eq-zero : (width a b : ℕ) → Fits width a → Fits width b → xor_bits width a b ≡ 0 → a ≡ b
unfolding xor_bits
xor_bits-eq-zero zero a b ha hb e = ha ∙ sym hb
xor_bits-eq-zero (suc width) a b ha hb e =
    omega (arith, xor_bits-eq-zero width (a / 2) (b / 2) ha hb (omega arith), e)

xor_bits_self : (width a : ℕ) → xor_bits width a a ≡ 0
unfolding xor_bits
xor_bits_self zero a = refl
xor_bits_self (suc width) a = omega (arith, xor_bits_self width (a / 2))

xor_bits-Fits : (width a b : ℕ) → Fits width (xor_bits width a b)
unfolding xor_bits
xor_bits-Fits zero a b = refl
xor_bits-Fits (suc width) a b =
    subst (Fits width) (omega arith) (xor_bits-Fits width (a / 2) (b / 2))

or_bits-eq-zero :
    (width a b : ℕ) → Fits width a → Fits width b → or_bits width a b ≡ 0 → (a ≡ 0) × (b ≡ 0)
unfolding or_bits
or_bits-eq-zero zero a b ha hb e = (ha, hb)
or_bits-eq-zero (suc width) a b ha hb e =
    let (l, r) = or_bits-eq-zero width (a / 2) (b / 2) ha hb (omega arith) in
    (omega arith, omega arith)

or_bits_zero : (width : ℕ) → or_bits width 0 0 ≡ 0
unfolding or_bits
or_bits_zero zero = refl
or_bits_zero (suc width) = omega (arith, or_bits_zero width)

or_bits-Fits : (width a b : ℕ) → Fits width (or_bits width a b)
unfolding or_bits
or_bits-Fits zero a b = refl
or_bits-Fits (suc width) a b = subst (Fits width) (omega arith) (or_bits-Fits width (a / 2) (b / 2))

diff_loop-eq-zero :
    (diff : ℕ) (s t : Bytes)
    → Fits 8 diff
    → All (λ b. b < 256) s
    → All (λ b. b < 256) t
    → length s ≡ length t
    → diff_loop diff s t ≡ 0
    → (diff ≡ 0) × (s ≡ t)
unfolding diff_loop
diff_loop-eq-zero diff [] [] hd hs ht e z = (z, refl)
diff_loop-eq-zero diff [] (b ∷ t) hd hs ht e z = absurd (omega arith)
diff_loop-eq-zero diff (a ∷ s) [] hd hs ht e z = absurd (omega arith)
diff_loop-eq-zero diff (a ∷ s) (b ∷ t) hd hs ht e z =
    let (now, rest) =
      diff_loop-eq-zero (or_bits 8 diff (xor_bits 8 a b)) s t (or_bits-Fits 8 diff (xor_bits 8 a b))
        hs.1 ht.1 (omega arith) z in
    let (before, same) = or_bits-eq-zero 8 diff (xor_bits 8 a b) hd (xor_bits-Fits 8 a b) now in
    let heads = xor_bits-eq-zero 8 a b (byte-Fits a hs.0) (byte-Fits b ht.0) same in
    (before, rw (heads, rest) refl)

diff_loop_self : (s : Bytes) → diff_loop 0 s s ≡ 0
unfolding diff_loop
diff_loop_self [] = refl
diff_loop_self (a ∷ s) = rw (xor_bits_self 8 a, or_bits_zero 8) (diff_loop_self s)

constant_time_equals-parts :
    (a b : Bytes) → constant_time_equals a b ≡ true → (length a ≡ length b) × (diff_loop 0 a b ≡ 0)
unfolding constant_time_equals
constant_time_equals-parts a b e = ground arith

constant_time_equals_refl : (a : Bytes) → constant_time_equals a a ≡ true
unfolding constant_time_equals
constant_time_equals_refl a = ground (arith, diff_loop_self a)

-- On strings of bytes, the comparison in constant time holds exactly for equal strings.
pub constant_time_equals_iff :
    (a b : Bytes)
    → All (λ c. c < 256) a
    → All (λ c. c < 256) b
    → (constant_time_equals a b ≡ true) ↔ (a ≡ b)
constant_time_equals_iff a b ha hb = (
  λ e.
      let (size, same) = constant_time_equals-parts a b e in
      (diff_loop-eq-zero 0 a b (byte-Fits 0 (omega arith)) ha hb size same).1,
  λ e. subst (λ c. constant_time_equals a c ≡ true) e (constant_time_equals_refl a),
)

-- What crypt(3) documents: a result that is no error is a C string, and the same key with that
-- result as its setting gives the result again.
pub record IsCrypt (crypt : Bytes → Bytes → Option Bytes) : Type 0 where
  pub c_string : (key setting hash : Bytes) → crypt key setting ≡ some hash → All (λ b. 0 < b) hash
  pub reproduces :
      (key setting hash : Bytes)
      → crypt key setting ≡ some hash
      → is_acceptable_crypt_result (some hash) ≡ true
      → crypt key hash ≡ some hash

c_str_lem : (s : Bytes) → All (λ b. 0 < b) s → c_str s ≡ s
unfolding c_str
c_str_lem [] h = refl
c_str_lem (b ∷ s) h = ground (arith, c_str_lem s h.1, h.0)

acceptable-not-is_empty :
    (s : Bytes) → is_acceptable_crypt_result (some s) ≡ true → is_empty s ≡ false
unfolding is_acceptable_crypt_result
acceptable-not-is_empty [] h = cc
acceptable-not-is_empty (b ∷ s) h = refl

module _ (crypt : Bytes → Bytes → Option Bytes) (errors : Bytes) where
  verify_password-eq-true :
      (password hash : Bytes)
      → length hash ≤ 256
      → is_acceptable_crypt_result (some hash) ≡ true
      → crypt (c_str password) (c_str hash) ≡ some hash
      → verify_password crypt password hash ≡ true
  unfolding verify_password matches
  verify_password-eq-true password hash fits good e =
      rw (e, good)
        (ground (arith, fits, acceptable-not-is_empty hash good, constant_time_equals_refl hash))

  hashed-eq-ok :
      (result : Option Bytes) (hash : Bytes)
      → hashed crypt errors result ≡ ok hash
      → (result ≡ some hash) × (is_acceptable_crypt_result (some hash) ≡ true)
  unfolding hashed
  hashed-eq-ok none hash e = cc
  hashed-eq-ok (some result) hash e = elim (Bool-cases (is_acceptable_crypt_result (some result))) [
    | inl good ↦
        let same = ok-injective (rw good at e) in
        (ap some same, subst (λ h. is_acceptable_crypt_result (some h) ≡ true) same good)
    | inr bad ↦ cc (rw bad at e)
  ]

  hash_password-eq-ok :
      (password : Bytes) (calls : List Got) (hash : Bytes)
      → hash_password crypt errors password calls ≡ ok hash
      → (setting : Bytes) × (crypt (c_str password) setting ≡ some hash)
        × (is_acceptable_crypt_result (some hash) ≡ true)
  unfolding hash_password
  hash_password-eq-ok password calls hash e = with_salt (build_salt calls) e
    where
      with_salt :
          (r : Result Bytes)
          → (r >>= λ salt. hashed crypt errors (crypt (c_str password) (c_str salt))) ≡ ok hash
          → (setting : Bytes) × (crypt (c_str password) setting ≡ some hash)
            × (is_acceptable_crypt_result (some hash) ≡ true)
      with_salt (ok salt) f =
          let (made, good) = hashed-eq-ok (crypt (c_str password) (c_str salt)) hash f in
          (c_str salt, made, good)
      with_salt (err x) f = cc

  -- When crypt does what crypt(3) documents, a hash of at most 256 bytes that was made from a password
  -- verifies that password.
  pub verify_password-hash_password :
      (password : Bytes) (calls : List Got) (hash : Bytes)
      → IsCrypt crypt
      → hash_password crypt errors password calls ≡ ok hash
      → length hash ≤ 256
      → verify_password crypt password hash ≡ true
  verify_password-hash_password password calls hash documented e fits =
      let (setting, made, good) = hash_password-eq-ok password calls hash e in
      let whole = c_str_lem hash (documented.c_string (c_str password) setting hash made) in
      verify_password-eq-true password hash fits good
        (rw whole (documented.reproduces (c_str password) setting hash made good))

  matches-eq-true :
      (result : Option Bytes) (hash : Bytes)
      → ((r : Bytes) → result ≡ some r → All (λ b. b < 256) r)
      → All (λ b. b < 256) hash
      → matches hash result ≡ true
      → (result ≡ some hash) × (is_acceptable_crypt_result (some hash) ≡ true)
  unfolding matches
  matches-eq-true none hash bounded h e = cc
  matches-eq-true (some r) hash bounded h e =
      elim (Bool-cases (is_acceptable_crypt_result (some r))) [
        | inl good ↦
            let same = (constant_time_equals_iff r hash (bounded r refl) h).0 (rw good at e) in
            (ap some same, subst (λ c. is_acceptable_crypt_result (some c) ≡ true) same good)
        | inr bad ↦ cc (rw bad at e)
      ]

  verify_password-parts :
      (password hash : Bytes)
      → verify_password crypt password hash ≡ true
      → (length hash ≤ 256) × (matches hash (crypt (c_str password) (c_str hash)) ≡ true)
  unfolding verify_password
  verify_password-parts password hash e = ground arith

  -- When crypt gives strings of bytes, a password is verified against a string of bytes exactly if that
  -- has at most 256 bytes, is no error string of crypt, and is what crypt gives for the password with
  -- the string as the setting (both up to their first zero byte).
  pub verify_password_iff :
      (password hash : Bytes)
      → ((key setting r : Bytes) → crypt key setting ≡ some r → All (λ b. b < 256) r)
      → All (λ b. b < 256) hash
      → (verify_password crypt password hash ≡ true) ↔ (
          (length hash ≤ 256)
          × (is_acceptable_crypt_result (some hash) ≡ true)
          × (crypt (c_str password) (c_str hash) ≡ some hash))
  verify_password_iff password hash bounded h = (
    λ e.
        let (fits, match) = verify_password-parts password hash e in
        let (made, good) =
          matches-eq-true (crypt (c_str password) (c_str hash)) hash
            (bounded (c_str password) (c_str hash)) h match in
        (fits, good, made),
    λ (fits, good, made). verify_password-eq-true password hash fits good made,
  )
