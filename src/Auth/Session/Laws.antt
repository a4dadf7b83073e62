-- ===== src/Auth/Session/Laws.antt =====
-- Session ids (backend/src/auth/session.cpp): those that are generated have the accepted shape.
use oj_vibe_coding.Base.{
  ℕ, zero, suc, ◌-◌, ◌*◌, ◌/◌, ◌%◌, ◌≤◌, ◌<◌, ◌≡◌, refl, ◌≢◌, ◌↔◌, true, [], ◌∷◌, ◌++◌, arith,
  length, take, all, length-append, length-take, All, All-append,
}
use oj_vibe_coding.Base.Result.{ok}
use oj_vibe_coding.Text.{Bytes, is_xdigit}
use oj_vibe_coding.Auth.Session.{
  Source, hex_digit, hex_bytes, random_hex, generate_session_id, is_session_id_shape, read_loop,
}

-- Every byte that a read delivers is one, and every read delivers some.
abbrev pub Delivers : Source → Type 0
Delivers source = (k : ℕ) → (source.reads k ≢ []) × All (λ b. b < 256) (source.reads k)

take-All : (P : ℕ → Type 0) (n : ℕ) (s : Bytes) → All P s → All P (take n s)
take-All P zero s h = tt
take-All P (suc n) [] h = tt
take-All P (suc n) (b ∷ s) h = (h.0, take-All P n s h.1)

read_loop_lem :
    (fuel need : ℕ) (source : Source) (k : ℕ)
    → need ≤ fuel
    → Delivers source
    → (s : Bytes) × (read_loop fuel need source k ≡ ok s) × (length s ≡ need) × All (λ b. b < 256) s
unfolding read_loop
read_loop_lem fuel zero source k h d = ([], refl, refl, tt)
read_loop_lem zero (suc need) source k h d = absurd (omega arith)
read_loop_lem (suc fuel) (suc need) source k h d =
    by_read (λ n m. read_loop_lem fuel n source (suc k) m d) (source.reads k) refl (d k).0 (d k).1
  where
    by_read :
        ((n : ℕ)
          → n ≤ fuel
          → (s : Bytes) × (read_loop fuel n source (suc k) ≡ ok s)
            × (length s ≡ n)
            × All (λ b. b < 256) s)
        → (l : Bytes) → source.reads k ≡ l
        → l ≢ []
        → All (λ b. b < 256) l
        → (s : Bytes) × (read_loop (suc fuel) (suc need) source k ≡ ok s)
          × (length s ≡ suc need)
          × All (λ b. b < 256) s
    by_read ih [] e some_read bytes_read = absurd (some_read refl)
    by_read ih (b ∷ l) e some_read bytes_read =
        let left = need - length (take need l) in
        let (s, later, size, byte) = ih left (omega arith) in
        let count : suc need - length (b ∷ take need l) ≡ left = omega arith in
        (
          (b ∷ take need l) ++ s,
          rw (e, read_loop) (rw count (rw later refl)),
          omega (arith, length-append (b ∷ take need l) s, length-take need l),
          All-append (λ b. b < 256) (b ∷ take need l) s
              (bytes_read.0, take-All (λ b. b < 256) need l bytes_read.1) byte,
        )

hex_digit-is_xdigit : (n : ℕ) → n < 16 → is_xdigit (hex_digit n) ≡ true
hex_digit-is_xdigit n h = ground arith

hex_bytes_lem :
    (s : Bytes)
    → All (λ b. b < 256) s
    → (length (hex_bytes s) ≡ 2 * length s) × (all is_xdigit (hex_bytes s) ≡ true)
unfolding hex_bytes
hex_bytes_lem [] h = (refl, refl)
hex_bytes_lem (b ∷ s) h =
    let (size, shape) = hex_bytes_lem s h.1 in
    (
      omega arith,
      rw
          (
            hex_digit-is_xdigit (b / 16) (omega (arith, h.0)),
            hex_digit-is_xdigit (b % 16) (omega arith),
          )
          shape,
    )

random_hex-ok :
    (count : ℕ) (source : Source) (s : Bytes)
    → 0 < count
    → count ≤ 32
    → source.opens ≡ true
    → read_loop count count source 0 ≡ ok s
    → random_hex count source ≡ ok (hex_bytes s)
unfolding random_hex
random_hex-ok count source s some_byte fits opens e = ground arith

-- When the device opens and every read delivers some bytes, a session id is generated, and it has the
-- shape that `isSessionIdShape` accepts: 64 hexadecimal digits.
pub generate-is_session_id_shape :
    (source : Source)
    → source.opens ≡ true
    → Delivers source
    → (id : Bytes) × (generate_session_id source ≡ ok id) × (is_session_id_shape id ≡ true)
unfolding generate_session_id is_session_id_shape
generate-is_session_id_shape source opens d =
    let (s, e, size, byte) = read_loop_lem 32 32 source 0 (omega arith) d in
    let (hex_size, shape) = hex_bytes_lem s byte in
    let full : length (hex_bytes s) ≡ 64 = omega arith in
    (
      hex_bytes s,
      random_hex-ok 32 source s (omega arith) (omega arith) opens e,
      rw (full, shape) refl,
    )

-- A value of the accepted shape has 64 bytes, each a hexadecimal digit: none of them is special in a
-- header or in SQL.
pub is_session_id_shape_iff :
    (value : Bytes)
    → (is_session_id_shape value ≡ true) ↔ ((length value ≡ 64) × (all is_xdigit value ≡ true))
unfolding is_session_id_shape
is_session_id_shape_iff value = ground arith
