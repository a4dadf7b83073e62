-- ===== src/Db/Pool/Shrinking.antt =====
-- A connection that fails its health check and cannot be replaced is not replaced later
-- (backend/src/db/pool.cpp, `acquireFor`).
use oj_vibe_coding.Base.{
  ℕ, ◌+◌, ◌≤◌, ◌<◌, ◌≡◌, refl, sym, ap, subst, inl, inr, true, List, [], ◌∷◌, ◌++◌, arith,
  Bool-cases, length, length-append,
}
use oj_vibe_coding.Base.Result.{Exception, ok, err, other}
use oj_vibe_coding.Db.Pool.{
  Calls, State, create_connection, ensure_healthy, give_back, acquire_from, acquire, settle,
  finish_acquire, shutdown, idle_count, in_use_count, make_pool, Step, acquires, shuts_down, Reach,
  here, step, settles, gives_back, bytes,
}
use oj_vibe_coding.Db.Pool.Conserved.{make_pool-Inv}
use oj_vibe_coding.Db.Pool.Invariant.{Inv, Reach-Inv}

-- The connections that the pool counts on.
abbrev pub live : State → ℕ
live s = idle_count s + in_use_count s

acquire_from-live :
    (l : List ℕ) (s t : State) → s.idle ≡ l → acquire_from l s ≡ ok t → live t ≡ live s
unfolding acquire_from idle_count in_use_count
acquire_from-live [] s t e h = ground arith
acquire_from-live (c ∷ rest) s t e h = ground (arith, ap length e)

settle-live :
    (calls : Calls) (c : ℕ) (s : State) → live (settle (ensure_healthy calls c s)) ≤ live s
unfolding settle ensure_healthy create_connection idle_count in_use_count
settle-live calls c s = ground arith

give_back-live : (c : ℕ) (s : State) → 0 < s.in_use → live (give_back c s) ≤ live s
unfolding give_back idle_count in_use_count
give_back-live c s h = ground (arith, length-append s.idle (c ∷ []))

Step-live : {s t : State} → Step s t → Inv s → live t ≤ live s
unfolding acquire finish_acquire shutdown idle_count in_use_count
Step-live {s} {t} (acquires h) v = omega (arith, acquire_from-live s.idle s t refl h)
Step-live {s} {t} (settles xs c ys calls e same) v =
    subst (λ t. live t ≤ live s) (sym same) (settle-live calls c (record s { checking = xs ++ ys }))
Step-live {s} {t} (gives_back xs c ys e same) v =
    subst (λ t. live t ≤ live s) (sym same)
      (give_back-live c (record s { leases = xs ++ ys })
        (omega (arith, v.counted, ap length e, length-append xs (c ∷ ys))))
Step-live {s} {t} (shuts_down same) v = subst (λ t. live t ≤ live s) (sym same) (omega arith)

Reach-live : {s t : State} → Inv s → Reach s t → live t ≤ live s
Reach-live v here = omega arith
Reach-live v (step r st) = omega (arith, Reach-live v r, Step-live st (Reach-Inv v r))

acquire_from-err :
    (l : List ℕ) (s : State) → length l ≡ 0 → (e : Exception) × (acquire_from l s ≡ err e)
unfolding acquire_from
acquire_from-err (c ∷ l) s z = absurd (omega arith)
acquire_from-err [] s z = elim (Bool-cases s.stopping) [
  | inl stopped ↦ (other (bytes "database connection pool is shutting down"), rw stopped refl)
  | inr going ↦ (other (bytes "timed out acquiring database connection"), rw going refl)
]

-- Once a pool has reached a state in which no connection is idle or in use, `acquire` throws in every
-- state behind it, whatever the server answers by then.
pub acquire-exhausted :
    (wanted : List Calls) (p s t : State)
    → make_pool true wanted ≡ (ok tt, p)
    → Reach p s
    → idle_count s ≡ 0
    → in_use_count s ≡ 0
    → Reach s t
    → (e : Exception) × (acquire t ≡ err e)
unfolding acquire idle_count
acquire-exhausted wanted p s t made before no_idle no_use r =
    acquire_from-err t.idle t (
      omega (arith, Reach-live (Reach-Inv (make_pool-Inv wanted p made) before) r, no_idle, no_use))
