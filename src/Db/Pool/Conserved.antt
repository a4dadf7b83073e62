-- ===== src/Db/Pool/Conserved.antt =====
-- The connections of the pool (backend/src/db/pool.cpp): none is leaked, and none is closed twice.
use oj_vibe_coding.Base.{
  ℕ, suc, ◌+◌, ◌≤◌, ◌≡◌, refl, sym, ap, ◌∙◌, subst, inl, inr, Bool, true, false, not, ◌||◌, List,
  [], ◌∷◌, ◌++◌, arith, Bool-cases, length, is_empty, length-append,
}
use oj_vibe_coding.Base.Result.{Result, ok, err}
use oj_vibe_coding.Db.Pool.{
  Calls, State, create_connection, capacity, idle_count, in_use_count, and_then, open_loop, fresh,
  ended, make_pool, Reach,
}
use oj_vibe_coding.Db.Pool.Invariant.{all_made, everywhere, Inv, Reach-Inv}
use mathlib.Core.List.{Perm, perm_append_singleton}
use mathlib.Core.List.Perm

-- What the constructor's loop keeps: `wanted` connections are still to be made.
record Filling (s : State) (wanted : ℕ) : Type 0 where
  once : Perm (all_made s.made) (everywhere s)
  nobody : (s.in_use ≡ 0) × (s.checking ≡ []) × (s.leases ≡ []) × (s.stopping ≡ false)
  room : length s.idle + wanted ≡ s.pool_size

open_loop-Inv :
    (wanted : List Calls) (s t : State)
    → Filling s (length wanted)
    → open_loop wanted s ≡ (ok tt, t)
    → Inv t
unfolding open_loop and_then create_connection
open_loop-Inv [] s t v e = subst Inv (ap (λ p. p.1) e) (record {
  once = v.once;
  counted = cc (v.nobody.0, v.nobody.1, v.nobody.2);
  bounded = omega (arith, v.room, v.nobody.0);
  emptied = λ stopped. cc (sym stopped ∙ v.nobody.3);
})
open_loop-Inv (calls ∷ rest) s t v e = elim (Bool-cases calls.initialises) [
  | inr none_made ↦ cc (rw none_made at e)
  | inl made ↦ elim (Bool-cases calls.connects) [
    | inr unconnected ↦ cc (rw (made, unconnected) at e)
    | inl connected ↦
        open_loop-Inv rest (record s { made = suc s.made; idle = s.idle ++ (s.made ∷ []) }) t
          (record {
            once = Perm.trans (Perm.cons s.made v.once) (
                Perm.append_right (s.checking ++ (s.leases ++ s.closed))
                  (Perm.symm (perm_append_singleton s.made s.idle)));
            nobody = v.nobody;
            room = omega (arith, v.room, length-append s.idle (s.made ∷ []));
          })
          (rw (made, connected) at e)
  ]
]

pub make_pool-Inv : (wanted : List Calls) (s : State) → make_pool true wanted ≡ (ok tt, s) → Inv s
unfolding make_pool
make_pool-Inv wanted s e =
    let (t, opened, same) = ended_ok (open_loop wanted (fresh wanted)) e in
    subst Inv same (
      open_loop-Inv wanted (fresh wanted) t
        (record { once = Perm.refl []; nobody = (refl, refl, refl, refl); room = omega arith })
        opened)
  where
    ended_ok :
        (r : Result (Unit {0}) × State)
        → ended r ≡ (ok tt, s)
        → (t : State) × (r ≡ (ok tt, t)) × (t ≡ s)
    ended_ok (ok u, t) h = (t, refl, ap (λ q. q.1) h)
    ended_ok (err x, t) h = cc (ap (λ q. q.0) h)

-- In every state that a pool can reach, by any interleaving of calls of `acquire`, of its health
-- checks with any answers, of returned leases and of `shutdown`: every connection that was ever made
-- is in exactly one place, idle, in a check, in a lease or closed, so none is leaked and none closed
-- twice; `in_use` counts the ones that are checked or leased, `idle_count` and `in_use_count` together
-- are at most `capacity`, and after `shutdown` nothing is idle.
pub Reach-conserved :
    (wanted : List Calls) (s t : State)
    → make_pool true wanted ≡ (ok tt, s)
    → Reach s t
    → Perm (all_made t.made) (everywhere t)
      × (in_use_count t ≡ length t.checking + length t.leases)
      × (idle_count t + in_use_count t ≤ capacity t)
      × (not t.stopping || is_empty t.idle ≡ true)
unfolding idle_count in_use_count capacity
Reach-conserved wanted s t made r =
    let v = Reach-Inv (make_pool-Inv wanted s made) r in
    (v.once, v.counted, v.bounded, by_flag t.stopping v.emptied)
  where
    by_flag : (b : Bool) → (b ≡ true → t.idle ≡ []) → not b || is_empty t.idle ≡ true
    by_flag true h = rw (h refl) refl
    by_flag false h = refl
