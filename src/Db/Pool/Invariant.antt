-- ===== src/Db/Pool/Invariant.antt =====
-- The invariant of the connection pool (backend/src/db/pool.cpp), kept by every step.
use oj_vibe_coding.Base.{
  ℕ, zero, suc, ◌+◌, ◌-◌, ◌≤◌, ◌<◌, ◌≡◌, refl, sym, ap, subst, inl, inr, Bool, true, false, List,
  [], ◌∷◌, ◌++◌, arith, ltb, Bool-cases, length, length-append,
}
use oj_vibe_coding.Base.Result.{ok, ok-injective}
use oj_vibe_coding.Db.Pool.{
  here, State, acquire_from, settle, close, ensure_healthy, create_connection, Calls, give_back,
  shutdown, acquire, close_all, Reach, finish_acquire, step, Step, acquires, settles, gives_back,
  shuts_down,
}
use mathlib.Core.List.{Perm, perm_middle, perm_append_singleton}
use mathlib.Core.List.Perm

-- The handles that were made, the last one first.
abbrev pub all_made : ℕ → List ℕ
all_made zero = []
all_made (suc n) = n ∷ all_made n

-- Where connections are.
abbrev pub everywhere : State → List ℕ
everywhere s = s.idle ++ (s.checking ++ (s.leases ++ s.closed))

pub record Inv (s : State) : Type 0 where
  pub once : Perm (all_made s.made) (everywhere s)
  pub counted : s.in_use ≡ length s.checking + length s.leases
  pub bounded : length s.idle + s.in_use ≤ s.pool_size
  pub emptied : s.stopping ≡ true → s.idle ≡ []

-- The front of a list, moved behind some others.
moved : (c : ℕ) (xs ys : List ℕ) → Perm (c ∷ (xs ++ ys)) (xs ++ (c ∷ ys))
moved c xs ys = Perm.symm (perm_middle xs ys)

-- A connection in front of two lists, moved into the second one.
behind :
    {c : ℕ} (xs : List ℕ) {ys zs : List ℕ} → Perm (c ∷ ys) zs → Perm (c ∷ (xs ++ ys)) (xs ++ zs)
behind xs p = Perm.trans (Perm.symm (perm_middle xs _)) (Perm.append_left xs p)

within : (c : ℕ) (xs ys rest : List ℕ) → Perm (c ∷ ((xs ++ ys) ++ rest)) ((xs ++ (c ∷ ys)) ++ rest)
within c xs ys rest = Perm.append_right rest (moved c xs ys)

closing : (c : ℕ) (s : State) → Perm (c ∷ everywhere s) (everywhere (close c s))
closing c s = behind s.idle (behind s.checking (moved c s.leases s.closed))

leasing :
    (c : ℕ) (s : State) → Perm (c ∷ everywhere s) (everywhere (record s { leases = c ∷ s.leases }))
leasing c s = behind s.idle (behind s.checking (Perm.refl _))

unchecking :
    (xs : List ℕ) (c : ℕ) (ys : List ℕ) (s : State)
    → s.checking ≡ xs ++ (c ∷ ys)
    → Perm (everywhere s) (c ∷ everywhere (record s { checking = xs ++ ys }))
unchecking xs c ys s e =
    subst
      (λ l.
        Perm (s.idle ++ (l ++ (s.leases ++ s.closed)))
          (c ∷ everywhere (record s { checking = xs ++ ys })))
      (sym e) (Perm.symm (behind s.idle (within c xs ys (s.leases ++ s.closed))))

returning :
    (xs : List ℕ) (c : ℕ) (ys : List ℕ) (s : State)
    → s.leases ≡ xs ++ (c ∷ ys)
    → Perm (everywhere s) (c ∷ everywhere (record s { leases = xs ++ ys }))
returning xs c ys s e =
    subst
      (λ l.
        Perm (s.idle ++ (s.checking ++ (l ++ s.closed)))
          (c ∷ everywhere (record s { leases = xs ++ ys })))
      (sym e) (Perm.symm (behind s.idle (behind s.checking (within c xs ys s.closed))))

acquire_from-Inv : (l : List ℕ) (s t : State) → s.idle ≡ l → acquire_from l s ≡ ok t → Inv s → Inv t
unfolding acquire_from
acquire_from-Inv [] s t e h v = ground arith
acquire_from-Inv (c ∷ rest) s t e h v = elim (Bool-cases s.stopping) [
  | inl stopped ↦ cc (rw stopped at h)
  | inr going ↦ subst Inv (ok-injective (rw going at h)) (record {
    once =
        Perm.trans
          (subst (λ l. Perm (all_made s.made) (l ++ (s.checking ++ (s.leases ++ s.closed)))) e
            v.once)
          (moved c rest (s.checking ++ (s.leases ++ s.closed)));
    counted = omega (arith, v.counted);
    bounded = omega (arith, v.bounded, ap length e);
    emptied = λ stopped. cc stopped;
  })
]

-- What is left of the invariant while one connection, `c`, is in no list.
record Open (s : State) (c : ℕ) : Type 0 where
  once : Perm (all_made s.made) (c ∷ everywhere s)
  counted : s.in_use ≡ suc (length s.checking + length s.leases)
  bounded : length s.idle + s.in_use ≤ s.pool_size
  emptied : s.stopping ≡ true → s.idle ≡ []

leased : (c : ℕ) (s : State) → Open s c → Inv (record s { leases = c ∷ s.leases })
leased c s v = record {
  once = Perm.trans v.once (leasing c s);
  counted = omega (arith, v.counted);
  bounded = v.bounded;
  emptied = v.emptied;
}

dropped : (c : ℕ) (s : State) → Open s c → Inv (close c (record s { in_use = s.in_use - 1 }))
dropped c s v = record {
  once = Perm.trans v.once (closing c s);
  counted = omega (arith, v.counted);
  bounded = omega (arith, v.bounded);
  emptied = v.emptied;
}

-- Closing one connection and making another.
replaced : (c : ℕ) (s : State) → Open s c → Open (close c (record s { made = suc s.made })) s.made
replaced c s v = record {
  once = Perm.cons s.made (Perm.trans v.once (closing c s));
  counted = v.counted;
  bounded = v.bounded;
  emptied = v.emptied;
}

settle-Inv :
    (calls : Calls) (c : ℕ) (s : State) → Open s c → Inv (settle (ensure_healthy calls c s))
unfolding settle ensure_healthy create_connection
settle-Inv calls c s v = ground (
  arith,
  leased c s v,
  dropped c s v,
  leased s.made _ (replaced c s v),
  dropped s.made _ (replaced c s v),
)

all_closed :
    (l chk lea cl : List ℕ) → Perm (l ++ (chk ++ (lea ++ cl))) (chk ++ (lea ++ close_all l cl))
unfolding close_all
all_closed [] chk lea cl = Perm.refl _
all_closed (c ∷ l) chk lea cl =
    Perm.trans (behind l (behind chk (moved c lea cl))) (all_closed l chk lea (c ∷ cl))

emptied-Inv : (s : State) → Inv s → Inv (shutdown s)
unfolding shutdown
emptied-Inv s v = record {
  once = Perm.trans v.once (all_closed s.idle s.checking s.leases s.closed);
  counted = v.counted;
  bounded = omega (arith, v.bounded);
  emptied = λ _. refl;
}

give_back-Inv : (c : ℕ) (s : State) → Open s c → Inv (give_back c s)
unfolding give_back
give_back-Inv c s v = by_flag s.stopping refl
  where
    in_front : 0 < s.in_use
    in_front = omega (arith, v.counted)

    ltb_true : 0 < s.in_use → ltb 0 s.in_use ≡ true
    ltb_true h = ground arith

    by_flag : (b : Bool) → s.stopping ≡ b → Inv (give_back c s)
    by_flag true e = ground (arith, e, in_front, dropped c s v)
    by_flag false e =
        rw (e, (ltb_true in_front))
          (record {
            once = Perm.trans v.once (
                Perm.append_right (s.checking ++ (s.leases ++ s.closed))
                  (Perm.symm (perm_append_singleton c s.idle)));
            counted = omega (arith, v.counted);
            bounded = omega (arith, v.bounded, v.counted, length-append s.idle (c ∷ []));
            emptied = λ stopped. cc stopped;
          })

pub Step-Inv : {s t : State} → Step s t → Inv s → Inv t
unfolding acquire finish_acquire
Step-Inv {s} {t} (acquires h) v = acquire_from-Inv s.idle s t refl h v
Step-Inv {s} {t} (settles xs c ys calls e same) v = subst Inv (sym same) (
    settle-Inv calls c (record s { checking = xs ++ ys })
      (record {
        once = Perm.trans v.once (unchecking xs c ys s e);
        counted =
            omega (arith, v.counted, ap length e, length-append xs (c ∷ ys), length-append xs ys);
        bounded = v.bounded;
        emptied = v.emptied;
      }))
Step-Inv {s} {t} (gives_back xs c ys e same) v = subst Inv (sym same) (
    give_back-Inv c (record s { leases = xs ++ ys })
      (record {
        once = Perm.trans v.once (returning xs c ys s e);
        counted =
            omega (arith, v.counted, ap length e, length-append xs (c ∷ ys), length-append xs ys);
        bounded = v.bounded;
        emptied = v.emptied;
      }))
Step-Inv {s} {t} (shuts_down same) v = subst Inv (sym same) (emptied-Inv s v)

pub Reach-Inv : {s t : State} → Inv s → Reach s t → Inv t
Reach-Inv v here = v
Reach-Inv v (step r st) = Step-Inv st (Reach-Inv v r)
