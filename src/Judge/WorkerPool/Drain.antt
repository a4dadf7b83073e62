-- ===== src/Judge/WorkerPool/Drain.antt =====
-- No task of the worker pool (backend/src/judge/worker_pool.cpp) is lost, run twice or overtaken.
use oj_vibe_coding.Base.{
  ℕ, ◌+◌, ◌<◌, ◌≡◌, refl, sym, ap, ◌∙◌, subst, inl, inr, true, not, ◌||◌, some, List, [], ◌∷◌, ◌++◌,
  arith, ◌==◌, Bool-cases, length, is_empty, length-append,
}
use oj_vibe_coding.Base.Result.{ok, ok-injective}
use oj_vibe_coding.Judge.WorkerPool.{
  State, make_pool, submit, shutdown, IsJoined, wake, Work, wakes, Step, works, submits, shuts_down,
  Reach, here, step, finishes, take_front,
}
use mathlib.Core.List.{Perm, perm_middle, perm_append_singleton, append-nil, append_assoc}
use mathlib.Core.List.Perm
use mathlib.Core.Option.{some-injective}

module _ {A : Type 0} where
  pub record Inv (s : State A) : Type 0 where
    pub fifo : s.accepted ≡ s.started ++ s.tasks
    pub once : Perm s.started (s.finished ++ s.running)
    pub staffed : 0 < s.worker_count
    pub workers : s.waiting + length s.running + s.exited ≡ s.worker_count
    pub drained : 0 < s.exited → (s.stopping ≡ true) × (s.tasks ≡ [])

  take_front-Inv :
      (l : List A) (s : State A)
      → s.tasks ≡ l
      → 0 < s.waiting
      → (s.stopping || not (is_empty l)) ≡ true
      → Inv s
      → Inv (take_front l s)
  unfolding take_front
  take_front-Inv [] s e h awake v = record {
    fifo = v.fifo;
    once = v.once;
    staffed = v.staffed;
    workers = omega (arith, v.workers);
    drained = λ _. (ground arith, e);
  }
  take_front-Inv (task ∷ rest) s e h awake v = record {
    fifo = v.fifo ∙ ap (◌++◌ s.started) e ∙ sym (append_assoc s.started (task ∷ []) rest);
    once =
        Perm.trans (Perm.trans (perm_append_singleton task s.started) (Perm.cons task v.once))
          (Perm.symm (perm_middle s.finished s.running));
    staffed = v.staffed;
    workers = omega (arith, v.workers);
    drained = λ gone. cc (sym (v.drained gone).1 ∙ e);
  }

  pub wake-eq-some :
      (s t : State A)
      → wake s ≡ some t
      → ((s.stopping || not (is_empty s.tasks)) ≡ true) × (take_front s.tasks s ≡ t)
  unfolding wake
  wake-eq-some s t e = elim (Bool-cases (s.stopping || not (is_empty s.tasks))) [
    | inl awake ↦ (awake, some-injective _ _ (rw (awake, wake) at e))
    | inr asleep ↦ cc (rw (asleep, wake) at e)
  ]

  wake-Inv : (s t : State A) → 0 < s.waiting → wake s ≡ some t → Inv s → Inv t
  wake-Inv s t h e v =
      let (awake, same) = wake-eq-some s t e in
      subst Inv same (take_front-Inv s.tasks s refl h awake v)

  Work-Inv : {s t : State A} → Work s t → Inv s → Inv t
  Work-Inv {s} {t} (wakes h e) v = wake-Inv s t h e v
  Work-Inv {s} {t} (finishes xs task ys e same) v = subst Inv (sym same) (record {
    fifo = v.fifo;
    once = Perm.trans (subst (λ l. Perm s.started (s.finished ++ l)) e v.once) (
        Perm.trans (Perm.append_left s.finished (perm_middle xs ys))
          (perm_middle s.finished (xs ++ ys)));
    staffed = v.staffed;
    workers =
        omega (arith, v.workers, ap length e, length-append xs (task ∷ ys), length-append xs ys);
    drained = v.drained;
  })

  submit-Inv : (task : A) (s t : State A) → submit task s ≡ ok t → Inv s → Inv t
  unfolding submit
  submit-Inv task s t e v = elim (Bool-cases s.stopping) [
    | inl stopped ↦ cc (rw (stopped, submit) at e)
    | inr running ↦ subst Inv (ok-injective (rw (running, submit) at e)) (record {
      fifo = ap (λ l. l ++ (task ∷ [])) v.fifo ∙ append_assoc s.started s.tasks (task ∷ []);
      once = v.once;
      staffed = v.staffed;
      workers = v.workers;
      drained = λ gone. cc (sym running ∙ (v.drained gone).0);
    })
  ]

  shutdown-Inv : (s : State A) → Inv s → Inv (shutdown s).0
  unfolding shutdown
  shutdown-Inv s v = elim (Bool-cases s.stopping) [
    | inl stopped ↦
        rw (stopped, shutdown)
          (record {
            fifo = v.fifo;
            once = v.once;
            staffed = v.staffed;
            workers = v.workers;
            drained = λ gone. (refl, (v.drained gone).1);
          })
    | inr running ↦
        rw (running, shutdown)
          (record {
            fifo = v.fifo;
            once = v.once;
            staffed = v.staffed;
            workers = v.workers;
            drained = λ gone. (refl, (v.drained gone).1);
          })
  ]

  pub Step-Inv : {s t : State A} → Step s t → Inv s → Inv t
  Step-Inv (works w) v = Work-Inv w v
  Step-Inv {s} {t} (submits task e) v = submit-Inv task s t e v
  Step-Inv {s} {t} (shuts_down e) v = subst Inv (sym e) (shutdown-Inv s v)

  pub Reach-Inv : {s t : State A} → Inv s → Reach s t → Inv t
  Reach-Inv v here = v
  Reach-Inv v (step r st) = Step-Inv st (Reach-Inv v r)

  pub make_pool-Inv : (n : ℕ) (s : State A) → make_pool n ≡ ok s → Inv s
  unfolding make_pool
  make_pool-Inv n s e = elim (Bool-cases (n == 0)) [
    | inl empty ↦ cc (rw (empty, make_pool) at e)
    | inr staffed ↦ subst Inv (ok-injective (rw (staffed, make_pool) at e)) (record {
      fifo = refl;
      once = Perm.refl [];
      staffed = ground arith;
      workers = omega arith;
      drained = λ gone. absurd (omega arith);
    })
  ]

  pub joined-drained :
      (s : State A)
      → Inv s
      → IsJoined s
      → (s.tasks ≡ []) × (s.running ≡ []) × Perm s.accepted s.finished
  joined-drained s v joined =
      let no_task = (v.drained (omega (arith, v.staffed))).1 in
      let idle = running-nil s.running (omega (arith, v.workers)) in
      (
        no_task,
        idle,
        subst (λ l. Perm l s.finished)
            (sym (v.fifo ∙ ap (◌++◌ s.started) no_task ∙ append-nil s.started))
            (subst (λ l. Perm s.started l) (ap (◌++◌ s.finished) idle ∙ append-nil s.finished)
              v.once),
      )
    where
      running-nil : (l : List A) → length l ≡ 0 → l ≡ []
      running-nil [] e = refl
      running-nil (x ∷ l) e = absurd (omega arith)

-- In every state that a pool can reach, by any interleaving of its workers with calls of `submit` and
-- `shutdown`: workers have taken the accepted tasks in the order of their submission, what is left of
-- them is the queue, and each task taken is either running or finished, once.
pub Reach-in_order :
    {A : Type 0} (n : ℕ) (s t : State A)
    → make_pool n ≡ ok s
    → Reach s t
    → (t.accepted ≡ t.started ++ t.tasks) × Perm t.started (t.finished ++ t.running)
Reach-in_order n s t made r = let v = Reach-Inv (make_pool-Inv n s made) r in (v.fifo, v.once)

-- In a state that a pool can reach and in which all its workers have left, which is when the joins of
-- `shutdown` return, no task waits or runs, and the tasks run are those that `submit` accepted, each as
-- often as it was accepted.
pub Reach-drained :
    {A : Type 0} (n : ℕ) (s t : State A)
    → make_pool n ≡ ok s
    → Reach s t
    → IsJoined t
    → (t.tasks ≡ []) × (t.running ≡ []) × Perm t.accepted t.finished
Reach-drained n s t made r joined = joined-drained t (Reach-Inv (make_pool-Inv n s made) r) joined
