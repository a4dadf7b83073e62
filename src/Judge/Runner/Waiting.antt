-- ===== src/Judge/Runner/Waiting.antt =====
-- The wait loop of `runBinary` (backend/src/judge/runner.cpp): that it ends, and how.
use oj_vibe_coding.Base.{
  ℕ, zero, suc, ◌+◌, ◌*◌, ◌/◌, ◌≤◌, ◌<◌, ◌≡◌, refl, sym, ap, ◌∙◌, ◌⊎◌, inl, inr, true, false,
  Option, none, some, arith, ltb, if◌then◌else◌, Bool-cases, ℕ_discrete, dec_lt,
}
use oj_vibe_coding.Judge.Runner.{
  WaitStatus, Poll, gone, failed, running, Waited, wait_loop, wait_fuel,
}

-- `sleep_for(5 ms)` sleeps at least that long, so round `k` reads the clock no earlier than 5 k ms (in nanoseconds).
abbrev pub Sleeps : (ℕ → Poll) → Type 0
Sleeps polls = (k elapsed : ℕ) → polls k ≡ running elapsed → 5_000_000 * k ≤ elapsed

-- What one round decides: `none` goes on.
abbrev pub decide_round : ℕ → WaitStatus → Poll → Option Waited
decide_round limit reaped (gone status) =
    some (record { killed_by_timeout = false; kill_sent = false; status = some status })
decide_round limit reaped failed =
    some (record { killed_by_timeout = true; kill_sent = false; status = none })
decide_round limit reaped (running elapsed) =
    if ltb (limit * 1_000_000) elapsed
    then some (record { killed_by_timeout = true; kill_sent = true; status = some reaped })
    else none

-- The first round from `k` on that decides is round `j`, and it decides for `w`.
abbrev pub FirstDecides : ℕ → WaitStatus → (ℕ → Poll) → ℕ → Waited → Type 0
FirstDecides limit reaped polls k w =
    (j : ℕ) × (k ≤ j)
    × (decide_round limit reaped (polls j) ≡ some w)
    × ((i : ℕ) → k ≤ i → i < j → decide_round limit reaped (polls i) ≡ none)

module _ (limit : ℕ) (polls : ℕ → Poll) (reaped : WaitStatus) where
  wait_loop-step :
      (fuel k : ℕ)
      → ((w : Waited) × (decide_round limit reaped (polls k) ≡ some w)
          × (wait_loop limit (suc fuel) polls reaped k ≡ some w))
        ⊎ ((decide_round limit reaped (polls k) ≡ none)
            × (wait_loop limit (suc fuel) polls reaped k
                ≡ wait_loop limit fuel polls reaped (suc k)))
  unfolding wait_loop
  wait_loop-step fuel k = by_poll (polls k) refl
    where
      by_poll :
          (p : Poll)
          → polls k ≡ p
          → ((w : Waited) × (decide_round limit reaped (polls k) ≡ some w)
              × (wait_loop limit (suc fuel) polls reaped k ≡ some w))
            ⊎ ((decide_round limit reaped (polls k) ≡ none)
                × (wait_loop limit (suc fuel) polls reaped k
                    ≡ wait_loop limit fuel polls reaped (suc k)))
      by_poll (gone status) e = rw (e, wait_loop) (inl (_, refl, refl))
      by_poll failed e = rw (e, wait_loop) (inl (_, refl, refl))
      by_poll (running elapsed) e = elim (Bool-cases (ltb (limit * 1_000_000) elapsed)) [
        | inl late ↦ rw (e, late, wait_loop) (inl (_, refl, refl))
        | inr early ↦ rw (e, early, wait_loop) (inr (refl, refl))
      ]

  pub wait_loop-FirstDecides :
      (fuel k : ℕ) (w : Waited)
      → wait_loop limit fuel polls reaped k ≡ some w
      → FirstDecides limit reaped polls k w
  wait_loop-FirstDecides zero k w e = absurd (unfold wait_loop in cc e)
  wait_loop-FirstDecides (suc fuel) k w e = elim (wait_loop-step fuel k) [
    | inl (w', d, r) ↦ (k, omega arith, d ∙ sym r ∙ e, λ i a b. absurd (omega arith))
    | inr (d, r) ↦ later d (wait_loop-FirstDecides fuel (suc k) w (sym r ∙ e))
  ]
    where
      later :
          decide_round limit reaped (polls k) ≡ none
          → FirstDecides limit reaped polls (suc k) w
          → FirstDecides limit reaped polls k w
      later d (j, a, b, c) = (
        j,
        omega arith,
        b,
        λ i p q. elim (ℕ_discrete i k) [ yes here ↦ rw here d | no past ↦ c i (omega arith) q ],
      )

  wait_loop-returns :
      (fuel k : ℕ)
      → Sleeps polls
      → 5 * k ≤ limit + 5
      → limit / 5 + 2 ≤ k + fuel
      → (w : Waited) × (wait_loop limit fuel polls reaped k ≡ some w)
  wait_loop-returns zero k sleeps low enough = absurd (omega arith)
  wait_loop-returns (suc fuel) k sleeps low enough = elim (wait_loop-step fuel k) [
    | inl (w, d, r) ↦ (w, r)
    | inr (d, r) ↦
        let (w, e) =
          wait_loop-returns fuel (suc k) sleeps (in_time (polls k) refl d) (omega arith) in
        (w, r ∙ e)
  ]
    where
      in_time :
          (p : Poll)
          → polls k ≡ p
          → decide_round limit reaped (polls k) ≡ none
          → 5 * suc k ≤ limit + 5
      in_time (gone status) e d = cc (rw e at d)
      in_time failed e d = cc (rw e at d)
      in_time (running elapsed) e d =
          let d' = rw e at d in let slept = sleeps k elapsed e in ground arith

-- With a clock that the sleeps drive, the wait loop ends within limit / 5 + 2 rounds, at the first
-- round that finds the child gone, finds an error, or reads a time past the limit; before that round
-- every reading was within the limit.
pub wait_loop-total :
    (limit : ℕ) (polls : ℕ → Poll) (reaped : WaitStatus)
    → Sleeps polls
    → (w : Waited) × (wait_loop limit (wait_fuel limit) polls reaped 0 ≡ some w)
      × FirstDecides limit reaped polls 0 w
wait_loop-total limit polls reaped sleeps =
    let (w, e) =
      wait_loop-returns limit polls reaped (wait_fuel limit) 0 sleeps (omega arith) (omega arith) in
    (w, e, wait_loop-FirstDecides limit polls reaped (wait_fuel limit) 0 w e)

-- The way in which the loop ends when a round finds the child gone.
abbrev pub ended : WaitStatus → Waited
ended status = record { killed_by_timeout = false; kill_sent = false; status = some status }

decide_round-ended :
    (limit : ℕ) (reaped : WaitStatus) (p : Poll) (w : Waited)
    → decide_round limit reaped p ≡ some w
    → w.killed_by_timeout ≡ false
    → (status : WaitStatus) × (w ≡ ended status)
decide_round-ended limit reaped (gone status) w d h = (status, ground arith)
decide_round-ended limit reaped failed w d h = ground arith
decide_round-ended limit reaped (running elapsed) w d h = ground arith

-- A loop that was not left by its timeout stored the status of a child that is gone.
pub wait_loop-ended :
    (limit fuel : ℕ) (polls : ℕ → Poll) (reaped : WaitStatus) (w : Waited)
    → wait_loop limit fuel polls reaped 0 ≡ some w
    → w.killed_by_timeout ≡ false
    → (status : WaitStatus) × (w ≡ ended status)
wait_loop-ended limit fuel polls reaped w e h =
    let (j, _, d, _) = wait_loop-FirstDecides limit polls reaped fuel 0 w e in
    decide_round-ended limit reaped (polls j) w d h

-- The deciding round is unique, and so is what it decides.
pub FirstDecides-unique :
    (limit : ℕ) (polls : ℕ → Poll) (reaped : WaitStatus) (v w : Waited)
    → FirstDecides limit reaped polls 0 v
    → FirstDecides limit reaped polls 0 w
    → v ≡ w
FirstDecides-unique limit polls reaped v w (i, _, d, below) (j, _, e, under) = elim (dec_lt i j) [
  | yes lt ↦ cc (sym (under i (omega arith) lt) ∙ d)
  | no ge ↦ elim (dec_lt j i) [
    | yes gt ↦ cc (sym (below j (omega arith) gt) ∙ e)
    | no le ↦
        let same : i ≡ j = omega arith in
        cc (sym d ∙ ap (λ k. decide_round limit reaped (polls k)) same ∙ e)
  ]
]
