-- ===== src/Sched/Tasks/Turn.antt =====
-- The round robin of src/kernel/sched/scheduler.c: the do-while ends, and finds the next task in a circle.
use kil0y_os.Prelude.{
  ℕ, zero, suc, ◌+◌, ◌%◌, ◌≤◌, ◌<◌, ◌≡◌, refl, ap, sym, subst, ◌∙◌, Bool, true, false, not, ◌&&◌,
  arith, ◌==◌, Bool-cases, inl, inr, ◌⊎◌,
}
use kil0y_os.Sched.Tasks.{Task, max_tasks, runnable}
use kil0y_os.Sched.Tasks.Tick.{turn}

-- The k-th task after `c` in the circle.
abbrev pub after : ℕ → ℕ → ℕ
after c k = (c + k) % max_tasks

-- `r` is the first runnable task after `c`, or `c` itself once the others have been passed over.
abbrev pub IsNext : (ℕ → Task) → ℕ → ℕ → Type 0
IsNext m c r =
    (k : ℕ) × (1 ≤ k)
    × (k ≤ max_tasks)
    × (r ≡ after c k)
    × ((k ≡ max_tasks) ⊎ (runnable (m r) ≡ true))
    × ((j : ℕ) → 1 ≤ j → j < k → runnable (m (after c j)) ≡ false)

-- The do-while goes on after looking at `next`.
abbrev goes_on : (ℕ → Task) → ℕ → ℕ → Bool
goes_on m c next = not (next == c) && not (runnable (m next))

turn-stop :
    (n : ℕ) (m : ℕ → Task) (c i : ℕ)
    → goes_on m c ((i + 1) % max_tasks) ≡ false
    → turn (suc n) m c i ≡ (i + 1) % max_tasks
unfolding turn
turn-stop n m c i e = ground (arith, e)

turn-go :
    (n : ℕ) (m : ℕ → Task) (c i : ℕ)
    → goes_on m c ((i + 1) % max_tasks) ≡ true
    → turn (suc n) m c i ≡ turn n m c ((i + 1) % max_tasks)
unfolding turn
turn-go n m c i e = ground (arith, e)

module _ (m : ℕ → Task) (c : ℕ) (small : c < max_tasks) where
  -- The do-while has passed over the k tasks after `c`.
  Passed : ℕ → Type 0
  Passed k = (j : ℕ) → 1 ≤ j → j ≤ k → runnable (m (after c j)) ≡ false

  Passed-next : (k : ℕ) → Passed k → runnable (m (after c (suc k))) ≡ false → Passed (suc k)
  unfolding Passed
  Passed-next k before r j a b = elim (Bool-cases (j == suc k)) [
    | inl e ↦ let e' : j ≡ suc k = ground arith in rw e' r
    | inr ne ↦ before j a (ground arith)
  ]

  after-next : (k : ℕ) → (after c k + 1) % max_tasks ≡ after c (suc k)
  after-next k = omega arith

  back_at_start : (k : ℕ) → 0 < k → k ≤ max_tasks → after c k ≡ c → k ≡ max_tasks
  back_at_start k l h e = omega (arith, small)

  stopped :
      (k : ℕ)
      → suc k ≤ max_tasks
      → Passed k
      → goes_on m c (after c (suc k)) ≡ false
      → IsNext m c (after c (suc k))
  unfolding Passed
  stopped k h before stop = (
    suc k,
    omega arith,
    h,
    refl,
    elim (Bool-cases (after c (suc k) == c)) [
      | inl e ↦ inl (back_at_start (suc k) (omega arith) h (ground arith))
      | inr ne ↦ inr (ground (arith, stop, ne))
    ],
    λ j a b. before j a (omega arith),
  )

  went_on :
      (k : ℕ)
      → suc k ≤ max_tasks
      → goes_on m c (after c (suc k)) ≡ true
      → (suc k < max_tasks) × (runnable (m (after c (suc k))) ≡ false)
  went_on k h go = elim (Bool-cases (suc k == max_tasks)) [
    | inl e ↦
        let e' : after c (suc k) ≡ c = ground (arith, small) in absurd (ground (arith, e', go))
    | inr ne ↦ (ground arith, ground (arith, go))
  ]

  -- From there on, n turns of the loop are enough.
  turn_from :
      (n k : ℕ)
      → k + n ≡ max_tasks
      → 0 < n
      → Passed k
      → IsNext m c (turn n m c (after c k))
        × ((extra : ℕ) → turn (n + extra) m c (after c k) ≡ turn n m c (after c k))
  turn_from zero k e l before = absurd (omega arith)
  turn_from (suc n) k e l before =
      let i = after c k in
      let more : (extra : ℕ) → suc n + extra ≡ suc (n + extra) = λ extra. omega arith in
      elim (Bool-cases (goes_on m c (after c (suc k)))) [
        | inl go ↦
            let go' : goes_on m c ((i + 1) % max_tasks) ≡ true = rw (after-next k) go in
            let (inside, r) = went_on k (omega arith) go in
            let (next, enough) =
              turn_from n (suc k) (omega arith) (omega arith) (Passed-next k before r) in
            let here : (f : ℕ) → turn (suc f) m c i ≡ turn f m c (after c (suc k)) =
              λ f. turn-go f m c i go' ∙ ap (turn f m c) (after-next k) in
            (
              subst (IsNext m c) (sym (here n)) next,
              λ extra. rw (more extra) (here (n + extra) ∙ enough extra ∙ sym (here n)),
            )
        | inr stop ↦
            let stop' : goes_on m c ((i + 1) % max_tasks) ≡ false = rw (after-next k) stop in
            let here : (f : ℕ) → turn (suc f) m c i ≡ after c (suc k) =
              λ f. turn-stop f m c i stop' ∙ after-next k in
            (
              subst (IsNext m c) (sym (here n)) (stopped k (omega arith) before stop),
              λ extra. rw (more extra) (here (n + extra) ∙ sym (here n)),
            )
      ]

  start : after c 0 ≡ c
  start = omega (arith, small)

  turn_both :
      IsNext m c (turn max_tasks m c c)
      × ((extra : ℕ) → turn (max_tasks + extra) m c c ≡ turn max_tasks m c c)
  unfolding Passed
  turn_both =
      subst
        (λ i.
          IsNext m c (turn max_tasks m c i)
          × ((extra : ℕ) → turn (max_tasks + extra) m c i ≡ turn max_tasks m c i))
        start (turn_from max_tasks 0 refl (omega arith) (λ j a b. absurd (omega arith)))

  -- From a task of the table, the round robin finds the first runnable task in the circle after it, or comes
  -- back to it when the 15 others are dead.
  pub turn-IsNext : IsNext m c (turn max_tasks m c c)
  turn-IsNext = turn_both.0

  -- From a task of the table, the do-while over the tasks ends within 16 rounds: more rounds change nothing.
  pub turn-terminates : (extra : ℕ) → turn (max_tasks + extra) m c c ≡ turn max_tasks m c c
  turn-terminates = turn_both.1
