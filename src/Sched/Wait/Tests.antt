-- ===== src/Sched/Wait/Tests.antt =====
-- The claims about src/kernel/sched/wait.c on a queue of three processes, the second of which is not blocked.
use kil0y_os.Prelude.{ℕ, ◌≡◌, refl, true, [], ◌∷◌, arith, update}
use kil0y_os.Sched.Wait.{
  ProcessState, ready, blocked, running, Process, Queue, Wait, wq_push, wq_pop,
}
use kil0y_os.Sched.Wait.Links.{IsQueue, wq_push_lem, wq_pop_lem}

abbrev process : ProcessState → ℕ → Process
process state next = record { state = state; wait_next = next; parked = true; ret = 0 }

abbrev processes : ℕ → Process
processes =
    update (update (update (λ p. process running 0) 1 (process blocked 2)) 2 (process ready 3)) 3
      (process blocked 0)

abbrev three : Queue
three = record { head = 1; tail = 3 }

abbrev waiting : Wait
waiting = record { processes = processes; queues = λ q. three; timers = [] }

three-IsQueue : IsQueue processes three (1 ∷ 2 ∷ 3 ∷ [])
three-IsQueue = record {
  chain = (refl, omega arith, (refl, omega arith, (refl, omega arith, refl)));
  tail = refl;
  distinct = (
    (λ e. absurd (omega (arith, e)), (λ e. absurd (omega (arith, e)), omega arith)),
    ((λ e. absurd (omega (arith, e)), omega arith), (omega arith, omega arith)),
  );
}

wq_push_example :
    IsQueue (wq_push processes three 4).0 (wq_push processes three 4).1 (1 ∷ 2 ∷ 3 ∷ 4 ∷ [])
wq_push_example = wq_push_lem processes three 4 (omega arith) (1 ∷ 2 ∷ 3 ∷ []) three-IsQueue (
  λ e. absurd (omega (arith, e)),
  (λ e. absurd (omega (arith, e)), (λ e. absurd (omega (arith, e)), omega arith)),
)

wq_pop_example :
    ((wq_pop processes three).1 ≡ 1)
    × IsQueue (wq_pop processes three).0.0 (wq_pop processes three).0.1 (2 ∷ 3 ∷ [])
wq_pop_example = wq_pop_lem processes three 1 (2 ∷ 3 ∷ []) three-IsQueue
