-- ===== src/Sched/Tasks/Keep.antt =====
-- What a tick of src/kernel/sched/scheduler.c leaves as it is.
use kil0y_os.Prelude.{
  ℕ, ◌<◌, ◌≡◌, refl, sym, subst, true, none, some, arith, Bool-cases, Option-cases, inl, inr,
}
use kil0y_os.Sched.Tasks.{Scheduler, max_tasks}
use kil0y_os.Sched.Tasks.Tick.{
  process_pick_ready, process_become_current, running_user, switch_user, user_tick, kernel_tick,
  scheduler_tick,
}
use kil0y_os.Sched.Tasks.Turn.{turn-IsNext}
use kil0y_os.Sched.Tasks.Switch.{main_interrupted, task_interrupted}
use kil0y_os.Sched.Tasks.Resume.{tick-main, tick-user, tick-kernel}

-- No status and no count changes; the current task is one of the table, and the main one while a user frame
-- is parked.
pub record Keeps (s s' : Scheduler) : Type 0 where
  pub status : (q : ℕ) → (s'.tasks q).status ≡ (s.tasks q).status
  pub count : s'.task_count ≡ s.task_count
  pub index : s'.current_task < max_tasks
  pub main : s'.user_frame_valid ≡ true → s'.current_task ≡ 0

-- A tick writes only the saved frames of tasks.
user_tick-Keeps :
    (s : Scheduler) (u rsp : ℕ) → s.current_task < max_tasks → Keeps s ((user_tick s u rsp).0)
unfolding user_tick switch_user process_become_current
user_tick-Keeps s u rsp h = elim (Bool-cases s.user_frame_valid) [
  | inl v ↦ elim (Option-cases (process_pick_ready (main_interrupted s rsp) (some u))) [
    | inl e ↦ record {
      status = λ q. ground (arith, v, e);
      count = ground (arith, v, e);
      index = ground (arith, v, e, h);
      main = λ w. absurd (ground (arith, v, e, w));
    }
    | inr (next, e) ↦ record {
      status = λ q. ground (arith, v, e);
      count = ground (arith, v, e);
      index = ground (arith, v, e, h);
      main = λ w. absurd (ground (arith, v, e, w));
    }
  ]
  | inr v ↦ record {
    status = λ q. ground (arith, v);
    count = ground (arith, v);
    index = ground (arith, v);
    main = λ w. ground (arith, v);
  }
]

kernel_tick-Keeps :
    (s : Scheduler) (rsp : ℕ) → s.current_task < max_tasks → Keeps s ((kernel_tick s rsp).0)
unfolding kernel_tick process_become_current
kernel_tick-Keeps s rsp h =
    let kept = task_interrupted s rsp in
    let (k, low, high, at, stop, before) = turn-IsNext kept.tasks s.current_task h in
    elim (Option-cases (process_pick_ready kept none)) [
      | inl e ↦ record {
        status = λ q. ground (arith, e);
        count = ground (arith, e);
        index = ground (arith, e, at, h);
        main = λ w. absurd (ground (arith, e, w));
      }
      | inr (p, e) ↦ record {
        status = λ q. ground (arith, e);
        count = ground (arith, e);
        index = ground (arith, e, h);
        main = λ w. absurd (ground (arith, e, w));
      }
    ]

pub tick-Keeps :
    (s : Scheduler) (rsp : ℕ) → s.current_task < max_tasks → Keeps s ((scheduler_tick s rsp).0)
tick-Keeps s rsp h = elim (Bool-cases s.main_switch_requested) [
  | inl m ↦
      subst (λ out. Keeps s (out.0)) (sym (tick-main s rsp m))
        (record { status = λ q. refl; count = refl; index = omega arith; main = λ w. refl })
  | inr m ↦ elim (Option-cases (running_user s)) [
    | inl e ↦
        subst (λ out. Keeps s (out.0)) (sym (tick-kernel s rsp m e)) (kernel_tick-Keeps s rsp h)
    | inr (u, e) ↦
        subst (λ out. Keeps s (out.0)) (sym (tick-user s u rsp m e)) (user_tick-Keeps s u rsp h)
  ]
]
