-- ===== src/Sched/Tasks/Resume.antt =====
-- scheduler_tick of src/kernel/sched/scheduler.c on every branch.
use kil0y_os.Prelude.{
  ℕ, ◌≡◌, sym, subst, true, false, none, some, arith, ◌==◌, if◌then◌else◌, Bool-cases, Option-cases,
  inl, inr, ◌⊎◌,
}
use kil0y_os.Sched.Tasks.{Scheduler, max_processes}
use kil0y_os.Sched.Tasks.Tick.{
  process_pick_ready, running_user, user_tick, kernel_tick, scheduler_tick, switch_user,
  process_become_current,
}
use kil0y_os.Sched.Tasks.Switch.{
  Owner, task, user, owner, Switched, main_interrupted, task_interrupted, Picked, pick_from-Picked,
  save_user, resume_user, change_user, wake_user, next_task,
}

pub tick-main :
    (s : Scheduler) (rsp : ℕ)
    → s.main_switch_requested ≡ true
    → scheduler_tick s rsp ≡ (
      record s { main_switch_requested = false; user_frame_valid = false; current_task = 0 },
      (s.tasks 0).rsp,
    )
unfolding scheduler_tick
tick-main s rsp m = ground (arith, m)

pub tick-user :
    (s : Scheduler) (u rsp : ℕ)
    → s.main_switch_requested ≡ false
    → running_user s ≡ some u
    → scheduler_tick s rsp ≡ user_tick s u rsp
unfolding scheduler_tick
tick-user s u rsp m e = ground (arith, m, e)

pub tick-kernel :
    (s : Scheduler) (rsp : ℕ)
    → s.main_switch_requested ≡ false
    → running_user s ≡ none
    → scheduler_tick s rsp ≡ kernel_tick s rsp
unfolding scheduler_tick
tick-kernel s rsp m e = ground (arith, m, e)

not_skipped :
    (s : Scheduler) (u next : ℕ) → process_pick_ready s (some u) ≡ some next → (u == next) ≡ false
unfolding process_pick_ready
not_skipped s u next e =
    (subst (Picked s.processes (some u)) e
      (pick_from-Picked max_processes s.processes (some u) 0)).1

owner-user :
    (s : Scheduler) (u : ℕ)
    → running_user s ≡ some u
    → owner s ≡ (if s.user_frame_valid then task 0 else user u)
owner-user s u e = ground (arith, e)

owner-kernel : (s : Scheduler) → running_user s ≡ none → owner s ≡ task s.current_task
owner-kernel s e = ground (arith, e)

-- What a tick did, from the owner `o` before it.
IsSwitch : Scheduler → ℕ → Owner → Scheduler × ℕ → Type 0
IsSwitch s rsp o (s', r) = Switched s rsp o (owner s') s' r

user_tick-IsSwitch :
    (s : Scheduler) (u rsp : ℕ)
    → running_user s ≡ some u
    → IsSwitch s rsp (owner s) (user_tick s u rsp)
unfolding IsSwitch
user_tick-IsSwitch s u rsp e = elim (Bool-cases s.user_frame_valid) [
  | inl v ↦
      let before : owner s ≡ task 0 = ground (arith, e, v) in
      elim (Option-cases (process_pick_ready (main_interrupted s rsp) (some u))) [
        | inl none_ready ↦
            let out = resume_user s u rsp e v none_ready in rw (before, out.0) (out.3)
        | inr (next, found) ↦
            let d = not_skipped (main_interrupted s rsp) u next found in
            let out = change_user s u next rsp e v found d in rw (before, out.0) (out.3)
      ]
  | inr v ↦
      let before : owner s ≡ user u = ground (arith, e, v) in
      let out = save_user s u rsp e v in rw (before, out.0) (out.3)
]

kernel_tick-IsSwitch :
    (s : Scheduler) (rsp : ℕ) → running_user s ≡ none → IsSwitch s rsp (owner s) (kernel_tick s rsp)
unfolding IsSwitch
kernel_tick-IsSwitch s rsp e =
    let before : owner s ≡ task s.current_task = owner-kernel s e in
    elim (Option-cases (process_pick_ready (task_interrupted s rsp) none)) [
      | inl none_ready ↦ let out = next_task s rsp e none_ready in rw (before, out.0) (out.3)
      | inr (p, found) ↦ let out = wake_user s p rsp e found in rw (before, out.0) (out.3)
    ]

-- If no switch to the main task is asked for, then a tick keeps the interrupted frame for whoever had the
-- CPU, resumes the frame that was kept for whoever gets it, and changes no other kept frame.
pub scheduler_tick-Switched :
    (s : Scheduler) (rsp : ℕ)
    → s.main_switch_requested ≡ false
    → let (s', r) = scheduler_tick s rsp in Switched s rsp (owner s) (owner s') s' r
unfolding IsSwitch
scheduler_tick-Switched s rsp m = elim (Option-cases (running_user s)) [
  | inl e ↦
      subst (IsSwitch s rsp (owner s)) (sym (tick-kernel s rsp m e)) (kernel_tick-IsSwitch s rsp e)
  | inr (u, e) ↦
      subst (IsSwitch s rsp (owner s)) (sym (tick-user s u rsp m e)) (user_tick-IsSwitch s u rsp e)
]

-- What the processor loads for the process that gets it, and what is kept of the process that loses it: the
-- FPU always, the TLS base and the kernel stacks when the current process changes.
abbrev pub Loaded : Scheduler → Owner → Owner → Scheduler → Type 0
Loaded s (task i) (task j) s' = Unit {0}
Loaded s (user u) (task j) s' = (s'.processes u).fpu ≡ s.cpu.fpu
Loaded s o (user p) s' =
    let q = s.processes p in
    (s'.cpu.fpu ≡ q.fpu)
    × ((s.current_process ≡ some p)
        ⊎ ((s'.cpu.fs_base ≡ q.fs_base)
            × (s'.cpu.rsp0 ≡ q.kernel_stack)
            × (s'.cpu.syscall_kernel_rsp ≡ q.kernel_stack)))

IsLoad : Scheduler → Owner → Scheduler × ℕ → Type 0
IsLoad s o (s', r) = Loaded s o (owner s') s'

user_tick-IsLoad :
    (s : Scheduler) (u rsp : ℕ) → running_user s ≡ some u → IsLoad s (owner s) (user_tick s u rsp)
unfolding IsLoad user_tick switch_user process_become_current
user_tick-IsLoad s u rsp e = elim (Bool-cases s.user_frame_valid) [
  | inl v ↦
      let before : owner s ≡ task 0 = ground (arith, e, v) in
      elim (Option-cases (process_pick_ready (main_interrupted s rsp) (some u))) [
        | inl none_ready ↦
            let out = resume_user s u rsp e v none_ready in
            rw (before, out.0) (ground (arith, v, none_ready), inl (ground (arith, e)))
        | inr (next, found) ↦
            let d = not_skipped (main_interrupted s rsp) u next found in
            let out = change_user s u next rsp e v found d in
            rw (before, out.0)
              (
                ground (arith, v, found),
                inr (
                  ground (arith, v, found, d),
                  ground (arith, v, found, d),
                  ground (arith, v, found, d),
                ),
              )
      ]
  | inr v ↦
      let before : owner s ≡ user u = ground (arith, e, v) in
      let out = save_user s u rsp e v in rw (before, out.0) (ground (arith, v))
]

kernel_tick-IsLoad :
    (s : Scheduler) (rsp : ℕ) → running_user s ≡ none → IsLoad s (owner s) (kernel_tick s rsp)
unfolding IsLoad kernel_tick process_become_current
kernel_tick-IsLoad s rsp e =
    let before : owner s ≡ task s.current_task = owner-kernel s e in
    elim (Option-cases (process_pick_ready (task_interrupted s rsp) none)) [
      | inl none_ready ↦ let out = next_task s rsp e none_ready in rw (before, out.0) tt
      | inr (p, found) ↦
          let out = wake_user s p rsp e found in
          rw (before, out.0)
            (
              ground (arith, found),
              inr (ground (arith, found), ground (arith, found), ground (arith, found)),
            )
    ]

-- If no switch to the main task is asked for, then a tick keeps the FPU of the process it interrupts, and
-- loads that of the process it resumes, with its TLS base and kernel stacks if it was not the current one.
pub scheduler_tick-Loaded :
    (s : Scheduler) (rsp : ℕ)
    → s.main_switch_requested ≡ false
    → let s' = (scheduler_tick s rsp).0 in Loaded s (owner s) (owner s') s'
unfolding IsLoad
scheduler_tick-Loaded s rsp m = elim (Option-cases (running_user s)) [
  | inl e ↦ subst (IsLoad s (owner s)) (sym (tick-kernel s rsp m e)) (kernel_tick-IsLoad s rsp e)
  | inr (u, e) ↦
      subst (IsLoad s (owner s)) (sym (tick-user s u rsp m e)) (user_tick-IsLoad s u rsp e)
]
