-- ===== src/Sched/Tasks/Tick.antt =====
-- scheduler_tick, the process helpers it calls, and the round robin over the tasks.
use kil0y_os.Prelude.{
  ℕ, zero, suc, ◌+◌, ◌-◌, ◌%◌, ◌^◌, Bool, true, false, not, ◌&&◌, Option, none, some, ◌==◌,
  if◌then◌else◌, update,
}
use kil0y_os.Prelude.Int.{pos, ltb_ℤ}
use kil0y_os.Sched.Wait.{ProcessState}
use kil0y_os.Sched.Tasks.{
  Task, Process, Scheduler, max_tasks, max_processes, is_dead, runnable, ready_process,
  running_process,
}

abbrev pub is_the : Option ℕ → ℕ → Bool
is_the none i = false
is_the (some j) i = j == i

-- The loop of process_pick_ready from `i` on; `skip` is the process it excludes.
unfoldable pub pick_from : ℕ → (ℕ → Process) → Option ℕ → ℕ → Option ℕ
pick_from zero m skip i = none
pick_from (suc n) m skip i =
    let rest = pick_from n m skip (i + 1) in
    if ready_process (m i) && not ((m i).parked_rsp == 0) && not (is_the skip i)
    then some i
    else rest

unfoldable pub process_pick_ready : Scheduler → Option ℕ → Option ℕ
process_pick_ready s skip = pick_from max_processes s.processes skip 0

unfoldable pub process_become_current : Scheduler → ℕ → Scheduler
process_become_current s p = record s {
  current_process = some p;
  processes = update s.processes p (record (s.processes p) { state = ProcessState.running });
}

abbrev pub fpu_save : Scheduler → ℕ → Scheduler
fpu_save s p = record s {
  processes = update s.processes p (record (s.processes p) { fpu = s.cpu.fpu });
}

abbrev pub fpu_restore : Scheduler → ℕ → Scheduler
fpu_restore s p = record s { cpu = record s.cpu { fpu = (s.processes p).fpu } }

abbrev pub process_apply_fs_base : Scheduler → ℕ → Scheduler
process_apply_fs_base s p = record s { cpu = record s.cpu { fs_base = (s.processes p).fs_base } }

-- The kernel stacks and the address space of the process.
abbrev pub load_stacks : Scheduler → ℕ → Scheduler
load_stacks s p =
    let q = s.processes p in
    record s {
      cpu = record s.cpu {
        rsp0 = q.kernel_stack;
        syscall_kernel_rsp = q.kernel_stack;
        cr3 = if q.cr3 == 0 then s.cpu.cr3 else q.cr3;
      };
    }

-- The current process, if it is running.
abbrev pub running_user : Scheduler → Option ℕ
running_user s = elim s.current_process [
  | none ↦ none
  | some p ↦ if running_process (s.processes p) then some p else none
]

-- A process that was parked gets the CPU, while the user process `u` gives it up.
unfoldable pub switch_user : Scheduler → ℕ → ℕ → Scheduler × ℕ
switch_user s u next =
    let loaded = process_apply_fs_base (fpu_restore s next) next in
    let parked = record loaded {
      processes = update loaded.processes u (record (loaded.processes u) {
        parked_rsp = loaded.user_frame;
        state = ProcessState.ready;
      });
    } in
    let now = load_stacks (process_become_current parked next) next in
    (now, (now.processes next).parked_rsp)

-- A tick while the user process `u` is running.
unfoldable pub user_tick : Scheduler → ℕ → ℕ → Scheduler × ℕ
user_tick s u rsp =
    let kept = record s {
      tasks = update s.tasks 0 (record (s.tasks 0) { rsp = rsp });
      user_frame_valid = false;
    } in
    let saved = fpu_save s u in
    if s.user_frame_valid
    then elim (process_pick_ready kept (some u)) [
      | none ↦ (fpu_restore kept u, kept.user_frame)
      | some next ↦ switch_user kept u next
    ]
    else (
      record saved { user_frame = rsp; user_frame_valid = true; current_task = 0 },
      (s.tasks 0).rsp,
    )

-- The number of foreground tasks from `i` on.
unfoldable pub foreground : ℕ → (ℕ → Task) → ℕ → ℕ
foreground zero m i = 0
foreground (suc n) m i =
    let rest = foreground n m (i + 1) in
    if not (is_dead (m i)) && not (m i).background then rest + 1 else rest

-- The do-while over the tasks: `i` is the task last looked at.
unfoldable pub turn : ℕ → (ℕ → Task) → ℕ → ℕ → ℕ
turn zero m c i = i
turn (suc n) m c i =
    let next = (i + 1) % max_tasks in
    let rest = turn n m c next in if not (next == c) && not (runnable (m next)) then rest else next

-- One more busy or idle tick.
abbrev pub account : Scheduler → Scheduler
account s =
    let idle = foreground (max_tasks - 1) s.tasks 1 == 0 in
    record s {
      cpu_idle_ticks = if idle then (s.cpu_idle_ticks + 1) % 2 ^ 64 else s.cpu_idle_ticks;
      cpu_busy_ticks = if idle then s.cpu_busy_ticks else (s.cpu_busy_ticks + 1) % 2 ^ 64;
    }

-- A tick while no user process is running.
unfoldable pub kernel_tick : Scheduler → ℕ → Scheduler × ℕ
kernel_tick s rsp =
    let c = s.current_task in
    let kept = record s {
      user_frame_valid = false;
      tasks = update s.tasks c (record (s.tasks c) { rsp = rsp });
    } in
    let next = turn max_tasks kept.tasks c c in
    elim (process_pick_ready kept none) [
      | some p ↦
          let loaded = process_apply_fs_base (fpu_restore kept p) p in
          let now = load_stacks (process_become_current loaded p) p in
          (now, (now.processes p).parked_rsp)
      | none ↦
          (if ltb_ℤ (pos 1) kept.task_count
            then (record (account kept) { current_task = next }, (kept.tasks next).rsp)
            else (
              record kept { cpu_idle_ticks = (kept.cpu_idle_ticks + 1) % 2 ^ 64 },
              (kept.tasks c).rsp,
            ))
    ]

unfoldable pub scheduler_tick : Scheduler → ℕ → Scheduler × ℕ
scheduler_tick s rsp =
    if s.main_switch_requested
    then (
      record s { main_switch_requested = false; user_frame_valid = false; current_task = 0 },
      (s.tasks 0).rsp,
    )
    else elim (running_user s) [ none ↦ kernel_tick s rsp | some u ↦ user_tick s u rsp ]
