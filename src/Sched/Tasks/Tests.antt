-- ===== src/Sched/Tasks/Tests.antt =====
-- The scheduler at work: two tasks beside the main one, then user processes 3 and 5.
use kil0y_os.Prelude.{
  ℕ, ◌+◌, ◌*◌, ◌≤◌, ◌≡◌, refl, true, false, Option, none, some, List, [], ◌∷◌, arith, ◌==◌,
  if◌then◌else◌, update,
}
use kil0y_os.Prelude.Int.{pos, ◌+ℤ◌}
use kil0y_os.Sched.Wait.{ProcessState}
use kil0y_os.Sched.Tasks.{
  Task, TaskStatus, Process, Scheduler, max_tasks, scheduler_init, task_create, task_create_bg,
  all_dead, find_dead, task_kill, setup_task_stack, runnable,
}
use kil0y_os.Sched.Tasks.Tick.{
  kernel_tick, scheduler_tick, turn, process_pick_ready, pick_from, user_tick, switch_user,
  process_become_current,
}
use kil0y_os.Sched.Tasks.Turn.{turn-terminates}
use kil0y_os.Sched.Tasks.Create.{Created, task_create-Created}
use kil0y_os.Sched.Tasks.Count.{lost_by}
use kil0y_os.Sched.Tasks.Switch.{Switched, owner, user}
use kil0y_os.Sched.Tasks.Resume.{Loaded, scheduler_tick-Switched, scheduler_tick-Loaded}
use kil0y_os.Sched.Tasks.Fair.{IsShared, ticks, runnable-scheduled}

abbrev no_task : Task
no_task = record { rsp = 0; status = TaskStatus.dead; name = []; background = false }

abbrev no_process : Process
no_process = record {
  state = ProcessState.unused;
  parked_rsp = 0;
  kernel_stack = 0;
  cr3 = 0;
  fs_base = 0;
  fpu = 0;
}

abbrev zeroed : Scheduler
zeroed = record {
  tasks = λ i. no_task;
  task_count = pos 0;
  current_task = 0;
  cpu_busy_ticks = 0;
  cpu_idle_ticks = 0;
  user_frame = 0;
  user_frame_valid = false;
  main_switch_requested = false;
  kernel_heartbeat = 0;
  processes = λ p. no_process;
  current_process = none;
  cpu = record { fpu = 0; fs_base = 0; rsp0 = 0; syscall_kernel_rsp = 0; cr3 = 0 };
  memory = λ a. 0;
}

abbrev table : ℕ
table = 0x100000

abbrev shell_name : Option (List ℕ)
shell_name = some (115 ∷ 104 ∷ [])

abbrev booted : Scheduler
booted = scheduler_init zeroed

abbrev two_tasks : Scheduler
two_tasks =
    (task_create_bg table ((task_create table booted 0x8000 shell_name).0) 0x9000 shell_name).0

task_create_example :
    Created table booted 0x8000 shell_name (task_create table booted 0x8000 shell_name)
task_create_example = task_create-Created table booted 0x8000 shell_name

created_at : (task_create table booted 0x8000 shell_name).1 ≡ some 1
unfolding task_create scheduler_init all_dead find_dead setup_task_stack
created_at = refl

-- Task 1 is killed while it runs, and then exits.
abbrev killed : Scheduler
killed = (task_kill ((scheduler_tick two_tasks 0x5000).0) (pos 1)).0

lost_one : lost_by (killed.tasks killed.current_task) ≡ 1
unfolding task_kill scheduler_tick turn user_tick task_create_bg task_create scheduler_init all_dead
    find_dead setup_task_stack kernel_tick process_pick_ready pick_from ◌+ℤ◌
lost_one = refl

ready_task : ℕ → Task
ready_task i = record { rsp = 0x7000 + i; status = TaskStatus.ready; name = []; background = false }

abbrev some_tasks : ℕ → Task
some_tasks i = if i == 7 then ready_task 7 else (if i == 0 then ready_task 0 else no_task)

turn_example : turn max_tasks some_tasks 7 7 ≡ 0
unfolding turn ready_task
turn_example = refl

turn-terminates_example : turn (max_tasks + 100) some_tasks 7 7 ≡ turn max_tasks some_tasks 7 7
turn-terminates_example = turn-terminates some_tasks 7 (omega arith) 100

abbrev kernel_only : Scheduler
kernel_only = record zeroed { tasks = some_tasks; task_count = pos 2 }

shared : IsShared kernel_only
unfolding process_pick_ready pick_from
shared = record {
  no_request = refl;
  no_user = refl;
  no_ready = refl;
  tasks_exist = refl;
  indexed = omega arith;
}

seven_runs : runnable (kernel_only.tasks 7) ≡ true
unfolding ready_task
seven_runs = refl

runnable-scheduled_example :
    (n : ℕ) × (1 ≤ n) × (n ≤ max_tasks) × ((ticks (λ k. 0x5000 + k) n kernel_only).current_task ≡ 7)
runnable-scheduled_example =
    runnable-scheduled kernel_only 7 (λ k. 0x5000 + k) shared (omega arith) seven_runs

abbrev process : ProcessState → ℕ → Process
process state n = record {
  state = state;
  parked_rsp = 0x1000 * n;
  kernel_stack = 0x2000 * n;
  cr3 = 0x3000 * n;
  fs_base = n;
  fpu = 10 * n;
}

-- Process 3 is running with its frame parked, the main task has the CPU, and process 5 is ready.
abbrev users : Scheduler
users = record zeroed {
  tasks = some_tasks;
  task_count = pos 2;
  user_frame = 0x4444;
  user_frame_valid = true;
  current_process = some 3;
  processes =
      update (update (λ p. no_process) 3 (process ProcessState.running 3)) 5
        (process ProcessState.ready 5);
}

users_tick : (scheduler_tick users 0x5000).1 ≡ 0x5000
unfolding scheduler_tick user_tick process_pick_ready pick_from switch_user process_become_current
users_tick = refl

owner-users : owner ((scheduler_tick users 0x5000).0) ≡ user 5
unfolding scheduler_tick user_tick process_pick_ready pick_from switch_user process_become_current
owner-users = refl

scheduler_tick-Switched_example :
    let (s', r) = scheduler_tick users 0x5000 in Switched users 0x5000 (owner users) (owner s') s' r
scheduler_tick-Switched_example = scheduler_tick-Switched users 0x5000 refl

scheduler_tick-Loaded_example :
    let s' = (scheduler_tick users 0x5000).0 in Loaded users (owner users) (owner s') s'
scheduler_tick-Loaded_example = scheduler_tick-Loaded users 0x5000 refl
