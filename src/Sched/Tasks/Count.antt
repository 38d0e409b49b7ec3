-- ===== src/Sched/Tasks/Count.antt =====
-- The tasks of src/kernel/sched/scheduler.c stay counted, and the current one stays an index of the table.
use kil0y_os.Prelude.{ℕ, ◌+◌, ◌<◌, ◌≡◌, true, false, Option, List, arith, update, if◌then◌else◌}
use kil0y_os.Prelude.Int.{ℤ, sub_ℕ}
use kil0y_os.Prelude.Sums.{sum_below, sum_below-change}
use kil0y_os.Sched.Tasks.{
  Task, Scheduler, max_tasks, is_dead, scheduler_init, scheduler_set_main_return, task_create,
  task_create_bg, task_kill, task_exit, scheduler_request_main_switch,
  scheduler_invalidate_user_frame, scheduler_take_main_cpu,
}
use kil0y_os.Sched.Tasks.Tick.{scheduler_tick}

abbrev pub alive : (ℕ → Task) → ℕ → ℕ
alive m q = if is_dead (m q) then 0 else 1

-- The number of tasks that are not dead.
abbrev pub count_alive : (ℕ → Task) → ℕ
count_alive m = sum_below max_tasks (alive m)

-- The count is short of the tasks that are not dead by `lost`, a task is current, and it is the kernel's main task
-- while a user frame is parked.
pub record IsSound (s : Scheduler) (lost : ℕ) : Type 0 where
  pub counted : s.task_count ≡ sub_ℕ (count_alive s.tasks) lost
  pub indexed : s.current_task < max_tasks
  pub parked : s.user_frame_valid ≡ true → s.current_task ≡ 0

-- 1 for a dead task: its exit takes it from the count once more, and the main task that is dead is ready again
-- without being counted.
abbrev pub lost_by : Task → ℕ
lost_by t = if is_dead t then 1 else 0

-- The calls of the scheduler, each with what the count loses by it.
pub data Step (base : ℕ) : Scheduler → Scheduler → ℕ → Type 0 where
  create :
      (s : Scheduler) (entry : ℕ) (name : Option (List ℕ))
      → Step base s ((task_create base s entry name).0) 0
  create_bg :
      (s : Scheduler) (entry : ℕ) (name : Option (List ℕ))
      → Step base s ((task_create_bg base s entry name).0) 0
  kill : (s : Scheduler) (i : ℤ) → Step base s ((task_kill s i).0) 0
  exit : (s : Scheduler) → Step base s (task_exit s) (lost_by (s.tasks s.current_task))
  tick : (s : Scheduler) (rsp : ℕ) → Step base s ((scheduler_tick s rsp).0) 0
  set_main_return :
      (s : Scheduler) (entry : ℕ)
      → Step base s (scheduler_set_main_return base s entry) (lost_by (s.tasks 0))
  request : (s : Scheduler) → Step base s (scheduler_request_main_switch s) 0
  invalidate : (s : Scheduler) → Step base s (scheduler_invalidate_user_frame s) 0
  take_main : (s : Scheduler) → Step base s (scheduler_take_main_cpu s) 0

-- What follows the boot, in any order of calls, with what the count has lost by them.
pub data Reachable (base : ℕ) : Scheduler → ℕ → Type 0 where
  boot : (s : Scheduler) → s.user_frame_valid ≡ false → Reachable base (scheduler_init s) 0
  step :
      {s s' : Scheduler} {n k : ℕ}
      → Reachable base s n
      → Step base s s' k
      → Reachable base s' (n + k)

-- Writing one task changes the count by that task.
pub count_alive-update :
    (m : ℕ → Task) (i : ℕ) (t : Task)
    → i < max_tasks
    → count_alive (update m i t) + alive m i ≡ count_alive m + (if is_dead t then 0 else 1)
count_alive-update m i t l =
    let change =
      sum_below-change max_tasks i (alive m) (alive (update m i t)) l (λ q d. ground (arith, d)) in
    let self : alive (update m i t) i ≡ (if is_dead t then 0 else 1) = ground arith in
    omega (arith, change, self)
