-- ===== src/Sched/Tasks.antt =====
-- src/kernel/sched/scheduler.c, with the process helpers of core/process.c that the tick calls. A task is
-- an index of `tasks`, a process an index of `processes`, and NULL is `none`. The table of tasks starts at the
-- address `base`, which the linker chooses; `memory` holds 64-bit words by address. The FPU image and the
-- TLS base stand for themselves. The names of tasks are short enough for strcpy.
pub mod Tick
pub mod Stack
pub mod Create
pub mod Count
pub mod Turn
pub mod Switch
pub mod Resume
pub mod Keep
pub mod Fair
mod Tests
use kil0y_os.Prelude.{
  ℕ, zero, suc, ◌+◌, ◌-◌, ◌*◌, ◌%◌, ◌^◌, Bool, true, false, not, ◌&&◌, ◌||◌, Option, none, some,
  List, [], ◌∷◌, ◌++◌, replicate, ltb, leb, ◌==◌, if◌then◌else◌, update,
}
use kil0y_os.Prelude.Int.{ℤ, pos, negsuc, ◌+ℤ◌, ◌-ℤ◌, ltb_ℤ}
use kil0y_os.Sched.Wait.{ProcessState}

-- TASK_*
pub data TaskStatus : Type 0 where
  dead ready running : TaskStatus

-- task_t, less its stack, which lies in the memory.
pub record Task : Type 0 where
  pub rsp : ℕ
  pub status : TaskStatus
  pub name : List ℕ
  pub background : Bool

-- The fields of process_t that a switch uses; `cr3` is 0 if the process has no mm.
pub record Process : Type 0 where
  pub state : ProcessState
  pub parked_rsp : ℕ
  pub kernel_stack : ℕ
  pub cr3 : ℕ
  pub fs_base : ℕ
  pub fpu : ℕ

-- What a switch loads: the FPU, MSR_FS_BASE, the TSS's rsp0, syscall_kernel_rsp and CR3.
pub record Cpu : Type 0 where
  pub fpu : ℕ
  pub fs_base : ℕ
  pub rsp0 : ℕ
  pub syscall_kernel_rsp : ℕ
  pub cr3 : ℕ

pub record Scheduler : Type 0 where
  pub tasks : ℕ → Task
  pub task_count : ℤ
  pub current_task : ℕ
  pub cpu_busy_ticks : ℕ
  pub cpu_idle_ticks : ℕ
  pub user_frame : ℕ
  pub user_frame_valid : Bool
  pub main_switch_requested : Bool
  pub kernel_heartbeat : ℕ
  pub processes : ℕ → Process
  pub current_process : Option ℕ
  pub cpu : Cpu
  pub memory : ℕ → ℕ

abbrev pub max_tasks : ℕ
max_tasks = 16

abbrev pub max_processes : ℕ
max_processes = 128

abbrev pub task_stack_size : ℕ
task_stack_size = 32768

abbrev pub is_dead : Task → Bool
is_dead t = elim t.status [ TaskStatus.dead ↦ true | _ ↦ false ]

-- TASK_READY or TASK_RUNNING
abbrev pub runnable : Task → Bool
runnable t = elim t.status [ TaskStatus.dead ↦ false | _ ↦ true ]

abbrev pub ready_process : Process → Bool
ready_process p = elim p.state [ ProcessState.ready ↦ true | _ ↦ false ]

abbrev pub running_process : Process → Bool
running_process p = elim p.state [ ProcessState.running ↦ true | _ ↦ false ]

pub scheduler_request_main_switch : Scheduler → Scheduler
scheduler_request_main_switch s = record s { main_switch_requested = true }

pub scheduler_invalidate_user_frame : Scheduler → Scheduler
scheduler_invalidate_user_frame s = record s { user_frame_valid = false }

pub scheduler_main_return_rsp : Scheduler → ℕ
scheduler_main_return_rsp s = (s.tasks 0).rsp

pub scheduler_take_main_cpu : Scheduler → Scheduler
scheduler_take_main_cpu s = record s { current_task = 0 }

abbrev kernel_main : List ℕ
kernel_main = 107 ∷ 101 ∷ 114 ∷ 110 ∷ 101 ∷ 108 ∷ 95 ∷ 109 ∷ 97 ∷ 105 ∷ 110 ∷ []

-- The loop over the tasks from `i` on.
unfoldable pub all_dead : ℕ → (ℕ → Task) → ℕ → ℕ → Task
all_dead zero m i = m
all_dead (suc n) m i = all_dead n (update m i (record (m i) { status = TaskStatus.dead })) (i + 1)

unfoldable pub scheduler_init : Scheduler → Scheduler
scheduler_init s =
    let main = record (s.tasks 0) { status = TaskStatus.ready; rsp = 0; name = kernel_main } in
    record s {
      task_count = pos 1;
      current_task = 0;
      tasks = all_dead (max_tasks - 1) (update s.tasks 0 main) 1;
    }

-- The end of the task's stack: a task_t is 32816 bytes, and its stack starts at byte 44.
abbrev pub stack_end : ℕ → ℕ → ℕ
stack_end base i = base + i * 32816 + 44 + task_stack_size

-- *--sp = w, for each word in order.
unfoldable pub push_all : (ℕ → ℕ) → ℕ → List ℕ → (ℕ → ℕ) × ℕ
push_all m sp [] = (m, sp)
push_all m sp (w ∷ ws) = push_all (update m (sp - 8) w) (sp - 8) ws

-- SS, RSP, RFLAGS, CS, RIP; the interrupt's number and error code; r15 to rax.
abbrev pub frame : ℕ → ℕ → List ℕ
frame top entry = 16 ∷ top ∷ 514 ∷ 8 ∷ entry ∷ 32 ∷ 0 ∷ replicate 15 0

unfoldable pub setup_task_stack : ℕ → Scheduler → ℕ → ℕ → Scheduler
setup_task_stack base s i entry =
    let top = stack_end base i - stack_end base i % 16 in
    let out = push_all s.memory top (frame top entry) in
    record s { memory = out.0; tasks = update s.tasks i (record (s.tasks i) { rsp = out.1 }) }

unfoldable pub scheduler_set_main_return : ℕ → Scheduler → ℕ → Scheduler
scheduler_set_main_return base s entry =
    let built = setup_task_stack base s 0 entry in
    record built {
      tasks = update built.tasks 0 (record (built.tasks 0) { status = TaskStatus.ready });
    }

-- The first dead task from `i` on.
unfoldable pub find_dead : ℕ → (ℕ → Task) → ℕ → Option ℕ
find_dead zero m i = none
find_dead (suc n) m i = let rest = find_dead n m (i + 1) in if is_dead (m i) then some i else rest

-- `none` for -1. An entry or a name that is NULL is 0 or `none`.
unfoldable pub task_create : ℕ → Scheduler → ℕ → Option (List ℕ) → Scheduler × Option ℕ
task_create base s entry none = (s, none)
task_create base s entry (some name) =
    if entry == 0 then (s, none) else elim (find_dead (max_tasks - 1) s.tasks 1) [
      | none ↦ (s, none)
      | some i ↦
          let t = record (s.tasks i) {
            status = TaskStatus.ready;
            name = name;
            background = false;
          } in
          let built = setup_task_stack base (record s { tasks = update s.tasks i t }) i entry in
          (record built { task_count = built.task_count +ℤ pos 1 }, some i)
    ]

abbrev pub as_background : Scheduler × Option ℕ → Scheduler × Option ℕ
as_background (s, none) = (s, none)
as_background (s, some i) =
    (record s { tasks = update s.tasks i (record (s.tasks i) { background = true }) }, some i)

unfoldable pub task_create_bg : ℕ → Scheduler → ℕ → Option (List ℕ) → Scheduler × Option ℕ
task_create_bg base s entry name = as_background (task_create base s entry name)

unfoldable pub task_kill : Scheduler → ℤ → Scheduler × Bool
task_kill s (negsuc n) = (s, false)
task_kill s (pos i) = if leb max_tasks i || is_dead (s.tasks i) then (s, false) else (
  record s {
    tasks = update s.tasks i (record (s.tasks i) { status = TaskStatus.dead });
    task_count = s.task_count -ℤ pos 1;
  },
  true,
)

-- Up to the software interrupt.
unfoldable pub task_exit : Scheduler → Scheduler
task_exit s =
    let i = s.current_task in
    if ltb i max_tasks
    then record s {
      tasks = update s.tasks i (record (s.tasks i) { status = TaskStatus.dead });
      task_count = s.task_count -ℤ pos 1;
    }
    else s

pub task_get_status : Scheduler → ℤ → TaskStatus
task_get_status s (negsuc n) = TaskStatus.dead
task_get_status s (pos i) = if ltb i max_tasks then (s.tasks i).status else TaskStatus.dead

-- "???" for an index out of range.
pub task_get_name : Scheduler → ℤ → List ℕ
task_get_name s (negsuc n) = 63 ∷ 63 ∷ 63 ∷ []
task_get_name s (pos i) = if ltb i max_tasks then (s.tasks i).name else 63 ∷ 63 ∷ 63 ∷ []

pub task_get_count : Scheduler → ℤ
task_get_count s = s.task_count

pub kernel_heartbeat_touch : Scheduler → Scheduler
kernel_heartbeat_touch s = record s { kernel_heartbeat = (s.kernel_heartbeat + 1) % 2 ^ 64 }
