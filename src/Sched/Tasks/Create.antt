-- ===== src/Sched/Tasks/Create.antt =====
-- task_create and task_create_bg of src/kernel/sched/scheduler.c.
use kil0y_os.Prelude.{
  ℕ, zero, suc, ◌+◌, ◌≤◌, ◌<◌, ◌≡◌, ◌≢◌, refl, ap, sym, subst, true, false, Option, none, some,
  List, arith, update, ◌==◌, Bool-cases, Option-cases, inl, inr, ◌⊎◌,
}
use kil0y_os.Prelude.Int.{pos, ◌+ℤ◌}
use kil0y_os.Sched.Tasks.{
  Task, TaskStatus, Scheduler, max_tasks, is_dead, setup_task_stack, find_dead, task_create,
  stack_end,
}
use kil0y_os.Sched.Tasks.Stack.{FrameAt, setup_task_stack_lem}

-- The dead task that task_create takes, if there is one.
abbrev pub FoundDead : (ℕ → Task) → ℕ → ℕ → Option ℕ → Type 0
FoundDead m n i none = (q : ℕ) → i ≤ q → q < i + n → is_dead (m q) ≡ false
FoundDead m n i (some j) = (i ≤ j) × (j < i + n) × (is_dead (m j) ≡ true)

FoundDead-next :
    (m : ℕ → Task) (n i : ℕ) (r : Option ℕ)
    → is_dead (m i) ≡ false
    → FoundDead m n (i + 1) r
    → FoundDead m (suc n) i r
FoundDead-next m n i none e f = λ q a b. elim (Bool-cases (i == q)) [
  | inl t ↦ let e' : q ≡ i = ground arith in rw e' e
  | inr ne ↦ f q (ground arith) (omega arith)
]
FoundDead-next m n i (some j) e (a, b, c) = (omega arith, omega arith, c)

pub find_dead-FoundDead : (n : ℕ) (m : ℕ → Task) (i : ℕ) → FoundDead m n i (find_dead n m i)
unfolding find_dead
find_dead-FoundDead zero m i = λ q a b. absurd (omega arith)
find_dead-FoundDead (suc n) m i = elim (Bool-cases (is_dead (m i))) [
  | inl e ↦ rw e (omega arith, omega arith, e)
  | inr e ↦ rw e (FoundDead-next m n i _ e (find_dead-FoundDead n m (i + 1)))
]

setup_status :
    (base : ℕ) (s : Scheduler) (i entry q : ℕ)
    → ((setup_task_stack base s i entry).tasks q).status ≡ (s.tasks q).status
unfolding setup_task_stack
setup_status base s i entry q = ground arith

task_create-hit :
    (base : ℕ) (s : Scheduler) (entry i : ℕ) (name : List ℕ)
    → (entry == 0) ≡ false
    → find_dead 15 s.tasks 1 ≡ some i
    → let t = record (s.tasks i) { status = TaskStatus.ready; name = name; background = false } in
      let built = setup_task_stack base (record s { tasks = update s.tasks i t }) i entry in
      task_create base s entry (some name)
      ≡ (record built { task_count = s.task_count +ℤ pos 1 }, some i)
unfolding task_create setup_task_stack
task_create-hit base s entry i name e found = ground (arith, e, found)

task_create-miss :
    (base : ℕ) (s : Scheduler) (entry : ℕ) (name : List ℕ)
    → ((entry == 0) ≡ true) ⊎ (find_dead 15 s.tasks 1 ≡ none)
    → task_create base s entry (some name) ≡ (s, none)
unfolding task_create
task_create-miss base s entry name (inl e) = ground (arith, e)
task_create-miss base s entry name (inr e) = ground (arith, e)

no_name : (base : ℕ) (s : Scheduler) (entry : ℕ) → task_create base s entry none ≡ (s, none)
unfolding task_create
no_name base s entry = refl

-- What task_create did: nothing, for want of an entry, a name or a dead task, or a dead task other than the
-- main one became ready with a frame of its own, and the others are as they were.
abbrev pub Created : ℕ → Scheduler → ℕ → Option (List ℕ) → Scheduler × Option ℕ → Type 0
Created base s entry name (s', none) =
    (s' ≡ s)
    × ((entry ≡ 0)
        ⊎ (name ≡ none)
        ⊎ ((q : ℕ) → 1 ≤ q → q < max_tasks → is_dead (s.tasks q) ≡ false))
Created base s entry name (s', some i) =
    (1 ≤ i)
    × (i < max_tasks)
    × (is_dead (s.tasks i) ≡ true)
    × ((s'.tasks i).status ≡ TaskStatus.ready)
    × (name ≡ some (s'.tasks i).name)
    × ((s'.tasks i).background ≡ false)
    × FrameAt (stack_end base i) s.memory entry (s'.tasks i).rsp s'.memory
    × ((q : ℕ) → q ≢ i → s'.tasks q ≡ s.tasks q)
    × (s'.task_count ≡ s.task_count +ℤ pos 1)
    × (s'.current_task ≡ s.current_task)
    × (s'.user_frame_valid ≡ s.user_frame_valid)
    × (entry ≢ 0)

-- setup_task_stack on the task that task_create has filled in.
filled :
    (base : ℕ) (s : Scheduler) (i entry : ℕ) (name : List ℕ)
    → let t = record (s.tasks i) { status = TaskStatus.ready; name = name; background = false } in
      let built = setup_task_stack base (record s { tasks = update s.tasks i t }) i entry in
      ((built.tasks i).status ≡ TaskStatus.ready)
      × ((built.tasks i).name ≡ name)
      × ((built.tasks i).background ≡ false)
      × ((q : ℕ) → q ≢ i → built.tasks q ≡ s.tasks q)
      × (built.current_task ≡ s.current_task)
      × (built.user_frame_valid ≡ s.user_frame_valid)
unfolding setup_task_stack
filled base s i entry name =
    (ground arith, ground arith, ground arith, λ q d. ground (arith, d), refl, refl)

made_or_not :
    (base : ℕ) (s : Scheduler) (entry : ℕ) (name : List ℕ)
    → Created base s entry (some name) (task_create base s entry (some name))
made_or_not base s entry name = elim (Bool-cases (entry == 0)) [
  | inl e ↦
      let miss = task_create-miss base s entry name (inl e) in
      subst (Created base s entry (some name)) (sym miss) (refl, inl (ground (arith, e)))
  | inr e ↦
      let found = find_dead-FoundDead 15 s.tasks 1 in
      elim (Option-cases (find_dead 15 s.tasks 1)) [
        | inl none_dead ↦
            let miss = task_create-miss base s entry name (inr none_dead) in
            let all = subst (FoundDead s.tasks 15 1) none_dead found in
            subst (Created base s entry (some name)) (sym miss)
              (refl, inr (inr (λ q a b. all q a (omega arith))))
        | inr (i, at) ↦
            let hit = task_create-hit base s entry i name e at in
            let t = record (s.tasks i) {
              status = TaskStatus.ready;
              name = name;
              background = false;
            } in
            let parts = filled base s i entry name in
            let (low, high, was_dead) = subst (FoundDead s.tasks 15 1) at found in
            subst (Created base s entry (some name)) (sym hit) (
              low,
              high,
              was_dead,
              parts.0,
              ap some (sym (parts.1)),
              parts.2,
              setup_task_stack_lem base (record s { tasks = update s.tasks i t }) i entry,
              parts.3,
              refl,
              parts.4,
              parts.5,
              (λ z. absurd (ground (arith, e, z))),
            )
      ]
]

-- A task is made from an entry and a name, neither of them NULL, exactly if a task other than the main one is dead; it is then ready,
-- with a frame of its own from which the entry starts, it is counted, and the other tasks are as they were.
-- Otherwise nothing changes.
pub task_create-Created :
    (base : ℕ) (s : Scheduler) (entry : ℕ) (name : Option (List ℕ))
    → Created base s entry name (task_create base s entry name)
task_create-Created base s entry none =
    subst (Created base s entry none) (sym (no_name base s entry)) (refl, inr (inl refl))
task_create-Created base s entry (some name) = made_or_not base s entry name
