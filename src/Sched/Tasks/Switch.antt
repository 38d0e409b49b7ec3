-- ===== src/Sched/Tasks/Switch.antt =====
-- What scheduler_tick of src/kernel/sched/scheduler.c saves and resumes.
use kil0y_os.Prelude.{
  ℕ, zero, suc, ◌+◌, ◌≡◌, ◌≢◌, ap, sym, subst, true, false, ◌&&◌, Option, none, some, arith, ◌==◌,
  if◌then◌else◌, Bool-cases, inl, inr, update,
}
use kil0y_os.Sched.Tasks.{Process, Scheduler, ready_process, running_process}
use kil0y_os.Sched.Tasks.Tick.{
  is_the, pick_from, process_pick_ready, process_become_current, running_user, switch_user,
  user_tick, kernel_tick,
}

-- Who has the CPU: a kernel task, or a user process.
pub data Owner : Type 0 where
  task : ℕ → Owner
  user : ℕ → Owner

-- While a user frame is parked the main task runs in place of the running user process.
abbrev pub owner : Scheduler → Owner
owner s = elim (running_user s) [
  | none ↦ task s.current_task
  | some u ↦ if s.user_frame_valid then task 0 else user u
]

-- The frame kept for one that does not have the CPU.
abbrev pub kept_frame : Scheduler → Owner → ℕ
kept_frame s (task i) = (s.tasks i).rsp
kept_frame s (user p) =
    if s.user_frame_valid && is_the (running_user s) p
    then s.user_frame
    else (s.processes p).parked_rsp

-- The tick interrupts `o` at `rsp` and resumes `o'` at `r`: what was interrupted is kept, what is resumed
-- was kept, and no other frame changes.
abbrev pub Switched : Scheduler → ℕ → Owner → Owner → Scheduler → ℕ → Type 0
Switched s rsp o o' s' r =
    (o ≢ o' → (kept_frame s' o ≡ rsp) × (r ≡ kept_frame s o'))
    × (o ≡ o' → r ≡ rsp)
    × ((q : Owner) → q ≢ o → q ≢ o' → kept_frame s' q ≡ kept_frame s q)

-- The process that process_pick_ready finds.
abbrev pub Picked : (ℕ → Process) → Option ℕ → Option ℕ → Type 0
Picked m skip none = Unit
Picked m skip (some p) = (ready_process (m p) ≡ true) × (is_the skip p ≡ false)

pub pick_from-Picked :
    (n : ℕ) (m : ℕ → Process) (skip : Option ℕ) (i : ℕ) → Picked m skip (pick_from n m skip i)
unfolding pick_from
pick_from-Picked zero m skip i = tt
pick_from-Picked (suc n) m skip i = ground (arith, pick_from-Picked n m skip (i + 1))

task≢user : {i p : ℕ} → task i ≢ user p
task≢user e = subst (λ o. elim o [ task _ ↦ Unit | user _ ↦ ⊥ ]) e tt

task_ne : {i j : ℕ} → task j ≢ task i → (i == j) ≡ false
task_ne {i = i} {j = j} d = elim (Bool-cases (i == j)) [
  | inl e ↦ let e' : j ≡ i = ground arith in absurd (d (ap task e'))
  | inr n ↦ n
]

user_ne : {i j : ℕ} → user j ≢ user i → (i == j) ≡ false
user_ne {i = i} {j = j} d = elim (Bool-cases (i == j)) [
  | inl e ↦ let e' : j ≡ i = ground arith in absurd (d (ap user e'))
  | inr n ↦ n
]

-- To compare two functions of an owner.
by_owner :
    {o o' : Owner} (f g : Owner → ℕ)
    → ((i : ℕ) → task i ≢ o → task i ≢ o' → f (task i) ≡ g (task i))
    → ((p : ℕ) → user p ≢ o → user p ≢ o' → f (user p) ≡ g (user p))
    → (q : Owner) → q ≢ o
    → q ≢ o'
    → f q ≡ g q
by_owner f g t u (task i) = t i
by_owner f g t u (user p) = u p

-- The running user process and what it implies.
running_current :
    (s : Scheduler) (u : ℕ)
    → running_user s ≡ some u
    → (s.current_process ≡ some u) × (running_process (s.processes u) ≡ true)
running_current s u e = (ground (arith, e), ground (arith, e))

abbrev pub main_interrupted : Scheduler → ℕ → Scheduler
main_interrupted s rsp = record s {
  tasks = update s.tasks 0 (record (s.tasks 0) { rsp = rsp });
  user_frame_valid = false;
}

abbrev pub task_interrupted : Scheduler → ℕ → Scheduler
task_interrupted s rsp =
    let c = s.current_task in
    record s {
      user_frame_valid = false;
      tasks = update s.tasks c (record (s.tasks c) { rsp = rsp });
    }

-- A user process is interrupted: its frame is parked, and the main task runs.
pub save_user :
    (s : Scheduler) (u rsp : ℕ)
    → running_user s ≡ some u
    → s.user_frame_valid ≡ false
    → let (s', r) = user_tick s u rsp in
      (owner s' ≡ task 0)
      × (running_user s' ≡ some u)
      × (s'.user_frame_valid ≡ true)
      × Switched s rsp (user u) (task 0) s' r
unfolding user_tick
save_user s u rsp e v =
    let (c, run) = running_current s u e in
    let s' = (user_tick s u rsp).0 in
    let run' : running_user s' ≡ some u = ground (arith, c, run, v) in
    (
      ground (arith, run', v),
      run',
      ground (arith, v),
      (
        λ d. (ground (arith, run', v), ground (arith, v)),
        λ e. absurd (task≢user (sym e)),
        by_owner (kept_frame s') (kept_frame s) (λ i a b. ground (arith, v))
            (λ p a b. ground (arith, v, run', user_ne a)),
      ),
    )

-- The main task is interrupted and no other process is ready: the user process goes on.
pub resume_user :
    (s : Scheduler) (u rsp : ℕ)
    → running_user s ≡ some u
    → s.user_frame_valid ≡ true
    → process_pick_ready (main_interrupted s rsp) (some u) ≡ none
    → let (s', r) = user_tick s u rsp in
      (owner s' ≡ user u)
      × (running_user s' ≡ some u)
      × (s'.user_frame_valid ≡ false)
      × Switched s rsp (task 0) (user u) s' r
unfolding user_tick
resume_user s u rsp e v none_ready =
    let (c, run) = running_current s u e in
    let s' = (user_tick s u rsp).0 in
    let run' : running_user s' ≡ some u = ground (arith, c, run, v, none_ready) in
    let valid : s'.user_frame_valid ≡ false = ground (arith, v, none_ready) in
    (
      ground (arith, run', valid),
      run',
      valid,
      (
        λ d. (ground (arith, v, none_ready), ground (arith, v, none_ready, e)),
        λ e. absurd (task≢user e),
        by_owner (kept_frame s') (kept_frame s) (λ i a b. ground (arith, v, none_ready, task_ne a))
            (λ p a b. ground (arith, v, none_ready, valid, e, user_ne b)),
      ),
    )

-- The main task is interrupted and another process is ready: the user process is parked, and it goes on.
pub change_user :
    (s : Scheduler) (u next rsp : ℕ)
    → running_user s ≡ some u
    → s.user_frame_valid ≡ true
    → process_pick_ready (main_interrupted s rsp) (some u) ≡ some next
    → (u == next) ≡ false
    → let (s', r) = user_tick s u rsp in
      (owner s' ≡ user next)
      × (running_user s' ≡ some next)
      × (s'.user_frame_valid ≡ false)
      × Switched s rsp (task 0) (user next) s' r
unfolding user_tick switch_user process_become_current
change_user s u next rsp e v found d =
    let (c, run) = running_current s u e in
    let s' = (user_tick s u rsp).0 in
    let run' : running_user s' ≡ some next = ground (arith, v, found) in
    let valid : s'.user_frame_valid ≡ false = ground (arith, v, found) in
    (
      ground (arith, run', valid),
      run',
      valid,
      (
        λ ne. (ground (arith, v, found), ground (arith, v, found, e, d)),
        λ e. absurd (task≢user e),
        by_owner (kept_frame s') (kept_frame s) (λ i a b. ground (arith, v, found, task_ne a))
            (λ p a b. ground (arith, v, found, valid, e, user_ne b, d)),
      ),
    )

-- A kernel task is interrupted and a process is ready: it gets the CPU.
pub wake_user :
    (s : Scheduler) (p rsp : ℕ)
    → running_user s ≡ none
    → process_pick_ready (task_interrupted s rsp) none ≡ some p
    → let (s', r) = kernel_tick s rsp in
      (owner s' ≡ user p)
      × (running_user s' ≡ some p)
      × (s'.user_frame_valid ≡ false)
      × Switched s rsp (task s.current_task) (user p) s' r
unfolding kernel_tick process_become_current
wake_user s p rsp e found =
    let s' = (kernel_tick s rsp).0 in
    let run' : running_user s' ≡ some p = ground (arith, found) in
    let valid : s'.user_frame_valid ≡ false = ground (arith, found) in
    (
      ground (arith, run', valid),
      run',
      valid,
      (
        λ ne. (ground (arith, found), ground (arith, found, e)),
        λ e. absurd (task≢user e),
        by_owner (kept_frame s') (kept_frame s) (λ i a b. ground (arith, found, task_ne a))
            (λ q a b. ground (arith, found, valid, e, user_ne b)),
      ),
    )

-- A kernel task is interrupted and no process is ready: the next kernel task gets the CPU.
pub next_task :
    (s : Scheduler) (rsp : ℕ)
    → running_user s ≡ none
    → process_pick_ready (task_interrupted s rsp) none ≡ none
    → let (s', r) = kernel_tick s rsp in
      (owner s' ≡ task s'.current_task)
      × (running_user s' ≡ none)
      × (s'.user_frame_valid ≡ false)
      × Switched s rsp (task s.current_task) (task s'.current_task) s' r
unfolding kernel_tick
next_task s rsp e none_ready =
    let s' = (kernel_tick s rsp).0 in
    let run' : running_user s' ≡ none = ground (arith, none_ready, e) in
    let valid : s'.user_frame_valid ≡ false = ground (arith, none_ready) in
    (
      ground (arith, run', valid),
      run',
      valid,
      (
        λ ne.
            (ground (arith, none_ready), ground (arith, none_ready, e, task_ne (λ h. ne (sym h)))),
        λ e'. ground (arith, none_ready),
        by_owner (kept_frame s') (kept_frame s) (λ i a b. ground (arith, none_ready, task_ne a))
            (λ q a b. ground (arith, none_ready, valid, e)),
      ),
    )
