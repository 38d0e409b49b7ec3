-- ===== src/Sched/Tasks/Fair.antt =====
-- While the kernel's tasks share the CPU each runnable one gets it (src/kernel/sched/scheduler.c).
use kil0y_os.Prelude.{
  ℕ, zero, suc, ◌+◌, ◌-◌, ◌≤◌, ◌<◌, ◌≡◌, refl, sym, subst, ◌∙◌, true, false, none, arith,
  if◌then◌else◌, Bool-cases, inl, inr, ◌⊎◌, ltb,
}
use kil0y_os.Prelude.Int.{pos, ltb_ℤ}
use kil0y_os.Sched.Tasks.{Task, Scheduler, max_tasks, runnable}
use kil0y_os.Sched.Tasks.Tick.{
  process_pick_ready, running_user, kernel_tick, scheduler_tick, turn, account,
}
use kil0y_os.Sched.Tasks.Turn.{IsNext, after, turn-IsNext}
use kil0y_os.Sched.Tasks.Switch.{task_interrupted}
use kil0y_os.Sched.Tasks.Resume.{tick-kernel}

-- How many turns at most from `c` to `i`, which are between 1 and 16.
abbrev distance : ℕ → ℕ → ℕ
distance c i = if ltb c i then i - c else i + max_tasks - c

-- One turn reaches a runnable task or comes nearer to it.
turn-nearer :
    (m : ℕ → Task) (c i r : ℕ)
    → c < max_tasks
    → i < max_tasks
    → runnable (m i) ≡ true
    → IsNext m c r
    → (r ≡ i) ⊎ ((r < max_tasks) × (distance r i < distance c i))
turn-nearer m c i r small h run (k, low, high, at, stop, before) =
    let goal : after c (distance c i) ≡ i = ground (arith, small, h) in
    let least : k ≤ distance c i = elim (Bool-cases (ltb (distance c i) k)) [
      | inl far ↦
          let dead_at : runnable (m (after c (distance c i))) ≡ false =
            before (distance c i) (ground (arith, small, h)) (ground (arith, far)) in
          let dead_i : runnable (m i) ≡ false = subst (λ q. runnable (m q) ≡ false) goal dead_at in
          absurd (ground (arith, run, dead_i))
      | inr near ↦ ground (arith, near)
    ] in
    ground (arith, small, h, at, low, high, least)

-- No user process is running or ready, no switch to the main task is asked for, and tasks beside it exist.
pub record IsShared (s : Scheduler) : Type 0 where
  pub no_request : s.main_switch_requested ≡ false
  pub no_user : running_user s ≡ none
  pub no_ready : process_pick_ready s none ≡ none
  pub tasks_exist : ltb_ℤ (pos 1) s.task_count ≡ true
  pub indexed : s.current_task < max_tasks

-- What a tick does then.
record Turned (s s' : Scheduler) : Type 0 where
  shared : IsShared s'
  status : (q : ℕ) → (s'.tasks q).status ≡ (s.tasks q).status
  next : IsNext s.tasks s.current_task s'.current_task

kernel_tick-ready :
    (s : Scheduler) (rsp : ℕ)
    → process_pick_ready (task_interrupted s rsp) none ≡ none
    → ltb_ℤ (pos 1) s.task_count ≡ true
    → let kept = task_interrupted s rsp in
      let next = turn max_tasks kept.tasks s.current_task s.current_task in
      kernel_tick s rsp ≡ (record (account kept) { current_task = next }, (kept.tasks next).rsp)
unfolding kernel_tick
kernel_tick-ready s rsp none_ready many = ground (arith, none_ready, many)

same_ready :
    (s : Scheduler) (rsp : ℕ)
    → process_pick_ready (task_interrupted s rsp) none ≡ process_pick_ready s none
unfolding process_pick_ready
same_ready s rsp = refl

-- The round robin reads only the statuses.
same_turn :
    (m m' : ℕ → Task) (c r : ℕ)
    → ((q : ℕ) → (m' q).status ≡ (m q).status)
    → IsNext m' c r
    → IsNext m c r
same_turn m m' c r same (k, low, high, at, stop, before) =
    let run : (q : ℕ) → runnable (m q) ≡ runnable (m' q) = λ q. ground (arith, same q) in
    (
      k,
      low,
      high,
      at,
      elim stop [ inl e ↦ inl e | inr e ↦ inr (run r ∙ e) ],
      λ j a b. run (after c j) ∙ before j a b,
    )

tick-Turned : (s : Scheduler) (rsp : ℕ) → IsShared s → Turned s ((scheduler_tick s rsp).0)
unfolding process_pick_ready
tick-Turned s rsp h =
    let kept = task_interrupted s rsp in
    let e =
      tick-kernel s rsp h.no_request h.no_user
      ∙ kernel_tick-ready s rsp (same_ready s rsp ∙ h.no_ready) h.tasks_exist in
    let next = turn-IsNext kept.tasks s.current_task h.indexed in
    let status : (q : ℕ) → (kept.tasks q).status ≡ (s.tasks q).status = λ q. ground arith in
    let (k, low, high, at, stop, before) = next in
    subst (λ out. Turned s (out.0)) (sym e)
      (record {
        shared = record {
          no_request = h.no_request;
          no_user = h.no_user;
          no_ready = same_ready s rsp ∙ h.no_ready;
          tasks_exist = h.tasks_exist;
          indexed = omega (arith, at);
        };
        status = status;
        next = same_turn s.tasks kept.tasks s.current_task _ status next;
      })

-- The states after n ticks, which interrupt at the frames `rsps`.
abbrev pub ticks : (ℕ → ℕ) → ℕ → Scheduler → Scheduler
ticks rsps zero s = s
ticks rsps (suc n) s = ticks (λ k. rsps (k + 1)) n ((scheduler_tick s (rsps 0)).0)

reaches :
    (d : ℕ) (s : Scheduler) (i : ℕ) (rsps : ℕ → ℕ)
    → IsShared s
    → i < max_tasks
    → runnable (s.tasks i) ≡ true
    → distance s.current_task i ≤ d
    → (n : ℕ) × (1 ≤ n) × (n ≤ d) × ((ticks rsps n s).current_task ≡ i)
reaches zero s i rsps h l run near = absurd (ground (arith, near, h.indexed))
reaches (suc d) s i rsps h l run near =
    let s' = (scheduler_tick s (rsps 0)).0 in
    let t = tick-Turned s (rsps 0) h in
    elim (turn-nearer s.tasks s.current_task i s'.current_task h.indexed l run t.next) [
      | inl e ↦ (1, omega arith, omega arith, e)
      | inr (inside, nearer) ↦
          let run' : runnable (s'.tasks i) ≡ true = ground (arith, t.status i, run) in
          let (n, low, high, e) =
            reaches d s' i (λ k. rsps (k + 1)) t.shared l run' (omega (arith, nearer, near)) in
          (suc n, omega arith, omega arith, e)
    ]

-- While no user process is running or ready, no switch to the main task is asked for and other tasks exist,
-- a task that is not dead becomes the current one within 16 ticks.
pub runnable-scheduled :
    (s : Scheduler) (i : ℕ) (rsps : ℕ → ℕ)
    → IsShared s
    → i < max_tasks
    → runnable (s.tasks i) ≡ true
    → (n : ℕ) × (1 ≤ n) × (n ≤ max_tasks) × ((ticks rsps n s).current_task ≡ i)
runnable-scheduled s i rsps h l run =
    reaches max_tasks s i rsps h l run (ground (arith, h.indexed, l))
