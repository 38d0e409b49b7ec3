-- ===== src/Sched/Wait.antt =====
-- src/kernel/sched/wait.c: wait queues, linked through the processes, and one-shot timers. A process is an
-- address, with 0 for NULL; a queue is named by an address too. The frame that process_frame_set_ret writes
-- (core/process.c) is its return slot. The uptime is an argument.
pub mod Links
pub mod Wake
mod Tests
use kil0y_os.Prelude.{
  ℕ, zero, suc, ◌+◌, ◌-◌, ◌%◌, ◌^◌, Bool, true, false, not, ◌&&◌, ◌||◌, Option, none, some, List,
  [], ◌∷◌, set, ltb, leb, ◌==◌, if◌then◌else◌, update,
}
use kil0y_os.Prelude.Int.{ℤ, pos, negsuc, minus}

-- PROCESS_STATE_*
pub data ProcessState : Type 0 where
  unused ready running blocked zombie : ProcessState

-- The fields of process_t that waiting uses.
pub record Process : Type 0 where
  pub state : ProcessState
  pub wait_next : ℕ
  pub parked : Bool
  pub ret : ℕ

-- wait_queue_t
pub record Queue : Type 0 where
  pub head : ℕ
  pub tail : ℕ

-- WAIT_RESTART, WAIT_COMPLETE
pub data Kind : Type 0 where
  restart complete : Kind

-- wait_timer_t
pub record Timer : Type 0 where
  pub used : Bool
  pub deadline : ℕ
  pub queue : ℕ
  pub kind : Kind
  pub ret : ℕ

pub record Wait : Type 0 where
  pub processes : ℕ → Process
  pub queues : ℕ → Queue
  pub timers : List Timer

abbrev pub set_next : (ℕ → Process) → ℕ → ℕ → ℕ → Process
set_next m p q = update m p (record (m p) { wait_next = q })

abbrev pub is_blocked : Process → Bool
is_blocked p = elim p.state [ blocked ↦ true | _ ↦ false ]

unfoldable pub wq_push : (ℕ → Process) → Queue → ℕ → (ℕ → Process) × Queue
wq_push m wq p =
    let cleared = set_next m p 0 in
    if wq.tail == 0
    then (cleared, record { head = p; tail = p })
    else (set_next cleared wq.tail p, record wq { tail = p })

-- The process, 0 if the queue is empty.
unfoldable pub wq_pop : (ℕ → Process) → Queue → ((ℕ → Process) × Queue) × ℕ
wq_pop m wq =
    let p = wq.head in
    let next = (m p).wait_next in
    if p == 0
    then ((m, wq), 0)
    else ((set_next m p 0, record { head = next; tail = if next == 0 then 0 else wq.tail }), p)

-- The last process of a chain.
pub last_from : ℕ → (ℕ → Process) → ℕ → ℕ
last_from zero m p = p
last_from (suc n) m p =
    let rest = last_from n m (m p).wait_next in if p == 0 || (m p).wait_next == 0 then p else rest

-- Writes what `pp` points at: the head of the queue, or the link of a process.
abbrev write_link : (ℕ → Process) → Queue → ℕ → ℕ → (ℕ → Process) × Queue
write_link m wq pp q = if pp == 0 then (m, record wq { head = q }) else (set_next m pp q, wq)

-- The walk of wq_unlink: `pp` is the process whose link is at hand (0 for the queue's head).
pub unlink_from : ℕ → (ℕ → Process) → Queue → ℕ → ℕ → ℕ → (ℕ → Process) × Queue
unlink_from zero m wq p pp at_hand = (m, wq)
unlink_from (suc n) m wq p pp at_hand =
    let rest = unlink_from n m wq p at_hand (m at_hand).wait_next in
    let cut = write_link m wq pp (m p).wait_next in
    let end_of = last_from n cut.0 cut.1.head in
    if at_hand == 0
    then (m, wq)
    else (if at_hand == p
        then (set_next cut.0 p 0, record cut.1 { tail = if wq.tail == p then end_of else wq.tail })
        else rest)

pub wq_unlink : ℕ → (ℕ → Process) → Queue → ℕ → (ℕ → Process) × Queue
wq_unlink n m wq p = unlink_from n m wq p 0 wq.head

abbrev pub set_ret : Kind → ℕ → Process → Process
set_ret restart ret p = p
set_ret complete ret p = if p.parked then record p { ret = ret } else p

unfoldable pub wake_locked : (ℕ → Process) → ℕ → Kind → ℕ → ℕ → Process
wake_locked m p kind ret = update m p (record (set_ret kind ret (m p)) { state = ready })

-- max < 0, or n < max
abbrev pub below : ℤ → ℕ → Bool
below (negsuc k) n = true
below (pos max) n = ltb n max

-- The loop of wait_wake; `n` counts the woken.
unfoldable pub wake_loop : ℕ → (ℕ → Process) → Queue → ℤ → ℕ → (ℕ → Process) × Queue
wake_loop zero m wq max n = (m, wq)
wake_loop (suc fuel) m wq max n =
    let popped = wq_pop m wq in
    let p = popped.1 in
    let woken = wake_loop fuel (wake_locked popped.0.0 p restart 0) popped.0.1 max (n + 1) in
    let passed = wake_loop fuel popped.0.0 popped.0.1 max n in
    if not (wq.head == 0) && below max n
    then (if is_blocked (popped.0.0 p) then woken else passed)
    else (m, wq)

unfoldable pub wait_wake : ℕ → Wait → ℕ → ℤ → Wait
wait_wake fuel w q max =
    let out = wake_loop fuel w.processes (w.queues q) max 0 in
    record w { processes = out.0; queues = update w.queues q out.1 }

-- The loop of wait_wake_status.
pub status_loop : ℕ → (ℕ → Process) → Queue → ℕ → (ℕ → Process) × Queue
status_loop zero m wq ret = (m, wq)
status_loop (suc fuel) m wq ret =
    let popped = wq_pop m wq in
    let p = popped.1 in
    let rest = status_loop fuel popped.0.0 popped.0.1 ret in
    if wq.head == 0
    then (m, wq)
    else (if is_blocked (popped.0.0 p)
        then (wake_locked popped.0.0 p complete ret, popped.0.1)
        else rest)

pub wait_wake_status : ℕ → Wait → ℕ → ℕ → Wait
wait_wake_status fuel w q ret =
    let out = status_loop fuel w.processes (w.queues q) ret in
    record w { processes = out.0; queues = update w.queues q out.1 }

pub wait_wake_proc : Wait → ℕ → Wait
wait_wake_proc w p =
    if not (p == 0) && is_blocked (w.processes p)
    then record w { processes = update w.processes p (record (w.processes p) { state = ready }) }
    else w

-- The first timer that is not used.
pub free_timer : List Timer → ℕ → Option ℕ
free_timer [] i = none
free_timer (t ∷ timers) i = if t.used then free_timer timers (i + 1) else some i

pub wait_timer_arm : Wait → ℕ → ℕ → ℕ → Kind → ℕ → Wait × ℤ
wait_timer_arm w now q us kind ret = elim (free_timer w.timers 0) [
  | none ↦ (w, minus 1)
  | some i ↦ (
    record w {
      timers = set w.timers i (record {
        used = true;
        deadline = (now + us) % 2 ^ 64;
        queue = q;
        kind = kind;
        ret = ret;
      });
    },
    pos 0,
  )
]

-- The first blocked process of a chain, 0 if there is none.
pub first_blocked : ℕ → (ℕ → Process) → ℕ → ℕ
first_blocked zero m p = 0
first_blocked (suc n) m p =
    let rest = first_blocked n m (m p).wait_next in
    if p == 0 then 0 else (if is_blocked (m p) then p else rest)

-- A timer that is due wakes the first blocked process of its queue.
pub fire : ℕ → Wait → Timer → Wait
fire fuel w t =
    let wq = w.queues t.queue in
    let p = first_blocked fuel w.processes wq.head in
    let cut = wq_unlink fuel w.processes wq p in
    if p == 0 then w else record w {
      processes = wake_locked cut.0 p t.kind t.ret;
      queues = update w.queues t.queue cut.1;
    }

-- The loop of wait_timers_poll, with the timers that are behind and ahead.
pub poll_timers : ℕ → ℕ → List Timer → Wait → Wait × List Timer
poll_timers fuel now [] w = (w, [])
poll_timers fuel now (t ∷ timers) w =
    let due = t.used && leb t.deadline now in
    let rest = poll_timers fuel now timers (if due then fire fuel w t else w) in
    (rest.0, (if due then record t { used = false } else t) ∷ rest.1)

pub wait_timers_poll : ℕ → ℕ → Wait → Wait
wait_timers_poll fuel now w =
    let out = poll_timers fuel now w.timers w in record out.0 { timers = out.1 }
