-- ===== src/Sched/Wait/Wake.antt =====
-- Waking in src/kernel/sched/wait.c: which processes wait_wake makes ready, and what stays in the queue.
use kil0y_os.Prelude.{
  ℕ, ◌+◌, ◌≤◌, ◌≡◌, refl, Bool, false, ◌&&◌, ◌||◌, List, [], ◌∷◌, ◌==◌, if◌then◌else◌, arith,
}
use kil0y_os.Prelude.Int.{ℤ}
use kil0y_os.Sched.Wait.{ready, Process, Queue, Wait, wq_pop, is_blocked, below}
use kil0y_os.Sched.Wait.Links.{NotIn, IsQueue}

-- The processes of a list that are still in the queue once `max` blocked ones are woken, `n` of them so far.
abbrev pub left : (ℕ → Bool) → ℤ → ℕ → List ℕ → List ℕ
left waits max n [] = []
left waits max n (p ∷ ps) =
    if below max n then left waits max (if waits p then n + 1 else n) ps else p ∷ ps

-- Whether `x` is one of the woken.
abbrev pub is_woken : (ℕ → Bool) → ℤ → ℕ → List ℕ → ℕ → Bool
is_woken waits max n [] x = false
is_woken waits max n (p ∷ ps) x =
    below max n && (p == x && waits p || is_woken waits max (if waits p then n + 1 else n) ps x)

-- The processes of the list that are blocked.
abbrev Agree : (ℕ → Process) → (ℕ → Bool) → List ℕ → Type 0
Agree m waits [] = 0 ≤ 0
Agree m waits (p ∷ ps) = (is_blocked (m p) ≡ waits p) × Agree m waits ps

-- After the loop: the queue, and the state of every process.
abbrev pub Woken : (ℕ → Bool) → ℤ → ℕ → List ℕ → (ℕ → Process) → (ℕ → Process) × Queue → Type 0
Woken waits max n ps m (m', wq') =
    IsQueue m' wq' (left waits max n ps)
    × ((x : ℕ) → (m' x).state ≡ (if is_woken waits max n ps x then ready else (m x).state))

module _ (fuel : ℕ) (m : ℕ → Process) (wq : Queue) (max : ℤ) (n : ℕ) where
  abbrev popped : ((ℕ → Process) × Queue) × ℕ
  popped = wq_pop m wq

-- Whoever is not in the list is not woken.
is_woken-NotIn :
    (waits : ℕ → Bool) (max : ℤ) (n : ℕ) (ps : List ℕ) (x : ℕ)
    → NotIn x ps
    → is_woken waits max n ps x ≡ false
is_woken-NotIn waits max n [] x k = refl
is_woken-NotIn waits max n (p ∷ ps) x (ne, k) =
    ground (arith, ne, is_woken-NotIn waits max (if waits p then n + 1 else n) ps x k)
