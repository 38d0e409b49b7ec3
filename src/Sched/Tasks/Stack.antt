-- ===== src/Sched/Tasks/Stack.antt =====
-- The frame that setup_task_stack of src/kernel/sched/scheduler.c leaves on a task's stack.
use kil0y_os.Prelude.{
  ℕ, zero, suc, ◌+◌, ◌-◌, ◌*◌, ◌%◌, ◌≤◌, ◌<◌, ◌≡◌, refl, subst, arith, List, [], ◌∷◌, length,
  get_or, update, replicate, ◌∙◌, ◌⊎◌,
}
use kil0y_os.Sched.Tasks.{Scheduler, stack_end, push_all, frame, setup_task_stack, task_stack_size}

-- `ws` pushed below `sp`: the last word lies lowest, and no other word has changed.
abbrev pub Pushed : (ℕ → ℕ) → ℕ → List ℕ → (ℕ → ℕ) × ℕ → Type 0
Pushed m sp ws out =
    (out.1 + 8 * length ws ≡ sp)
    × ((k : ℕ) → k < length ws → out.0 (sp - 8 * (k + 1)) ≡ get_or ws k 0)
    × ((q : ℕ) → (q < out.1) ⊎ (sp ≤ q) → out.0 q ≡ m q)

word_at :
    (m : ℕ → ℕ) (sp w : ℕ) (ws : List ℕ)
    → m (sp - 8) ≡ w
    → ((k : ℕ) → k < length ws → m (sp - 8 - 8 * (k + 1)) ≡ get_or ws k 0)
    → (k : ℕ) → k < suc (length ws)
    → m (sp - 8 * (k + 1)) ≡ get_or (w ∷ ws) k 0
word_at m sp w ws first words zero l = first
word_at m sp w ws first words (suc k) l =
    let e : sp - 8 * (suc k + 1) ≡ sp - 8 - 8 * (k + 1) = omega arith in
    rw e (words k (omega arith))

pub push_all-Pushed :
    (ws : List ℕ) (m : ℕ → ℕ) (sp : ℕ) → 8 * length ws ≤ sp → Pushed m sp ws (push_all m sp ws)
unfolding push_all
push_all-Pushed [] m sp h = (omega arith, λ k l. absurd (omega arith), λ q l. refl)
push_all-Pushed (w ∷ ws) m sp h =
    let m' = update m (sp - 8) w in
    let out = push_all m' (sp - 8) ws in
    let (low, words, rest) = push_all-Pushed ws m' (sp - 8) (omega arith) in
    let first : out.0 (sp - 8) ≡ w = ground (arith, rest (sp - 8)) in
    (omega arith, word_at out.0 sp w ws first words, λ q l. ground (arith, low, l, rest q))

-- The 22 words below `top`, downwards: SS (the kernel's data segment), RSP, RFLAGS (interrupts allowed), CS (the
-- kernel's code segment), RIP, the number and the error code of IRQ 0, and 15 registers that are 0.
abbrev pub IsResumable : ℕ → ℕ → (ℕ → ℕ) → Type 0
IsResumable top entry m =
    (m (top - 8) ≡ 0x10)
    × (m (top - 16) ≡ top)
    × (m (top - 24) ≡ 0x202)
    × (m (top - 32) ≡ 0x08)
    × (m (top - 40) ≡ entry)
    × (m (top - 48) ≡ 32)
    × (m (top - 56) ≡ 0)
    × ((k : ℕ) → 7 ≤ k → k < 22 → m (top - 8 * (k + 1)) ≡ 0)

get_or-replicate : (z n k : ℕ) → get_or (replicate n z) k z ≡ z
get_or-replicate z zero k = refl
get_or-replicate z (suc n) zero = refl
get_or-replicate z (suc n) (suc k) = get_or-replicate z n k

frame-registers :
    (top entry j : ℕ) → get_or (frame top entry) (suc (suc (suc (suc (suc (suc (suc j))))))) 0 ≡ 0
frame-registers top entry j = get_or-replicate 0 15 j

frame-IsResumable :
    (top entry : ℕ) (m : ℕ → ℕ)
    → ((k : ℕ) → k < 22 → m (top - 8 * (k + 1)) ≡ get_or (frame top entry) k 0)
    → IsResumable top entry m
frame-IsResumable top entry m words = (
  words 0 (omega arith),
  words 1 (omega arith),
  words 2 (omega arith),
  words 3 (omega arith),
  words 4 (omega arith),
  words 5 (omega arith),
  words 6 (omega arith),
  λ k a l.
      let e : suc (suc (suc (suc (suc (suc (suc (k - 7))))))) ≡ k = omega (arith, a) in
      words k l
      ∙ subst (λ j. get_or (frame top entry) j 0 ≡ 0) e (frame-registers top entry (k - 7)),
)

-- The frame at `rsp` of a stack that ends at `end`, in the memory `m'`: at the top of the stack, aligned to
-- 16 bytes, with the words that the return from the interrupt pops. The rest of the memory is that of `m`.
abbrev pub FrameAt : ℕ → (ℕ → ℕ) → ℕ → ℕ → (ℕ → ℕ) → Type 0
FrameAt end m entry rsp m' =
    let top = rsp + 176 in
    (top % 16 ≡ 0)
    × (top ≤ end)
    × (end ≤ rsp + task_stack_size)
    × IsResumable top entry m'
    × ((q : ℕ) → (q < rsp) ⊎ (top ≤ q) → m' q ≡ m q)

-- A task's stack gets one frame: it lies in the stack and is aligned, its words are those that the return
-- from the interrupt pops, and no other word of the memory changes.
pub setup_task_stack_lem :
    (base : ℕ) (s : Scheduler) (i entry : ℕ)
    → let s' = setup_task_stack base s i entry in
      FrameAt (stack_end base i) s.memory entry (s'.tasks i).rsp s'.memory
unfolding setup_task_stack
setup_task_stack_lem base s i entry =
    let end = stack_end base i in
    let top = end - end % 16 in
    let ws = frame top entry in
    let out = push_all s.memory top ws in
    let (low, words, rest) = push_all-Pushed ws s.memory top (omega arith) in
    let e : top ≡ out.1 + 176 = omega arith in
    let at : out.1 ≡ ((setup_task_stack base s i entry).tasks i).rsp = ground arith in
    let laid : FrameAt end s.memory entry out.1 out.0 = (
      omega arith,
      omega arith,
      omega arith,
      subst (λ t. IsResumable t entry out.0) e (frame-IsResumable top entry out.0 words),
      λ q l. rest q (omega arith),
    ) in
    subst (λ r. FrameAt end s.memory entry r out.0) at laid
