-- ===== src/Memory/Pages/Search.antt =====
-- What the two scans of the bitmap find: the first free page, and a run of free pages.
use kil0y_os.Prelude.{
  ℕ, zero, suc, ◌+◌, ◌/◌, ◌%◌, ◌≤◌, ◌<◌, ◌≡◌, refl, true, false, arith, leb, ◌==◌, if◌then◌else◌,
  Bool-cases, inl, inr, Option, none, some,
}
use kil0y_os.Prelude.Bits.{bit-lt}
use kil0y_os.Memory.Pages.{Pmm, max_pages, bitmap_test, find_free, find_run}
use kil0y_os.Memory.Pages.Invariant.{used_bit}

-- Whether every page from `a` up to `b` is free, or used.
abbrev pub AllFree : Pmm → ℕ → ℕ → Type 0
AllFree s a b = (q : ℕ) → a ≤ q → q < b → used_bit s q ≡ 0

abbrev pub AllUsed : Pmm → ℕ → ℕ → Type 0
AllUsed s a b = (q : ℕ) → a ≤ q → q < b → used_bit s q ≡ 1

pub test-used_bit : (s : Pmm) (p : ℕ) → p < max_pages → bitmap_test s p ≡ used_bit s p
unfolding bitmap_test
test-used_bit s p h = ground arith

-- The scan for one page from `p` over `n` pages.
abbrev pub FoundFree : Pmm → ℕ → ℕ → Option ℕ → Type 0
FoundFree s n p none = AllUsed s p (p + n)
FoundFree s n p (some q) = (p ≤ q) × (q < p + n) × (used_bit s q ≡ 0) × AllUsed s p q

FoundFree-next :
    (s : Pmm) (n p : ℕ) (r : Option ℕ)
    → used_bit s p ≡ 1
    → FoundFree s n (p + 1) r
    → FoundFree s (suc n) p r
FoundFree-next s n p none u f = λ q a b. elim (Bool-cases (p == q)) [
  | inl e ↦ let e' : p ≡ q = ground arith in rw (← e') u
  | inr ne ↦ f q (ground arith) (ground arith)
]
FoundFree-next s n p (some r) u (a, b, c, d) = (
  omega arith,
  omega arith,
  c,
  λ q l m. elim (Bool-cases (p == q)) [
    | inl e ↦ let e' : p ≡ q = ground arith in rw (← e') u
    | inr ne ↦ d q (ground arith) (ground arith)
  ],
)

find_free-hit : (s : Pmm) (n p : ℕ) → (bitmap_test s p == 0) ≡ true → find_free s (suc n) p ≡ some p
unfolding find_free
find_free-hit s n p e = ground arith

find_free-miss :
    (s : Pmm) (n p : ℕ)
    → (bitmap_test s p == 0) ≡ false
    → find_free s (suc n) p ≡ find_free s n (p + 1)
unfolding find_free
find_free-miss s n p e = ground arith

find_free-zero : (s : Pmm) (p : ℕ) → find_free s 0 p ≡ none
unfolding find_free
find_free-zero s p = refl

pub find_free-FoundFree :
    (s : Pmm) (n p : ℕ) → p + n ≤ max_pages → FoundFree s n p (find_free s n p)
find_free-FoundFree s zero p h = rw (find_free-zero s p) (λ q a b. absurd (omega arith))
find_free-FoundFree s (suc n) p h = elim (Bool-cases (bitmap_test s p == 0)) [
  | inl e ↦
      rw (find_free-hit s n p e)
        (omega arith, omega arith, ground (arith, test-used_bit s p), λ q a b. absurd (omega arith))
  | inr e ↦ rw (find_free-miss s n p e) (
      FoundFree-next s n p _ (ground (arith, test-used_bit s p, bit-lt (s.bitmap (p / 8)) (p % 8)))
        (find_free-FoundFree s n (p + 1) (omega arith)))
]

-- The scan for `count` pages that may start from `lo` on and end before `stop`.
abbrev pub NoRun : Pmm → ℕ → ℕ → ℕ → Type 0
NoRun s count lo stop = (q : ℕ) → lo ≤ q → q + count ≤ stop → ¬ (AllFree s q (q + count))

abbrev pub FoundRun : Pmm → ℕ → ℕ → ℕ → Option ℕ → Type 0
FoundRun s count lo stop none = NoRun s count lo stop
FoundRun s count lo stop (some q) = (lo ≤ q) × (q + count ≤ stop) × AllFree s q (q + count)

-- A used page ends every run that reaches it.
FoundRun-skip :
    (s : Pmm) (count lo p stop : ℕ) (r : Option ℕ)
    → used_bit s p ≡ 1
    → p < lo + count
    → lo ≤ p + 1
    → FoundRun s count (p + 1) stop r
    → FoundRun s count lo stop r
FoundRun-skip s count lo p stop none u l m f = λ q a b free. elim (Bool-cases (leb (p + 1) q)) [
  | inl e ↦ f q (ground arith) b free
  | inr e ↦ ground (arith, free p)
]
FoundRun-skip s count lo p stop (some q) u l m (a, b, free) = (omega arith, b, free)

AllFree-extend : (s : Pmm) (a p : ℕ) → AllFree s a p → used_bit s p ≡ 0 → AllFree s a (p + 1)
AllFree-extend s a p f u q l m = elim (Bool-cases (p == q)) [
  | inl e ↦ let e' : p ≡ q = ground arith in rw (← e') u
  | inr ne ↦ f q l (ground arith)
]

module _ (s : Pmm) (count : ℕ) where
  find_run-zero : (p c start : ℕ) → find_run s count 0 p c start ≡ none
  unfolding find_run
  find_run-zero p c start = refl

  find_run-hit :
      (n p c start : ℕ)
      → (bitmap_test s p == 0) ≡ true
      → leb count (c + 1) ≡ true
      → find_run s count (suc n) p c start ≡ some (if c == 0 then p else start)
  unfolding find_run
  find_run-hit n p c start t d = ground arith

  find_run-grow :
      (n p c start : ℕ)
      → (bitmap_test s p == 0) ≡ true
      → leb count (c + 1) ≡ false
      → find_run s count (suc n) p c start
        ≡ find_run s count n (p + 1) (c + 1) (if c == 0 then p else start)
  unfolding find_run
  find_run-grow n p c start t d = ground arith

  find_run-break :
      (n p c start : ℕ)
      → (bitmap_test s p == 0) ≡ false
      → find_run s count (suc n) p c start ≡ find_run s count n (p + 1) 0 start
  unfolding find_run
  find_run-break n p c start t = ground arith

  -- Before page `p`, `c` free pages end, and fewer than are wanted.
  pub find_run-FoundRun :
      (n p c start lo stop : ℕ)
      → p + n ≡ stop
      → stop ≤ max_pages
      → c < count
      → lo + c ≡ p
      → (if c == 0 then p else start) ≡ lo
      → AllFree s lo p
      → FoundRun s count lo stop (find_run s count n p c start)
  find_run-FoundRun zero p c start lo stop e h lt le at free =
      rw (find_run-zero p c start) (λ q a b f. absurd (omega arith))
  find_run-FoundRun (suc n) p c start lo stop e h lt le at free =
      elim (Bool-cases (bitmap_test s p == 0)) [
        | inl t ↦
            let u : used_bit s p ≡ 0 = ground (arith, test-used_bit s p) in
            let more : AllFree s lo (p + 1) = AllFree-extend s lo p free u in
            elim (Bool-cases (leb count (c + 1))) [
              | inl d ↦
                  rw (find_run-hit n p c start t d, at)
                    (omega arith, ground arith, λ q a b. more q a (ground arith))
              | inr d ↦ rw (find_run-grow n p c start t d) (
                  find_run-FoundRun n (p + 1) (c + 1) (if c == 0 then p else start) lo stop
                    (omega arith) h (ground arith) (omega arith) (ground arith) more)
            ]
        | inr t ↦ rw (find_run-break n p c start t) (
            FoundRun-skip s count lo p stop _
              (ground (arith, test-used_bit s p, bit-lt (s.bitmap (p / 8)) (p % 8))) (omega arith)
              (omega arith)
              (find_run-FoundRun n (p + 1) 0 start (p + 1) stop (omega arith) h (omega arith)
                (omega arith) (ground arith) (λ q a b. absurd (omega arith))))
      ]
