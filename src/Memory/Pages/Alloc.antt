-- ===== src/Memory/Pages/Alloc.antt =====
-- What pmm_alloc_page, pmm_alloc_pages, pmm_free_pages and pmm_get_stats promise.
use kil0y_os.Prelude.{
  ℕ, ◌+◌, ◌-◌, ◌*◌, ◌/◌, ◌≤◌, ◌<◌, ◌≡◌, ◌≢◌, refl, ap, true, arith, ltb, leb, ◌==◌, if◌then◌else◌,
  Bool-cases, Option-cases, inl, inr, ◌⊎◌, ◌&&◌, ◌∙◌, Option, none, some, sym,
}
use kil0y_os.Memory.Pages.{
  Pmm, max_pages, page_size, find_free, find_run, take_page, take_run, alloc_page, alloc_pages,
  free_pages, get_stats,
}
use kil0y_os.Memory.Pages.View.{count_used, sum_below-same, count_used-le, count_used-add, page_bit}
use kil0y_os.Memory.Pages.Invariant.{IsValid, used_bit, used-bitmap_set, bitmap_set-IsValid}
use kil0y_os.Memory.Pages.Regions.{
  mark_from-IsValid, used-mark_from, free_pages_from-IsValid, used-free_pages_from,
}
use kil0y_os.Memory.Pages.Search.{
  AllFree, AllUsed, NoRun, FoundFree, FoundRun, find_free-FoundFree, find_run-FoundRun,
}

-- `out` is `s` with the free pages start, ..., start + count - 1 taken, and the address of the first.
pub record Taken (s : Pmm) (count start : ℕ) (out : Pmm × ℕ) : Type 0 where
  pub inside : start + count ≤ max_pages
  pub free : AllFree s start (start + count)
  pub address : out.1 ≡ start * page_size
  pub valid : IsValid out.0
  pub bits :
      (q : ℕ)
      → used_bit out.0 q ≡ (if leb start q && ltb q (start + count) then 1 else used_bit s q)

take_page-Taken :
    (s : Pmm) (p : ℕ) → IsValid s → p < max_pages → used_bit s p ≡ 0 → Taken s 1 p (take_page s p)
take_page-Taken s p v l u = record {
  inside = omega arith;
  free = λ q a b. let e : p ≡ q = omega arith in rw (← e) u;
  address = refl;
  valid = record {
    bytes = (bitmap_set-IsValid s v p).bytes;
    counted = (bitmap_set-IsValid s v p).counted;
    hint = omega arith;
  };
  bits = λ q. used-bitmap_set s v p q ∙ ground arith;
}

take_run-Taken :
    (s : Pmm) (count start : ℕ)
    → IsValid s
    → start + count ≤ max_pages
    → AllFree s start (start + count)
    → Taken s count start (take_run s start count)
take_run-Taken s count start v l f = record {
  inside = l;
  free = f;
  address = refl;
  valid = record {
    bytes = (mark_from-IsValid true count start s v).bytes;
    counted = (mark_from-IsValid true count start s v).counted;
    hint = l;
  };
  bits = λ q. used-mark_from true count start s q v ∙ ground arith;
}

-- The outcome of an allocation: a run is taken, or there is none and nothing changes.
abbrev pub Outcome : Pmm → ℕ → (Pmm × ℕ) → Type 0
Outcome s count out =
    ((start : ℕ) × Taken s count start out) ⊎ (NoRun s count 0 max_pages × (out ≡ (s, 0)))

module _ (s : Pmm) where
  alloc_page-first :
      (p : ℕ)
      → find_free s (max_pages - s.last_page) s.last_page ≡ some p
      → alloc_page s ≡ take_page s p
  unfolding alloc_page
  alloc_page-first p e = ground arith

  alloc_page-second :
      (p : ℕ)
      → find_free s (max_pages - s.last_page) s.last_page ≡ none
      → find_free s s.last_page 0 ≡ some p
      → alloc_page s ≡ take_page s p
  unfolding alloc_page
  alloc_page-second p e f = ground arith

  alloc_page-none :
      find_free s (max_pages - s.last_page) s.last_page ≡ none
      → find_free s s.last_page 0 ≡ none
      → alloc_page s ≡ (s, 0)
  unfolding alloc_page
  alloc_page-none e f = ground arith

  Found-high :
      IsValid s
      → FoundFree s
          (max_pages - s.last_page)
          s.last_page
          (find_free s (max_pages - s.last_page) s.last_page)
  Found-high v = find_free-FoundFree s (max_pages - s.last_page) s.last_page (omega (arith, v.hint))

  Found-low : IsValid s → FoundFree s s.last_page 0 (find_free s s.last_page 0)
  Found-low v = find_free-FoundFree s s.last_page 0 (omega (arith, v.hint))

  no_page :
      IsValid s
      → AllUsed s s.last_page (s.last_page + (max_pages - s.last_page))
      → AllUsed s 0 (0 + s.last_page)
      → NoRun s 1 0 max_pages
  no_page v high low q a b f = elim (Bool-cases (ltb q s.last_page)) [
    | inl l ↦ ground (arith, f q, low q)
    | inr l ↦ ground (arith, f q, high q, v.hint)
  ]

-- pmm_alloc_page takes one free page, marks it and no other page used and returns its address; it
-- returns 0 and changes nothing exactly when no page is free. The counter stays right.
pub alloc_page-Outcome : (s : Pmm) → IsValid s → Outcome s 1 (alloc_page s)
alloc_page-Outcome s v = elim (Option-cases (find_free s (max_pages - s.last_page) s.last_page)) [
  | inr (p, e) ↦
      let f = rw e at (Found-high s v) in
      rw (alloc_page-first s p e) (inl (p, take_page-Taken s p v (omega (arith, v.hint)) f.2))
  | inl e ↦ elim (Option-cases (find_free s s.last_page 0)) [
    | inr (p, e') ↦
        let f = rw e' at (Found-low s v) in
        rw (alloc_page-second s p e e') (inl (p, take_page-Taken s p v (omega (arith, v.hint)) f.2))
    | inl e' ↦
        rw (alloc_page-none s e e')
          (inr (no_page s v (rw e at (Found-high s v)) (rw e' at (Found-low s v)), refl))
  ]
]

-- The two passes of the scan for a run.
abbrev high_pass : Pmm → ℕ → Option ℕ
high_pass s count = find_run s count (max_pages - s.last_page) s.last_page 0 0

abbrev low_pass : Pmm → ℕ → Option ℕ
low_pass s count = find_run s count max_pages 0 0 0

module _ (s : Pmm) (count : ℕ) (many : 1 < count) where
  alloc_pages-high : (p : ℕ) → high_pass s count ≡ some p → alloc_pages s count ≡ take_run s p count
  unfolding alloc_pages
  alloc_pages-high p e = ground arith

  alloc_pages-low :
      (p : ℕ)
      → high_pass s count ≡ none
      → s.last_page ≢ 0
      → low_pass s count ≡ some p
      → alloc_pages s count ≡ take_run s p count
  unfolding alloc_pages
  alloc_pages-low p e ne f = ground arith

  alloc_pages-none :
      high_pass s count ≡ none
      → ((s.last_page ≡ 0) ⊎ (low_pass s count ≡ none))
      → alloc_pages s count ≡ (s, 0)
  unfolding alloc_pages
  alloc_pages-none e f = ground arith

  Run-high : IsValid s → FoundRun s count s.last_page max_pages (high_pass s count)
  Run-high v =
      find_run-FoundRun s count (max_pages - s.last_page) s.last_page 0 0 s.last_page max_pages
        (omega (arith, v.hint)) (omega arith) (omega arith) (omega arith) refl
        (λ q a b. absurd (omega arith))

  Run-low : FoundRun s count 0 max_pages (low_pass s count)
  Run-low =
      find_run-FoundRun s count max_pages 0 0 0 0 max_pages (omega arith) (omega arith)
        (omega arith) (omega arith) refl (λ q a b. absurd (omega arith))

  pub run-Outcome : IsValid s → Outcome s count (alloc_pages s count)
  run-Outcome v = elim (Option-cases (high_pass s count)) [
    | inr (p, e) ↦
        let f = rw e at (Run-high v) in
        rw (alloc_pages-high p e) (inl (p, take_run-Taken s count p v f.1 f.2))
    | inl e ↦ elim (Bool-cases (s.last_page == 0)) [
      | inl z ↦
          let z' : s.last_page ≡ 0 = ground arith in
          rw (alloc_pages-none e (inl z')) (inr (rw z' at (rw e at (Run-high v)), refl))
      | inr z ↦ elim (Option-cases (low_pass s count)) [
        | inr (p, e') ↦
            let f = rw e' at Run-low in
            rw (alloc_pages-low p e (ground arith) e') (inl (p, take_run-Taken s count p v f.1 f.2))
        | inl e' ↦ rw (alloc_pages-none e (inr e')) (inr (rw e' at Run-low, refl))
      ]
    ]
  ]

alloc_pages-one : (s : Pmm) → alloc_pages s 1 ≡ alloc_page s
unfolding alloc_pages
alloc_pages-one s = refl

-- pmm_alloc_pages, for any number of pages above 0, takes that many free consecutive pages inside
-- the bitmap, marks them and no other page used and returns the address of the first; it returns 0
-- and changes nothing exactly when no such run is free. The counter stays right.
pub alloc_pages-Outcome :
    (s : Pmm) (count : ℕ) → IsValid s → 0 < count → Outcome s count (alloc_pages s count)
alloc_pages-Outcome s count v h = elim (Bool-cases (count == 1)) [
  | inl e ↦
      let e' : count ≡ 1 = ground arith in rw e' (rw (alloc_pages-one s) (alloc_page-Outcome s v))
  | inr e ↦ run-Outcome s count (ground arith) v
]

module _ (s : Pmm) (count start : ℕ) (out : Pmm × ℕ) (t : Taken s count start out)
    (ne : out.1 ≢ 0) where
  free_pages_bits : (q : ℕ) → used_bit (free_pages out.0 out.1 count) q ≡ used_bit s q
  unfolding free_pages
  free_pages_bits q = rw (t.address) (
      used-free_pages_from count 0 out.0 start q t.valid (ground (arith, t.address))
        (omega (arith, t.inside))
      ∙ ground (arith, t.bits q, t.free q))

  free_pages-IsValid : IsValid (free_pages out.0 out.1 count)
  unfolding free_pages
  free_pages-IsValid = free_pages_from-IsValid count 0 out.0 out.1 t.valid

  free_pages-count : IsValid s → (free_pages out.0 out.1 count).used_pages ≡ s.used_pages
  free_pages-count v =
      free_pages-IsValid.counted
      ∙ (sum_below-same max_pages (page_bit s.bitmap) _ (λ q l. free_pages_bits q) ∙ sym v.counted)

-- Freeing what pmm_alloc_pages returned restores the bit of every page and the counter, where
-- the allocation returned an address other than 0.
pub free_pages-alloc_pages :
    (s : Pmm) (count : ℕ)
    → IsValid s
    → 0 < count
    → (alloc_pages s count).1 ≢ 0
    → let (s', phys) = alloc_pages s count in
      ((q : ℕ) → used_bit (free_pages s' phys count) q ≡ used_bit s q)
      × ((free_pages s' phys count).used_pages ≡ s.used_pages)
      × IsValid (free_pages s' phys count)
free_pages-alloc_pages s count v h ne = elim (alloc_pages-Outcome s count v h) [
  | inr (_, e) ↦ absurd (ne (ap (λ (r : Pmm × ℕ). r.1) e))
  | inl (start, t) ↦ (
    free_pages_bits s count start _ t ne,
    free_pages-count s count start _ t ne v,
    free_pages-IsValid s count start _ t ne,
  )
]

-- The pages that pmm_get_stats is about: those below pmm_ram_top, or all of the bitmap if pmm_ram_top is not known, or
-- less than a page.
abbrev pub IsTotal : Pmm → ℕ → Type 0
IsTotal s n =
    ((0 < s.ram_top / page_size) × (n ≡ s.ram_top / page_size))
    ⊎ ((s.ram_top / page_size ≡ 0) × (n ≡ max_pages))

-- Let n be the number of pages below pmm_ram_top, or of all the pages of the bitmap if pmm_ram_top is less than a page.
-- If the counter is right, n is at most the size of the bitmap and the pages from n on are marked used, then pmm_get_stats reports n, how
-- many of these pages are marked used, and how many are free: the O(1) answer is that of a walk of the bitmap.
pub get_stats_lem :
    (s : Pmm) (n : ℕ)
    → IsValid s
    → IsTotal s n
    → n ≤ max_pages
    → AllUsed s n max_pages
    → ((get_stats s).total ≡ n)
      × ((get_stats s).used ≡ count_used s.bitmap n)
      × ((get_stats s).used + (get_stats s).free ≡ n)
unfolding get_stats
get_stats_lem s n v total le above = ground (
  arith,
  total,
  v.counted,
  count_used-add n (max_pages - n) max_pages s.bitmap above (omega arith),
  count_used-le n s.bitmap,
)
