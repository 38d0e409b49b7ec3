-- ===== src/Memory/Pages/Regions.antt =====
-- Marking a region used or free, and freeing pages.
use kil0y_os.Prelude.{
  ℕ, zero, suc, ◌+◌, ◌-◌, ◌*◌, ◌/◌, ◌%◌, ◌^◌, ◌≤◌, ◌<◌, ◌≡◌, refl, inl, inr, ◌⊎◌, Bool, true, false,
  arith, ltb, leb, ◌==◌, if◌then◌else◌, ◌&&◌, ◌∙◌,
}
use kil0y_os.Memory.Pages.{
  Pmm, max_pages, bitmap_set, bitmap_clear, mark, mark_from, mark_region, start_page, end_page,
  free_page, free_pages_from, page_size,
}
use kil0y_os.Memory.Pages.Invariant.{
  IsValid, used_bit, used-bitmap_set, used-bitmap_clear, bitmap_set-IsValid, bitmap_clear-IsValid,
}

-- A physical address that is not 0.
abbrev pub not_null : ℕ → Bool
not_null phys = if phys == 0 then false else true

abbrev pub flag : Bool → ℕ
flag true = 1
flag false = 0

mark-IsValid : (b : Bool) (s : Pmm) (p : ℕ) → IsValid s → IsValid (mark b s p)
mark-IsValid true s p v = bitmap_set-IsValid s v p
mark-IsValid false s p v = bitmap_clear-IsValid s v p

used-mark :
    (b : Bool) (s : Pmm) (p q : ℕ)
    → IsValid s
    → used_bit (mark b s p) q ≡ (if p == q && ltb p max_pages then flag b else used_bit s q)
used-mark true s p q v = used-bitmap_set s v p q
used-mark false s p q v = used-bitmap_clear s v p q

pub mark_from-IsValid : (b : Bool) (n p : ℕ) (s : Pmm) → IsValid s → IsValid (mark_from b n p s)
unfolding mark_from
mark_from-IsValid b zero p s v = v
mark_from-IsValid b (suc n) p s v =
    mark_from-IsValid b n (p + 1) (mark b s p) (mark-IsValid b s p v)

pub used-mark_from :
    (b : Bool) (n p : ℕ) (s : Pmm) (q : ℕ)
    → IsValid s
    → used_bit (mark_from b n p s) q
      ≡ (if leb p q && (ltb q (p + n) && ltb q max_pages) then flag b else used_bit s q)
unfolding mark_from
used-mark_from b zero p s q v = ground arith
used-mark_from b (suc n) p s q v =
    used-mark_from b n (p + 1) (mark b s p) q (mark-IsValid b s p v)
    ∙ rw (used-mark b s p q v) (ground arith)

pub mark_region-IsValid :
    (s : Pmm) (base length : ℕ) (used : Bool) → IsValid s → IsValid (mark_region s base length used)
unfolding mark_region
mark_region-IsValid s base length used v = mark_from-IsValid used _ _ s v

pub used-mark_region :
    (s : Pmm) (base length : ℕ) (used : Bool) (q : ℕ)
    → IsValid s
    → used_bit (mark_region s base length used) q ≡ (
        if leb (start_page base) q && ltb q (end_page base length) then flag used else used_bit s q)
unfolding mark_region
used-mark_region s base length used q v =
    used-mark_from used (end_page base length - start_page base) (start_page base) s q v
    ∙ ground arith

-- A page that lies in the bitmap, begins before the region's end and ends after its start.
abbrev pub IsTouched : ℕ → ℕ → ℕ → Type 0
IsTouched base length q = (q < max_pages) × (q * 4096 < base + length) × (base < (q + 1) * 4096)

abbrev pub IsApart : ℕ → ℕ → ℕ → Type 0
IsApart base length q = (max_pages ≤ q) ⊎ (base + length ≤ q * 4096) ⊎ ((q + 1) * 4096 ≤ base)

touched_pages :
    (base length q : ℕ)
    → base + length + 4095 < 2 ^ 64
    → IsTouched base length q
    → (leb (start_page base) q && ltb q (end_page base length)) ≡ true
touched_pages base length q l (a, b, c) = ground (arith, l, a, b, c)

apart_pages :
    (base length q : ℕ)
    → base + length + 4095 < 2 ^ 64
    → IsApart base length q
    → (leb (start_page base) q && ltb q (end_page base length)) ≡ false
apart_pages base length q l (inl a) = ground (arith, l, a)
apart_pages base length q l (inr (inl a)) = ground (arith, l, a)
apart_pages base length q l (inr (inr a)) = ground (arith, l, a)

-- If the counter is right and base + length + 4095 is below 2^64, then marking the region of `length` bytes at `base` sets the bit of every page of the
-- bitmap that begins before the region's end and ends after its start to the value that is asked for, changes no other
-- bit, and keeps the counter equal to the set bits.
pub mark_region_lem :
    (s : Pmm) (base length : ℕ) (used : Bool)
    → IsValid s
    → base + length + 4095 < 2 ^ 64
    → IsValid (mark_region s base length used)
      × ((q : ℕ)
          → IsTouched base length q
          → used_bit (mark_region s base length used) q ≡ flag used)
      × ((q : ℕ)
          → IsApart base length q
          → used_bit (mark_region s base length used) q ≡ used_bit s q)
mark_region_lem s base length used v l = (
  mark_region-IsValid s base length used v,
  λ q t.
      let e = touched_pages base length q l t in
      used-mark_region s base length used q v ∙ ground (arith, e),
  λ q t.
      let e = apart_pages base length q l t in
      used-mark_region s base length used q v ∙ ground (arith, e),
)

pub free_page-IsValid : (s : Pmm) (phys : ℕ) → IsValid s → IsValid (free_page s phys)
unfolding free_page
free_page-IsValid s phys v = ground (arith, bitmap_clear-IsValid s v (phys / page_size))

pub used-free_page :
    (s : Pmm) (phys q : ℕ)
    → IsValid s
    → used_bit (free_page s phys) q
      ≡ (if not_null phys && (phys / page_size == q && ltb q max_pages) then 0 else used_bit s q)
unfolding free_page
used-free_page s phys q v = ground (arith, used-bitmap_clear s v (phys / page_size) q)

pub free_pages_from-IsValid :
    (n i : ℕ) (s : Pmm) (phys : ℕ) → IsValid s → IsValid (free_pages_from n i s phys)
unfolding free_pages_from
free_pages_from-IsValid zero i s phys v = v
free_pages_from-IsValid (suc n) i s phys v =
    free_pages_from-IsValid n (i + 1) _ phys (free_page-IsValid s _ v)

-- Freeing `n` pages from a page on clears those and no other, in a block that lies in the bitmap.
pub used-free_pages_from :
    (n i : ℕ) (s : Pmm) (a q : ℕ)
    → IsValid s
    → 0 < a
    → a + i + n ≤ max_pages
    → used_bit (free_pages_from n i s (a * page_size)) q
      ≡ (if leb (a + i) q && ltb q (a + i + n) then 0 else used_bit s q)
unfolding free_pages_from
used-free_pages_from zero i s a q v ha h = ground arith
used-free_pages_from (suc n) i s a q v ha h =
    used-free_pages_from n (i + 1) _ a q (free_page-IsValid s _ v) ha (omega arith)
    ∙ rw (used-free_page s ((a * page_size + i * page_size) % 2 ^ 64) q v) (ground arith)

ram_top-mark_from : (b : Bool) (n p : ℕ) (s : Pmm) → (mark_from b n p s).ram_top ≡ s.ram_top
unfolding mark_from bitmap_set bitmap_clear
ram_top-mark_from b zero p s = refl
ram_top-mark_from true (suc n) p s = ram_top-mark_from true n (p + 1) _ ∙ ground arith
ram_top-mark_from false (suc n) p s = ram_top-mark_from false n (p + 1) _ ∙ ground arith

pub ram_top-mark_region :
    (s : Pmm) (base length : ℕ) (b : Bool) → (mark_region s base length b).ram_top ≡ s.ram_top
unfolding mark_region
ram_top-mark_region s base length b = ram_top-mark_from b _ _ s
