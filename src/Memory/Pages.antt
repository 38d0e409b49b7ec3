-- ===== src/Memory/Pages.antt =====
-- The physical page allocator of src/kernel/mm/memory.c (PMM): a bitmap with a bit for each 4 KiB
-- page, a search hint, and the incremental count of set bits. `uint64_t` sums keep their wrap.
pub mod View
pub mod Invariant
pub mod Regions
pub mod Search
pub mod Reserved
pub mod Alloc
mod Tests
use kil0y_os.Prelude.{
  ℕ, zero, suc, ◌+◌, ◌-◌, ◌*◌, ◌/◌, ◌%◌, ◌^◌, Bool, true, false, Option, none, some, min, ltb, leb,
  ◌==◌, if◌then◌else◌, update,
}
use kil0y_os.Prelude.Bits.{bit, set_bit, clear_bit}

abbrev pub max_pages : ℕ
max_pages = 1024 * 1024

abbrev pub page_size : ℕ
page_size = 4096

-- `bitmap` is the byte array pmm_bitmap, by index; only bytes below max_pages / 8 are reached.
pub record Pmm : Type 0 where
  pub bitmap : ℕ → ℕ
  pub last_page : ℕ
  pub used_pages : ℕ
  pub ram_top : ℕ

pub bitmap_set : Pmm → ℕ → Pmm
bitmap_set s page =
    if ltb page max_pages
    then (if bit (s.bitmap (page / 8)) (page % 8) == 1 then s else record s {
      bitmap = update s.bitmap (page / 8) (set_bit (s.bitmap (page / 8)) (page % 8));
      used_pages = (s.used_pages + 1) % 2 ^ 64;
    })
    else s

pub bitmap_clear : Pmm → ℕ → Pmm
bitmap_clear s page =
    if ltb page max_pages
    then (if bit (s.bitmap (page / 8)) (page % 8) == 1
        then record s {
          bitmap = update s.bitmap (page / 8) (clear_bit (s.bitmap (page / 8)) (page % 8));
          used_pages = (s.used_pages + 2 ^ 64 - 1) % 2 ^ 64;
        }
        else s)
    else s

unfoldable pub bitmap_test : Pmm → ℕ → ℕ
bitmap_test s page = if leb max_pages page then 1 else bit (s.bitmap (page / 8)) (page % 8)

abbrev mark : Bool → Pmm → ℕ → Pmm
mark true s p = bitmap_set s p
mark false s p = bitmap_clear s p

-- The loop over the pages p, p + 1, ..., with `n` rounds left.
pub mark_from : Bool → ℕ → ℕ → Pmm → Pmm
mark_from used zero p s = s
mark_from used (suc n) p s = mark_from used n (p + 1) (mark used s p)

abbrev pub start_page : ℕ → ℕ
start_page base = base / page_size

abbrev pub end_page : ℕ → ℕ → ℕ
end_page base length = min ((base + length + page_size - 1) % 2 ^ 64 / page_size) max_pages

pub mark_region : Pmm → ℕ → ℕ → Bool → Pmm
mark_region s base length used =
    mark_from used (end_page base length - start_page base) (start_page base) s

-- The first free page among `n` pages from `p` on.
unfoldable pub find_free : Pmm → ℕ → ℕ → Option ℕ
find_free s zero p = none
find_free s (suc n) p = elim (bitmap_test s p == 0) [
  | true ↦ some p
  | false ↦ find_free s n (p + 1)
]

abbrev pub take_page : Pmm → ℕ → Pmm × ℕ
take_page s p = (record (bitmap_set s p) { last_page = p + 1 }, p * page_size)

-- The new state and the physical address, 0 if there is no page.
unfoldable pub alloc_page : Pmm → Pmm × ℕ
alloc_page s = elim (find_free s (max_pages - s.last_page) s.last_page) [
  | some p ↦ take_page s p
  | none ↦ elim (find_free s s.last_page 0) [ some p ↦ take_page s p | none ↦ (s, 0) ]
]

-- The first run of `count` free pages: `consecutive` of them end just before `p`.
pub find_run : Pmm → ℕ → ℕ → ℕ → ℕ → ℕ → Option ℕ
find_run s count zero p consecutive start = none
find_run s count (suc n) p consecutive start = elim (bitmap_test s p == 0) [
  | true ↦
      let start' = if consecutive == 0 then p else start in
      elim (leb count (consecutive + 1)) [
        | true ↦ some start'
        | false ↦ find_run s count n (p + 1) (consecutive + 1) start'
      ]
  | false ↦ find_run s count n (p + 1) 0 start
]

abbrev pub take_run : Pmm → ℕ → ℕ → Pmm × ℕ
take_run s start count =
    (record (mark_from true count start s) { last_page = start + count }, start * page_size)

-- The pass from the hint, and after it the pass from page 0, unless the hint was 0.
pub alloc_pages : Pmm → ℕ → Pmm × ℕ
alloc_pages s count =
    if count == 0
    then (s, 0)
    else (if count == 1
        then alloc_page s
        else elim (find_run s count (max_pages - s.last_page) s.last_page 0 0) [
          | some start ↦ take_run s start count
          | none ↦ if s.last_page == 0 then (s, 0) else elim (find_run s count max_pages 0 0 0) [
            | some start ↦ take_run s start count
            | none ↦ (s, 0)
          ]
        ])

pub free_page : Pmm → ℕ → Pmm
free_page s phys =
    if phys == 0
    then s
    else (if ltb (phys / page_size) max_pages then bitmap_clear s (phys / page_size) else s)

pub free_pages_from : ℕ → ℕ → Pmm → ℕ → Pmm
free_pages_from zero i s phys = s
free_pages_from (suc n) i s phys =
    free_pages_from n (i + 1) (free_page s ((phys + i * page_size) % 2 ^ 64)) phys

pub free_pages : Pmm → ℕ → ℕ → Pmm
free_pages s phys count = free_pages_from count 0 s phys

pub record Stats : Type 0 where
  pub total : ℕ
  pub used : ℕ
  pub free : ℕ

abbrev pub total_pages : Pmm → ℕ
total_pages s = if s.ram_top / page_size == 0 then max_pages else s.ram_top / page_size

abbrev sub64 : ℕ → ℕ → ℕ
sub64 a b = (a + 2 ^ 64 - b) % 2 ^ 64

pub get_stats : Pmm → Stats
get_stats s =
    let total = total_pages s in
    let counted = sub64 s.used_pages (sub64 max_pages total) in
    let used = if ltb total counted then total else counted in
    record { total = total; used = used; free = sub64 total used }
