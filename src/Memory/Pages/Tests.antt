-- ===== src/Memory/Pages/Tests.antt =====
-- The page allocator at boot: everything reserved, then 64 KiB of RAM released from 3 MiB on.
use kil0y_os.Prelude.{inl, ◌∙◌, ℕ, ◌+◌, ◌*◌, ◌≡◌, refl, false, arith}
use kil0y_os.Prelude.Bits.{bit, set_bit, clear_bit}
use kil0y_os.Memory.Pages.{
  Pmm, max_pages, page_size, alloc_page, alloc_pages, free_pages, mark_region, get_stats, find_run,
  mark_from, bitmap_clear, bitmap_test,
}
use kil0y_os.Memory.Pages.View.{count_used}
use kil0y_os.Memory.Pages.Invariant.{IsValid, used_bit}
use kil0y_os.Memory.Pages.Regions.{
  IsTouched, IsApart, mark_region-IsValid, used-mark_region, mark_region_lem, ram_top-mark_region,
}
use kil0y_os.Memory.Pages.Reserved.{all_reserved, all_reserved-IsValid, used-all_reserved}
use kil0y_os.Memory.Pages.Search.{AllUsed}
use kil0y_os.Memory.Pages.Alloc.{
  Outcome, alloc_page-Outcome, alloc_pages-Outcome, free_pages-alloc_pages, get_stats_lem,
}

abbrev reserved : Pmm
reserved = all_reserved 0x400000

abbrev boot : Pmm
boot = mark_region reserved 0x300000 0x10000 false

mark_region_example :
    IsValid boot
    × ((q : ℕ) → IsTouched 0x300000 0x10000 q → used_bit boot q ≡ 0)
    × ((q : ℕ) → IsApart 0x300000 0x10000 q → used_bit boot q ≡ used_bit reserved q)
mark_region_example =
    mark_region_lem reserved 0x300000 0x10000 false (all_reserved-IsValid 0x400000) (omega arith)

boot-IsValid : IsValid boot
boot-IsValid = mark_region-IsValid reserved 0x300000 0x10000 false (all_reserved-IsValid 0x400000)

alloc_page_example : Outcome boot 1 (alloc_page boot)
alloc_page_example = alloc_page-Outcome boot boot-IsValid

alloc_pages_example : Outcome boot 3 (alloc_pages boot 3)
alloc_pages_example = alloc_pages-Outcome boot 3 boot-IsValid (omega arith)

run_address : (alloc_pages boot 3).1 ≡ 768 * page_size
unfolding alloc_pages find_run bitmap_test mark_region mark_from bitmap_clear bit set_bit clear_bit
run_address = refl

free_pages-alloc_pages_example :
    let (s', phys) = alloc_pages boot 3 in
    ((q : ℕ) → used_bit (free_pages s' phys 3) q ≡ used_bit boot q)
    × ((free_pages s' phys 3).used_pages ≡ boot.used_pages)
    × IsValid (free_pages s' phys 3)
free_pages-alloc_pages_example =
    free_pages-alloc_pages boot 3 boot-IsValid (omega arith) (omega (arith, run_address))

top : boot.ram_top ≡ 0x400000
top = ram_top-mark_region reserved 0x300000 0x10000 false

above : AllUsed boot 1024 max_pages
above q a b =
    used-mark_region reserved 0x300000 0x10000 false q (all_reserved-IsValid 0x400000)
    ∙ ground (arith, a, used-all_reserved 0x400000 q)

get_stats_example :
    ((get_stats boot).total ≡ 1024)
    × ((get_stats boot).used ≡ count_used boot.bitmap 1024)
    × ((get_stats boot).used + (get_stats boot).free ≡ 1024)
get_stats_example =
    get_stats_lem boot 1024 boot-IsValid (inl (omega (arith, top), omega (arith, top)))
      (omega arith) above
