-- ===== src/Memory/Tables/Tests.antt =====
-- Page tables at 0x1000 to 0x4000 for the lowest 2 MiB, and a page mapped there.
use kil0y_os.Prelude.{◌+◌, ◌<◌, ◌≤◌, ◌⊎◌, ℕ, ◌≡◌, inr, refl, false, [], arith, ◌==◌, if◌then◌else◌}
use kil0y_os.Memory.Pages.{alloc_page, find_free, bitmap_test}
use kil0y_os.Prelude.Bits.{bit}
use kil0y_os.Memory.Tables.{Vmm, vmm_get_phys, vmm_unmap_page}
use kil0y_os.Memory.Tables.Map.{vmm_map_page}
use kil0y_os.Memory.Tables.Walk.{HasTables}
use kil0y_os.Memory.Tables.Mapping.{Mapped, Unmapped, vmm_map_page_lem, vmm_unmap_page_lem}
use kil0y_os.Memory.Tables.Spaces.{as_copy_pd, obtain_page}
use kil0y_os.Memory.Tables.Copies.{SharesHuge, as_copy_pd_lem}

abbrev tables : ℕ → ℕ
tables q =
    if q == 0x1000
    then 0x2003
    else (if q == 0x2000
        then 0x3003
        else (if q == 0x3000 then 0x4003 else (if q == 0x4030 then 0x9003 else 0)))

abbrev space : Vmm
space = record {
  memory = tables;
  pmm = record { bitmap = λ i. 0; last_page = 0; used_pages = 0; ram_top = 0x400000 };
  cr3 = 0x1000;
  cr4 = 0;
  la57 = false;
  pml4 = 0x1000;
  active_root = 0x1000;
  boot_root = 0x1000;
  boot_pml4 = 0x1000;
  loaded_root = 0x1000;
  flushes = [];
}

has_tables : HasTables space 0x5000
has_tables = record {
  rooted = refl;
  present4 = refl;
  present3 = refl;
  present2 = refl;
  paged = refl;
  apart4 = omega arith;
  apart3 = omega arith;
  apart2 = omega arith;
}

vmm_map_page_example : Mapped space 0x5000 0x7000 6 (vmm_map_page space 0x5000 0x7000 6)
vmm_map_page_example = vmm_map_page_lem space 0x5000 0x7000 6 has_tables

vmm_unmap_page_example : Unmapped space 0x5000 (vmm_unmap_page space 0x5000)
vmm_unmap_page_example = vmm_unmap_page_lem space 0x5000 has_tables

phys_example : vmm_get_phys space 0x6123 ≡ 0x9123
unfolding vmm_get_phys
phys_example = refl

-- Pages below 9 are behind the hint, and page 9 is free.
abbrev with_room : Vmm
with_room = record space {
  pmm = record { bitmap = λ i. 0; last_page = 9; used_pages = 0; ram_top = 0x400000 };
}

page_9 : (obtain_page with_room).1 ≡ 0x9000
unfolding alloc_page find_free bitmap_test bit
page_9 = refl

as_copy_pd_example :
    ((as_copy_pd with_room 0x3003).1 ≡ (obtain_page with_room).1)
    × SharesHuge tables ((obtain_page with_room).1) 0x3000 ((as_copy_pd with_room 0x3003).0.memory)
    × ((q : ℕ)
        → (q < (obtain_page with_room).1) ⊎ ((obtain_page with_room).1 + 4096 ≤ q)
        → (as_copy_pd with_room 0x3003).0.memory q ≡ tables q)
as_copy_pd_example =
    as_copy_pd_lem with_room 0x3003 (omega (arith, page_9)) (inr (omega (arith, page_9)))
