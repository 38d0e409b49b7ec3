-- ===== src/Memory/Tables/Map.antt =====
-- vmm_map_page of src/kernel/mm/memory.c, level by level.
use kil0y_os.Prelude.{
  ℕ, zero, suc, ◌+◌, ◌-◌, ◌*◌, ◌%◌, ◌^◌, Bool, true, false, ◌&&◌, Option, none, some, ltb, leb,
  ◌==◌, if◌then◌else◌, update,
}
use kil0y_os.Memory.Pages.{alloc_page}
use kil0y_os.Memory.Tables.{
  Vmm, reload, invlpg, is_present, is_huge, is_user, with_user, frame_of, vmm_make_entry, vmm_init,
  vmm_editing_active_root, pml4_slot, pdpt_slot, pd_slot, pt_slot, write_entry, flush,
}

-- memset of a page to 0.
abbrev pub clear_page : (ℕ → ℕ) → ℕ → ℕ → ℕ
clear_page m p q = if leb p q && ltb q (p + 4096) then 0 else m q

-- A new table: the page is linked in the slot and cleared.
unfoldable pub new_table : Vmm → ℕ → ℕ → Option Vmm
new_table v slot flags =
    let (pmm, page) = alloc_page v.pmm in
    let linked = update v.memory slot (vmm_make_entry page flags) in
    if page == 0 then none else some (record v { pmm = pmm; memory = clear_page linked page })

-- The loop that fills a page table from entry `i` on, `n` entries left.
unfoldable pub fill_table : ℕ → (ℕ → ℕ) → ℕ → ℕ → ℕ → ℕ → ℕ
fill_table zero m t phys i = m
fill_table (suc n) m t phys i =
    fill_table n (update m (t + 8 * i) (vmm_make_entry (phys + i * 4096) 3)) t phys (i + 1)

-- A huge page becomes a table of 512 pages.
unfoldable pub split_huge : Vmm → ℕ → Option Vmm
split_huge v slot =
    let (pmm, page) = alloc_page v.pmm in
    let base = v.memory slot - v.memory slot % 2 ^ 21 in
    let filled = fill_table 512 v.memory page base 0 in
    if page == 0
    then none
    else some (record v { pmm = pmm; memory = update filled slot (vmm_make_entry page 7) })

-- The last level, where `s2` is the slot of the page table: the entry, and the TLB.
unfoldable pub set_page : Vmm → ℕ → ℕ → ℕ → ℕ → Bool → Vmm
set_page v s2 virt phys flags new_levels =
    let w = write_entry v (pt_slot (frame_of (v.memory s2)) virt) (vmm_make_entry phys flags) in
    if vmm_editing_active_root w then flush w (if new_levels then reload else invlpg virt) else w

abbrev and_set_page : Option Vmm → ℕ → ℕ → ℕ → ℕ → Option Vmm
and_set_page none s2 virt phys flags = none
and_set_page (some v) s2 virt phys flags = some (set_page v s2 virt phys flags true)

-- From the slot of the page directory on.
unfoldable pub map_pd : Vmm → ℕ → ℕ → ℕ → ℕ → Bool → Option Vmm
map_pd v s2 virt phys flags new_levels =
    if is_present (v.memory s2)
    then (if is_huge (v.memory s2)
        then (if is_user flags then and_set_page (split_huge v s2) s2 virt phys flags else some v)
        else some (set_page v s2 virt phys flags new_levels))
    else and_set_page (new_table v s2 7) s2 virt phys flags

-- From the slot of the PDPT on.
unfoldable pub map_pdpt : Vmm → ℕ → ℕ → ℕ → ℕ → Bool → Option Vmm
map_pdpt v s3 virt phys flags new_levels =
    if is_present (v.memory s3)
    then map_pd v (pd_slot (frame_of (v.memory s3)) virt) virt phys flags new_levels
    else elim (new_table v s3 2) [
      | none ↦ none
      | some w ↦ map_pd w (pd_slot (frame_of (w.memory s3)) virt) virt phys flags true
    ]

-- A user mapping marks the entries of the first two levels.
abbrev pub mark_user : Vmm → ℕ → ℕ → ℕ → Vmm
mark_user v s4 s3 flags =
    let w = write_entry v s4 (with_user (v.memory s4)) in
    if is_user flags then write_entry w s3 (with_user (w.memory s3)) else v

unfoldable pub map_pml4 : Vmm → ℕ → ℕ → ℕ → ℕ → Bool → Option Vmm
map_pml4 v s4 virt phys flags new_levels =
    let s3 = pdpt_slot (frame_of (v.memory s4)) virt in
    map_pdpt (mark_user v s4 s3 flags) s3 virt phys flags new_levels

unfoldable pub vmm_map_page : Vmm → ℕ → ℕ → ℕ → Option Vmm
vmm_map_page u virt phys flags =
    let v = if u.pml4 == 0 then vmm_init u else u in
    let s4 = pml4_slot v.pml4 virt in
    if is_present (v.memory s4)
    then map_pml4 v s4 virt phys flags false
    else elim (new_table v s4 2) [ none ↦ none | some w ↦ map_pml4 w s4 virt phys flags true ]
