-- ===== src/Memory/Tables/Spaces.antt =====
-- Address spaces of src/kernel/mm/memory.c: a private copy of the tables under the first PML4 entry.
use kil0y_os.Prelude.{
  ℕ, zero, suc, ◌+◌, ◌*◌, ◌%◌, Bool, true, false, not, ◌&&◌, ◌||◌, ◌==◌, if◌then◌else◌, update,
}
use kil0y_os.Memory.Pages.{alloc_page, free_page}
use kil0y_os.Memory.Tables.{Vmm, is_present, is_huge, frame_of, mm_root_to_pml4, vmm_set_root_ptr}
use kil0y_os.Memory.Tables.Map.{clear_page}

-- A loop dst[i] = f(src[i]) from entry `i` on, `n` entries left.
unfoldable pub copy_entries : (ℕ → ℕ) → ℕ → (ℕ → ℕ) → ℕ → ℕ → ℕ → ℕ → ℕ
copy_entries f zero m dst src i = m
copy_entries f (suc n) m dst src i =
    copy_entries f n (update m (dst + 8 * i) (f (m (src + 8 * i)))) dst src (i + 1)

abbrev pub obtain_page : Vmm → Vmm × ℕ
obtain_page v = let (pmm, page) = alloc_page v.pmm in (record v { pmm = pmm }, page)

abbrev pub give_page : Vmm → ℕ → Vmm
give_page v page = record v { pmm = free_page v.pmm page }

-- Only the huge pages of a directory are shared.
abbrev pub only_huge : ℕ → ℕ
only_huge e = if is_present e && is_huge e then e else 0

-- 0 for want of a page.
unfoldable pub as_copy_pd : Vmm → ℕ → Vmm × ℕ
as_copy_pd v boot_pd =
    let (w, page) = obtain_page v in
    if page == 0
    then (w, 0)
    else (record w { memory = copy_entries only_huge 512 w.memory page (frame_of boot_pd) 0 }, page)

-- for (j = 0; j < n; j++) pmm_free_page(pdpt[j] & ~0xFFF)
unfoldable pub give_tables : ℕ → Vmm → ℕ → ℕ → Vmm
give_tables zero v pdpt j = v
give_tables (suc n) v pdpt j =
    give_tables n (give_page v (frame_of (v.memory (pdpt + 8 * j)))) pdpt (j + 1)

-- The loop over the directories from `i` on; `none` after a failure, with what was taken given back.
unfoldable pub copy_pds : ℕ → Vmm → ℕ → ℕ → Vmm × Bool
copy_pds zero v pdpt i = (v, true)
copy_pds (suc n) v pdpt i =
    let e = v.memory (pdpt + 8 * i) in
    let (w, npd) = as_copy_pd v e in
    let linked = record w { memory = update w.memory (pdpt + 8 * i) (npd + e % 4096) } in
    let rest = copy_pds n linked pdpt (i + 1) in
    if npd == 0 then (give_tables i w pdpt 0, false) else rest

-- The PML5 of an address space with five levels.
unfoldable pub wrap_root : Vmm → ℕ → ℕ → Vmm × ℕ
wrap_root v pml4 pdpt =
    let (w, pml5) = obtain_page v in
    if not v.la57
    then (v, pml4)
    else (if pml5 == 0
        then (give_page (give_page w pdpt) pml4, 0)
        else (record w { memory = update (clear_page w.memory pml5) pml5 (pml4 + 7) }, pml5))

-- From the allocation of the PDPT on.
unfoldable pub copy_root : Vmm → ℕ → Vmm × ℕ
copy_root v pml4 =
    let boot_pdpt = frame_of (v.memory v.boot_pml4) in
    let (w, pdpt) = obtain_page v in
    let copied = copy_entries (λ e. e) 512 (clear_page w.memory pdpt) pdpt boot_pdpt 0 in
    let (x, done) = copy_pds 4 (record w { memory = copied }) pdpt 0 in
    if pdpt == 0
    then (give_page w pml4, 0)
    else (if done
        then wrap_root (record x { memory = update x.memory pml4 (pdpt + 3) }) pml4 pdpt
        else (give_page (give_page x pdpt) pml4, 0))

unfoldable pub vmm_create_address_space : Vmm → Vmm × ℕ
vmm_create_address_space u =
    let v = if u.boot_root == 0 then record u { boot_root = frame_of u.cr3 } else u in
    let (w, pml4) = obtain_page v in
    let copied = copy_entries (λ e. e) 512 (clear_page w.memory pml4) pml4 v.boot_pml4 0 in
    let x = record w { memory = copied } in
    if pml4 == 0
    then (w, 0)
    else (if is_present (x.memory x.boot_pml4) then copy_root x pml4 else (give_page x pml4, 0))

-- The loop that frees the page tables of a directory from entry `j` on.
unfoldable pub give_page_tables : ℕ → Vmm → ℕ → ℕ → Vmm
give_page_tables zero v pd j = v
give_page_tables (suc n) v pd j =
    let e = v.memory (pd + 8 * j) in
    give_page_tables n (if is_present e && not (is_huge e) then give_page v (frame_of e) else v) pd
      (j + 1)

-- The loop over the private directories from `i` on.
unfoldable pub give_directories : ℕ → Vmm → ℕ → ℕ → Vmm
give_directories zero v pdpt i = v
give_directories (suc n) v pdpt i =
    let e = v.memory (pdpt + 8 * i) in
    let emptied = give_page (give_page_tables 512 v (frame_of e) 0) (frame_of e) in
    give_directories n (if is_present e then emptied else v) pdpt (i + 1)

unfoldable pub vmm_destroy_address_space : Vmm → ℕ → Vmm
vmm_destroy_address_space v root =
    let pml4 = mm_root_to_pml4 v root in
    let e = v.memory pml4 in
    let w =
      give_page (give_page (give_directories 4 v (frame_of e) 0) (frame_of e)) (frame_of pml4) in
    let x = if v.la57 then give_page w (frame_of root) else w in
    let y = vmm_set_root_ptr x v.active_root in
    if (root == 0) || (frame_of root == v.boot_root)
    then v
    else (if is_present e
        then (if v.active_root == root then vmm_set_root_ptr y y.boot_root else y)
        else v)
