-- ===== src/Memory/Tables.antt =====
-- The page tables of src/kernel/mm/memory.c (VMM). The memory holds 64-bit entries by address, and a table is
-- the address of its page. A PANIC is `none`. cr3 and cr4 are fields; the switch of EFER.NXE is left out;
-- `flushes` lists the TLB invalidations, the last one first.
pub mod Map
pub mod Walk
pub mod Mapping
pub mod Spaces
pub mod Copies
mod Tests
use kil0y_os.Prelude.{
  ℕ, zero, suc, ◌+◌, ◌-◌, ◌*◌, ◌/◌, ◌%◌, ◌^◌, Bool, true, false, not, ◌&&◌, ◌||◌, Option, none,
  some, List, [], ◌∷◌, ltb, leb, ◌==◌, if◌then◌else◌, update,
}
use kil0y_os.Memory.Pages.{Pmm}

-- vmm_reload_cr3, vmm_invlpg
pub data Flush : Type 0 where
  reload : Flush
  invlpg : ℕ → Flush

pub record Vmm : Type 0 where
  pub memory : ℕ → ℕ
  pub pmm : Pmm
  pub cr3 : ℕ
  pub cr4 : ℕ
  pub la57 : Bool
  pub pml4 : ℕ
  pub active_root : ℕ
  pub boot_root : ℕ
  pub boot_pml4 : ℕ
  pub loaded_root : ℕ
  pub flushes : List Flush

-- entry & (1 << k)
abbrev pub has : ℕ → ℕ → Bool
has e k = e / 2 ^ k % 2 == 1

abbrev pub is_present : ℕ → Bool
is_present e = has e 0

abbrev pub is_huge : ℕ → Bool
is_huge e = has e 7

-- VMM_USER in an entry or in the flags.
abbrev pub is_user : ℕ → Bool
is_user e = has e 2

-- entry | VMM_USER
abbrev pub with_user : ℕ → ℕ
with_user e = if is_user e then e else e + 4

-- entry & ~0xFFF
abbrev pub frame_of : ℕ → ℕ
frame_of e = e - e % 4096

-- The low 12 bits of the flags with VMM_PRESENT, the frame, and VMM_NX from either.
unfoldable pub vmm_make_entry : ℕ → ℕ → ℕ
vmm_make_entry phys flags =
    let low = if is_present flags then flags % 4096 else flags % 4096 + 1 in
    let nx = if has flags 63 && not (has phys 63) then 2 ^ 63 else 0 in frame_of phys + low + nx

-- The PML4 that a CR3 value names: the first entry of a PML5 with five levels.
abbrev pub mm_root_to_pml4 : Vmm → ℕ → ℕ
mm_root_to_pml4 v root = if v.la57 then frame_of (v.memory (frame_of root)) else frame_of root

unfoldable pub vmm_init : Vmm → Vmm
vmm_init v =
    let root = frame_of v.cr3 in
    let w = record v { la57 = has v.cr4 12; boot_root = root; active_root = root } in
    record w { pml4 = mm_root_to_pml4 w root; boot_pml4 = mm_root_to_pml4 w root }

abbrev pub vmm_editing_active_root : Vmm → Bool
vmm_editing_active_root v = mm_root_to_pml4 v (frame_of v.cr3) == v.pml4

-- The addresses of the entries for an address, in the tables of the four levels.
abbrev pub pml4_slot : ℕ → ℕ → ℕ
pml4_slot t virt = t + 8 * (virt / 2 ^ 39 % 512)

abbrev pub pdpt_slot : ℕ → ℕ → ℕ
pdpt_slot t virt = t + 8 * (virt / 2 ^ 30 % 512)

abbrev pub pd_slot : ℕ → ℕ → ℕ
pd_slot t virt = t + 8 * (virt / 2 ^ 21 % 512)

abbrev pub pt_slot : ℕ → ℕ → ℕ
pt_slot t virt = t + 8 * (virt / 2 ^ 12 % 512)

-- What the three walks end at: nothing, the slot of a huge page, or the slot of a page.
pub data Leaf : Type 0 where
  absent : Leaf
  huge small : ℕ → Leaf

-- The walk that vmm_unmap_page and vmm_get_pte share.
unfoldable pub walk : Vmm → ℕ → Leaf
walk v virt =
    let s4 = pml4_slot v.pml4 virt in
    let s3 = pdpt_slot (frame_of (v.memory s4)) virt in
    let s2 = pd_slot (frame_of (v.memory s3)) virt in
    let s1 = pt_slot (frame_of (v.memory s2)) virt in
    if (v.pml4 == 0) || not (is_present (v.memory s4))
    then absent
    else (if not (is_present (v.memory s3)) || not (is_present (v.memory s2))
        then absent
        else (if is_huge (v.memory s2) then huge s2 else small s1))

abbrev pub write_entry : Vmm → ℕ → ℕ → Vmm
write_entry v slot e = record v { memory = update v.memory slot e }

abbrev pub flush : Vmm → Flush → Vmm
flush v f = record v { flushes = f ∷ v.flushes }

unfoldable pub vmm_unmap_page : Vmm → ℕ → Vmm
vmm_unmap_page v virt = elim (walk v virt) [
  | absent ↦ v
  | huge slot ↦
      let w = write_entry v slot 0 in if vmm_editing_active_root w then flush w reload else w
  | small slot ↦
      let w = write_entry v slot 0 in if vmm_editing_active_root w then flush w (invlpg virt) else w
]

unfoldable pub vmm_get_pte : Vmm → ℕ → ℕ
vmm_get_pte v virt = elim (walk v virt) [
  | absent ↦ 0
  | huge slot ↦ v.memory slot
  | small slot ↦ v.memory slot
]

-- entry & 0x000FFFFFFFFFF000
abbrev pub phys_of : ℕ → ℕ
phys_of e = e % 2 ^ 52 - e % 4096

-- (entry & 0x000FFFFFFFFFF00000) | (virt & 0x1FFFFF): bit 20 may stand in both.
abbrev pub huge_phys : ℕ → ℕ → ℕ
huge_phys e virt = e % 2 ^ 60 - e % 2 ^ 20 + (if has e 20 then virt % 2 ^ 20 else virt % 2 ^ 21)

unfoldable pub vmm_get_phys : Vmm → ℕ → ℕ
vmm_get_phys v virt =
    let e4 = v.memory (pml4_slot v.pml4 virt) in
    let e3 = v.memory (pdpt_slot (phys_of e4) virt) in
    let e2 = v.memory (pd_slot (phys_of e3) virt) in
    let e1 = v.memory (pt_slot (frame_of e2) virt) in
    if (v.pml4 == 0) || not (is_present e4)
    then 0
    else (if not (is_present e3) || not (is_present e2)
        then 0
        else (if is_huge e2
            then huge_phys e2 virt
            else (if is_present e1 then phys_of e1 + virt % 4096 else 0)))

pub vmm_current_root : Vmm → ℕ
vmm_current_root v = v.active_root

unfoldable pub vmm_set_root_ptr : Vmm → ℕ → Vmm
vmm_set_root_ptr v phys = record v { active_root = frame_of phys; pml4 = mm_root_to_pml4 v phys }

-- Loading CR3 is a reload of the TLB.
unfoldable pub vmm_switch_cr3 : Vmm → ℕ → Vmm
vmm_switch_cr3 v phys =
    let root = frame_of phys in
    let w = record v { active_root = root; pml4 = mm_root_to_pml4 v root } in
    if v.loaded_root == root then w else flush (record w { loaded_root = root; cr3 = root }) reload
