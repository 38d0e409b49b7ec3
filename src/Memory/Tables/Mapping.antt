-- ===== src/Memory/Tables/Mapping.antt =====
-- vmm_map_page and vmm_unmap_page of src/kernel/mm/memory.c, where the tables of the address exist.
use kil0y_os.Prelude.{
  ℕ, ◌≡◌, ◌≢◌, refl, ap, sym, ◌∙◌, subst, Bool, true, false, Option, none, some, ◌==◌,
  if◌then◌else◌, update, arith, Bool-cases, inl, inr,
}
use kil0y_os.Memory.Tables.{
  Vmm, Flush, small, is_present, is_huge, is_user, frame_of, vmm_make_entry, walk, vmm_get_pte,
  vmm_unmap_page, vmm_editing_active_root, pd_slot, pt_slot, write_entry, flush, reload, invlpg,
}
use kil0y_os.Memory.Tables.Map.{vmm_map_page, map_pml4, map_pdpt, map_pd, set_page, mark_user}
use kil0y_os.Memory.Tables.Walk.{
  slot4, slot3, slot2, slot1, Leads, HasTables, Unread, AtLeaf, AtLeaf-map, read_leaf,
  read_leaf-same, get_pte-read_leaf, walk-small, walk-written, mark_user-Leads,
}

with_root :
    (v : Vmm) (virt phys flags : ℕ)
    → (v.pml4 == 0) ≡ false
    → is_present (v.memory (slot4 v virt)) ≡ true
    → vmm_map_page v virt phys flags
      ≡ map_pdpt
          (mark_user v (slot4 v virt) (slot3 v virt) flags)
          (slot3 v virt)
          virt
          phys
          flags
          false
unfolding vmm_map_page map_pml4
with_root v virt phys flags a b = rw (a, b) refl

with_directory :
    (w : Vmm) (s3 virt phys flags : ℕ) (n : Bool)
    → is_present (w.memory s3) ≡ true
    → map_pdpt w s3 virt phys flags n
      ≡ map_pd w (pd_slot (frame_of (w.memory s3)) virt) virt phys flags n
unfolding map_pdpt
with_directory w s3 virt phys flags n a = rw a refl

with_table :
    (w : Vmm) (s2 virt phys flags : ℕ) (n : Bool)
    → is_present (w.memory s2) ≡ true
    → is_huge (w.memory s2) ≡ false
    → map_pd w s2 virt phys flags n ≡ some (set_page w s2 virt phys flags n)
unfolding map_pd
with_table w s2 virt phys flags n a b = rw (a, b) refl

-- What vmm_map_page does down to the last level.
map-stages :
    (v : Vmm) (virt phys flags : ℕ)
    → HasTables v virt
    → let w = mark_user v (slot4 v virt) (slot3 v virt) flags in
      vmm_map_page v virt phys flags ≡ some (set_page w (slot2 v virt) virt phys flags false)
map-stages v virt phys flags h =
    let s4 = slot4 v virt in
    let s3 = slot3 v virt in
    let w = mark_user v s4 s3 flags in
    let (f3, p3, h3) = mark_user-Leads v s4 s3 flags s3 in
    let (f2, p2, h2) = mark_user-Leads v s4 s3 flags (slot2 v virt) in
    let at2 : pd_slot (frame_of (w.memory s3)) virt ≡ slot2 v virt = ap (λ t. pd_slot t virt) f3 in
    with_root v virt phys flags h.rooted h.present4
    ∙ with_directory w s3 virt phys flags false (p3 ∙ h.present3)
    ∙ ap (λ s. map_pd w s virt phys flags false) at2
    ∙ with_table w (slot2 v virt) virt phys flags false (p2 ∙ h.present2) (h2 ∙ h.paged)

-- An invalidation of the TLB leaves the tables.
flushed :
    (b : Bool) (w : Vmm) (f : Flush)
    → ((if b then flush w f else w).memory ≡ w.memory)
      × ((if b then flush w f else w).pml4 ≡ w.pml4)
flushed true w f = (refl, refl)
flushed false w f = (refl, refl)

-- The memory and the root after the entry of a page has been written.
set_page-memory :
    (w : Vmm) (s2 virt phys flags : ℕ) (n : Bool)
    → let out = set_page w s2 virt phys flags n in
      (out.memory
        ≡ update w.memory (pt_slot (frame_of (w.memory s2)) virt) (vmm_make_entry phys flags))
      × (out.pml4 ≡ w.pml4)
unfolding set_page
set_page-memory w s2 virt phys flags n =
    let s = pt_slot (frame_of (w.memory s2)) virt in
    let written = write_entry w s (vmm_make_entry phys flags) in
    flushed (vmm_editing_active_root written) written (if n then reload else invlpg virt)

-- The tables after one entry, at the slot `s`, has been set to `e`, and others at most marked for users.
abbrev SetAt : Vmm → ℕ → ℕ → Vmm → Type 0
SetAt v s e w =
    (w.pml4 ≡ v.pml4) × (w.memory s ≡ e) × ((q : ℕ) → s ≢ q → Leads (v.memory q) (w.memory q))

leaf : (m : ℕ → ℕ) (s : ℕ) → read_leaf m (small s) ≡ m s
unfolding read_leaf
leaf m s = refl

-- The last entry of the walk has been set.
set-walk :
    (v w : Vmm) (virt e : ℕ)
    → HasTables v virt
    → SetAt v (slot1 v virt) e w
    → vmm_get_pte w virt ≡ e
set-walk v w virt e h (p, at, rest) =
    let same = walk-written v w virt (slot1 v virt) p rest (h.apart4, h.apart3, h.apart2) in
    get_pte-read_leaf w virt
    ∙ ap (read_leaf w.memory) (same ∙ walk-small v virt h)
    ∙ leaf w.memory (slot1 v virt)
    ∙ at

-- Another address whose walk does not use that entry.
set-others :
    (v w : Vmm) (virt e : ℕ)
    → SetAt v (slot1 v virt) e w
    → (other : ℕ) → Unread v other (slot1 v virt)
    → AtLeaf (λ s. w.memory s ≡ v.memory s) (walk v other)
    → vmm_get_pte w other ≡ vmm_get_pte v other
set-others v w virt e (p, at, rest) other unread kept =
    let same = walk-written v w other (slot1 v virt) p rest unread in
    get_pte-read_leaf w other
    ∙ ap (read_leaf w.memory) same
    ∙ read_leaf-same v.memory w.memory (walk v other) kept
    ∙ sym (get_pte-read_leaf v other)

-- What vmm_map_page did: the address has its entry, user mappings are reachable for users at the two upper levels,
-- and an address whose walk neither reads nor ends at an entry that was written translates as before.
abbrev pub Mapped : Vmm → ℕ → ℕ → ℕ → Option Vmm → Type 0
Mapped v virt phys flags none = ⊥
Mapped v virt phys flags (some w) =
    (vmm_get_pte w virt ≡ vmm_make_entry phys flags)
    × (is_user flags ≡ true
        → (is_user (w.memory (slot4 v virt)) ≡ true) × (is_user (w.memory (slot3 v virt)) ≡ true))
    × ((other : ℕ)
        → Unread v other (slot1 v virt)
        → AtLeaf (λ s. (s ≢ slot1 v virt) × (s ≢ slot3 v virt) × (s ≢ slot4 v virt)) (walk v other)
        → vmm_get_pte w other ≡ vmm_get_pte v other)

written_self : (m : ℕ → ℕ) (s e : ℕ) → update m s e s ≡ e
written_self m s e = ground arith

written_other : (m : ℕ → ℕ) (s e q : ℕ) → s ≢ q → update m s e q ≡ m q
written_other m s e q d = ground (arith, d)

-- The marking of the two upper levels.
mark_user-marked :
    (v : Vmm) (s4 s3 flags : ℕ)
    → let m = mark_user v s4 s3 flags in
      (m.pml4 ≡ v.pml4)
      × (is_user flags ≡ true → (is_user (m.memory s4) ≡ true) × (is_user (m.memory s3) ≡ true))
      × ((q : ℕ) → q ≢ s4 → q ≢ s3 → m.memory q ≡ v.memory q)
mark_user-marked v s4 s3 flags = elim (Bool-cases (is_user flags)) [
  | inl u ↦ (
    ground (arith, u),
    λ _. (ground (arith, u), ground (arith, u)),
    λ q a b. ground (arith, u, a, b),
  )
  | inr u ↦ (ground (arith, u), λ w. absurd (ground (arith, u, w)), λ q a b. ground (arith, u))
]

-- If the tables of an address exist, then vmm_map_page gives it the entry for the page and the flags; a user
-- mapping marks the first two levels for users; and every address whose walk neither reads nor ends at an
-- entry that is written translates as before.
pub vmm_map_page_lem :
    (v : Vmm) (virt phys flags : ℕ)
    → HasTables v virt
    → Mapped v virt phys flags (vmm_map_page v virt phys flags)
vmm_map_page_lem v virt phys flags h =
    let s4 = slot4 v virt in
    let s3 = slot3 v virt in
    let s2 = slot2 v virt in
    let s1 = slot1 v virt in
    let m = mark_user v s4 s3 flags in
    let w = set_page m s2 virt phys flags false in
    let e = vmm_make_entry phys flags in
    let (written, root) = set_page-memory m s2 virt phys flags false in
    let leads = mark_user-Leads v s4 s3 flags in
    let at1 : pt_slot (frame_of (m.memory s2)) virt ≡ s1 =
      ap (λ t. pt_slot t virt) ((leads s2).0) in
    let memory : w.memory ≡ update m.memory s1 e = written ∙ ap (λ s. update m.memory s e) at1 in
    let (same_root, users, others) = mark_user-marked v s4 s3 flags in
    let at : (q : ℕ) → w.memory q ≡ (if s1 == q then e else m.memory q) =
      λ q. ap (λ f. f q) memory in
    let set : SetAt v s1 e w = (
      root ∙ same_root,
      at s1 ∙ written_self m.memory s1 e,
      λ q d.
          let kept : w.memory q ≡ m.memory q = at q ∙ written_other m.memory s1 e q d in
          subst (Leads (v.memory q)) (sym kept) (leads q),
    ) in
    subst (Mapped v virt phys flags) (sym (map-stages v virt phys flags h)) (
      set-walk v w virt e h set,
      λ u. (
        ap is_user (at s4 ∙ written_other m.memory s1 e s4 h.apart4) ∙ (users u).0,
        ap is_user (at s3 ∙ written_other m.memory s1 e s3 h.apart3) ∙ (users u).1,
      ),
      λ other unread ends. set-others v w virt e set other unread (
          AtLeaf-map _ _ (walk v other)
            (λ s (a, b, c). at s ∙ written_other m.memory s1 e s (λ z. a (sym z)) ∙ others s c b)
            ends),
    )

-- What vmm_unmap_page did.
abbrev pub Unmapped : Vmm → ℕ → Vmm → Type 0
Unmapped v virt w =
    (vmm_get_pte w virt ≡ 0)
    × ((other : ℕ)
        → Unread v other (slot1 v virt)
        → AtLeaf (λ s. s ≢ slot1 v virt) (walk v other)
        → vmm_get_pte w other ≡ vmm_get_pte v other)

unmap-small :
    (v : Vmm) (virt : ℕ)
    → HasTables v virt
    → let w = write_entry v (slot1 v virt) 0 in
      vmm_unmap_page v virt ≡ (if vmm_editing_active_root w then flush w (invlpg virt) else w)
unfolding vmm_unmap_page
unmap-small v virt h = rw (vmm_unmap_page, walk-small v virt h) refl

-- If the tables of an address exist, then vmm_unmap_page clears its entry, and every address whose walk neither
-- reads nor ends at that entry translates as before.
pub vmm_unmap_page_lem :
    (v : Vmm) (virt : ℕ) → HasTables v virt → Unmapped v virt (vmm_unmap_page v virt)
vmm_unmap_page_lem v virt h =
    let s1 = slot1 v virt in
    let w = write_entry v s1 0 in
    let b = vmm_editing_active_root w in
    let out = if b then flush w (invlpg virt) else w in
    let (memory, root) = flushed b w (invlpg virt) in
    let at : (q : ℕ) → out.memory q ≡ update v.memory s1 0 q = λ q. ap (λ f. f q) memory in
    let same : (q : ℕ) → s1 ≢ q → out.memory q ≡ v.memory q =
      λ q d. at q ∙ written_other v.memory s1 0 q d in
    let set : SetAt v s1 0 out = (
      root,
      at s1 ∙ written_self v.memory s1 0,
      λ q d. subst (Leads (v.memory q)) (sym (same q d)) (refl, refl, refl),
    ) in
    subst (Unmapped v virt) (sym (unmap-small v virt h)) (
      set-walk v out virt 0 h set,
      λ other unread ends.
          set-others v out virt 0 set other unread
            (AtLeaf-map _ _ (walk v other) (λ s a. same s (λ z. a (sym z))) ends),
    )
