-- ===== src/Memory/Tables/Walk.antt =====
-- What vmm_map_page and vmm_unmap_page of src/kernel/mm/memory.c change of the translations, where the tables of
-- the address exist.
use kil0y_os.Prelude.{
  ℕ, ◌≡◌, ◌≢◌, refl, ap, sym, ◌∙◌, Bool, true, false, not, ◌||◌, ◌==◌, if◌then◌else◌, arith,
  Bool-cases, inl, inr,
}
use kil0y_os.Memory.Tables.{
  Vmm, Leaf, absent, huge, small, is_present, is_huge, is_user, with_user, frame_of, walk,
  vmm_get_pte, pml4_slot, pdpt_slot, pd_slot, pt_slot,
}
use kil0y_os.Memory.Tables.Map.{mark_user}

-- The slots that a walk reads, from the first level to the last.
abbrev pub slot4 : Vmm → ℕ → ℕ
slot4 v virt = pml4_slot v.pml4 virt

abbrev pub slot3 : Vmm → ℕ → ℕ
slot3 v virt = pdpt_slot (frame_of (v.memory (slot4 v virt))) virt

abbrev pub slot2 : Vmm → ℕ → ℕ
slot2 v virt = pd_slot (frame_of (v.memory (slot3 v virt))) virt

abbrev pub slot1 : Vmm → ℕ → ℕ
slot1 v virt = pt_slot (frame_of (v.memory (slot2 v virt))) virt

-- Two entries that lead a walk to the same place.
abbrev pub Leads : ℕ → ℕ → Type 0
Leads e e' = (frame_of e' ≡ frame_of e) × (is_present e' ≡ is_present e) × (is_huge e' ≡ is_huge e)

Leads-with_user : (e : ℕ) → Leads e (with_user e)
Leads-with_user e = (ground arith, ground arith, ground arith)

ending : Bool → Bool → Bool → Bool → Bool → ℕ → ℕ → Leaf
ending rootless p4 p3 p2 h2 s2 s1 =
    if rootless || not p4
    then absent
    else (if not p3 || not p2 then absent else (if h2 then huge s2 else small s1))

walk-ending :
    (v : Vmm) (virt : ℕ)
    → walk v virt
      ≡ ending
          (v.pml4 == 0)
          (is_present (v.memory (slot4 v virt)))
          (is_present (v.memory (slot3 v virt)))
          (is_present (v.memory (slot2 v virt)))
          (is_huge (v.memory (slot2 v virt)))
          (slot2 v virt)
          (slot1 v virt)
unfolding walk ending
walk-ending v virt = refl

ending-same :
    {a a' b b' c c' d d' e e' : Bool} {s s' t t' : ℕ}
    → a ≡ a'
    → b ≡ b'
    → c ≡ c'
    → d ≡ d'
    → e ≡ e'
    → s ≡ s'
    → t ≡ t'
    → ending a b c d e s t ≡ ending a' b' c' d' e' s' t'
ending-same p q r x y z w = λ i. ending (p i) (q i) (r i) (x i) (y i) (z i) (w i)

-- A walk reads of each entry only where it leads.
pub walk-same :
    (v w : Vmm) (virt : ℕ)
    → w.pml4 ≡ v.pml4
    → Leads (v.memory (slot4 v virt)) (w.memory (slot4 v virt))
    → Leads (v.memory (slot3 v virt)) (w.memory (slot3 v virt))
    → Leads (v.memory (slot2 v virt)) (w.memory (slot2 v virt))
    → walk w virt ≡ walk v virt
walk-same v w virt p (f4, p4, h4) (f3, p3, h3) (f2, p2, h2) =
    let at4 : slot4 w virt ≡ slot4 v virt = ap (λ t. pml4_slot t virt) p in
    let at3 : slot3 w virt ≡ slot3 v virt =
      ap (λ s. pdpt_slot (frame_of (w.memory s)) virt) at4 ∙ ap (λ t. pdpt_slot t virt) f4 in
    let at2 : slot2 w virt ≡ slot2 v virt =
      ap (λ s. pd_slot (frame_of (w.memory s)) virt) at3 ∙ ap (λ t. pd_slot t virt) f3 in
    let at1 : slot1 w virt ≡ slot1 v virt =
      ap (λ s. pt_slot (frame_of (w.memory s)) virt) at2 ∙ ap (λ t. pt_slot t virt) f2 in
    let q4 : is_present (w.memory (slot4 w virt)) ≡ is_present (v.memory (slot4 v virt)) =
      ap (λ s. is_present (w.memory s)) at4 ∙ p4 in
    let q3 : is_present (w.memory (slot3 w virt)) ≡ is_present (v.memory (slot3 v virt)) =
      ap (λ s. is_present (w.memory s)) at3 ∙ p3 in
    let q2 : is_present (w.memory (slot2 w virt)) ≡ is_present (v.memory (slot2 v virt)) =
      ap (λ s. is_present (w.memory s)) at2 ∙ p2 in
    let g2 : is_huge (w.memory (slot2 w virt)) ≡ is_huge (v.memory (slot2 v virt)) =
      ap (λ s. is_huge (w.memory s)) at2 ∙ h2 in
    walk-ending w virt
    ∙ ending-same (ap (λ t. t == 0) p) q4 q3 q2 g2 at2 at1
    ∙ sym (walk-ending v virt)

unfoldable pub read_leaf : (ℕ → ℕ) → Leaf → ℕ
read_leaf m absent = 0
read_leaf m (huge s) = m s
read_leaf m (small s) = m s

pub get_pte-read_leaf : (v : Vmm) (virt : ℕ) → vmm_get_pte v virt ≡ read_leaf v.memory (walk v virt)
unfolding vmm_get_pte read_leaf
get_pte-read_leaf v virt =
    elim (walk v virt)
      as (λ l.
        elim l as (λ _. ℕ) [ absent ↦ 0 | huge slot ↦ v.memory slot | small slot ↦ v.memory slot ]
        ≡ read_leaf v.memory l) [ absent ↦ refl | huge s ↦ refl | small s ↦ refl ]

-- What holds of the slot at which a walk ends, if it ends at one.
abbrev pub AtLeaf : (ℕ → Type 0) → Leaf → Type 0
AtLeaf P absent = Unit {0}
AtLeaf P (huge s) = P s
AtLeaf P (small s) = P s

pub read_leaf-same :
    (m m' : ℕ → ℕ) (l : Leaf) → AtLeaf (λ s. m' s ≡ m s) l → read_leaf m' l ≡ read_leaf m l
unfolding read_leaf
read_leaf-same m m' absent h = refl
read_leaf-same m m' (huge s) h = h
read_leaf-same m m' (small s) h = h

pub AtLeaf-map : (P Q : ℕ → Type 0) (l : Leaf) → ((s : ℕ) → P s → Q s) → AtLeaf P l → AtLeaf Q l
AtLeaf-map P Q absent f h = tt
AtLeaf-map P Q (huge s) f h = f s h
AtLeaf-map P Q (small s) f h = f s h

-- The tables of an address exist down to the page table, whose entry for it is none of those above.
pub record HasTables (v : Vmm) (virt : ℕ) : Type 0 where
  pub rooted : (v.pml4 == 0) ≡ false
  pub present4 : is_present (v.memory (slot4 v virt)) ≡ true
  pub present3 : is_present (v.memory (slot3 v virt)) ≡ true
  pub present2 : is_present (v.memory (slot2 v virt)) ≡ true
  pub paged : is_huge (v.memory (slot2 v virt)) ≡ false
  pub apart4 : slot1 v virt ≢ slot4 v virt
  pub apart3 : slot1 v virt ≢ slot3 v virt
  pub apart2 : slot1 v virt ≢ slot2 v virt

pub walk-small : (v : Vmm) (virt : ℕ) → HasTables v virt → walk v virt ≡ small (slot1 v virt)
unfolding ending
walk-small v virt h =
    walk-ending v virt ∙ ending-same h.rooted h.present4 h.present3 h.present2 h.paged refl refl

-- A slot that a walk does not read.
abbrev pub Unread : Vmm → ℕ → ℕ → Type 0
Unread v virt s = (s ≢ slot4 v virt) × (s ≢ slot3 v virt) × (s ≢ slot2 v virt)

-- After a write to a slot that the walk of an address does not read, and elsewhere only of entries that lead to
-- the same place, its walk is as before.
pub walk-written :
    (v w : Vmm) (virt s : ℕ)
    → w.pml4 ≡ v.pml4
    → ((q : ℕ) → s ≢ q → Leads (v.memory q) (w.memory q))
    → Unread v virt s
    → walk w virt ≡ walk v virt
walk-written v w virt s p same (a, b, c) =
    walk-same v w virt p (same (slot4 v virt) a) (same (slot3 v virt) b) (same (slot2 v virt) c)

pub mark_user-Leads :
    (v : Vmm) (s4 s3 flags q : ℕ) → Leads (v.memory q) ((mark_user v s4 s3 flags).memory q)
mark_user-Leads v s4 s3 flags q = elim (Bool-cases (is_user flags)) [
  | inl u ↦ (ground (arith, u), ground (arith, u), ground (arith, u))
  | inr u ↦ (ground (arith, u), ground (arith, u), ground (arith, u))
]
