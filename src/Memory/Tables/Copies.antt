-- ===== src/Memory/Tables/Copies.antt =====
-- What the copies of tables in src/kernel/mm/memory.c hold.
use kil0y_os.Prelude.{
  ℕ, zero, suc, ◌+◌, ◌*◌, ◌/◌, ◌%◌, ◌<◌, ◌≤◌, ◌≡◌, ◌≢◌, refl, ap, sym, ◌∙◌, subst, ◌==◌, update,
  arith, Bool-cases, inl, inr, ◌⊎◌,
}
use kil0y_os.Memory.Tables.{Vmm, frame_of}
use kil0y_os.Memory.Tables.Spaces.{copy_entries, only_huge, as_copy_pd, obtain_page}

-- The pages at two addresses share no byte.
abbrev pub AreApart : ℕ → ℕ → Type 0
AreApart dst src = (dst + 4096 ≤ src) ⊎ (src + 4096 ≤ dst)

-- The entries from `i` on, `n` of them, are copied through `f`, and nothing else changes.
abbrev pub Copied : (ℕ → ℕ) → ℕ → (ℕ → ℕ) → ℕ → ℕ → ℕ → (ℕ → ℕ) → Type 0
Copied f n m dst src i m' =
    ((k : ℕ) → i ≤ k → k < i + n → m' (dst + 8 * k) ≡ f (m (src + 8 * k)))
    × ((q : ℕ) → (q < dst + 8 * i) ⊎ (dst + 8 * (i + n) ≤ q) → m' q ≡ m q)

pub copy_entries-Copied :
    (f : ℕ → ℕ) (n : ℕ) (m : ℕ → ℕ) (dst src i : ℕ)
    → AreApart dst src
    → i + n ≤ 512
    → Copied f n m dst src i (copy_entries f n m dst src i)
unfolding copy_entries
copy_entries-Copied f zero m dst src i apart l =
    (λ k a b. absurd (omega (arith, a, b)), λ q h. refl)
copy_entries-Copied f (suc n) m dst src i apart l =
    let m1 = update m (dst + 8 * i) (f (m (src + 8 * i))) in
    let (entries, rest) = copy_entries-Copied f n m1 dst src (i + 1) apart (omega (arith, l)) in
    (
      λ k a b. elim (Bool-cases (i == k)) [
        | inl e ↦
            let e' : i ≡ k = ground (arith, e) in
            let first : m1 (dst + 8 * i) ≡ f (m (src + 8 * i)) = ground arith in
            let out = copy_entries f n m1 dst src (i + 1) in
            subst (λ j. out (dst + 8 * j) ≡ f (m (src + 8 * j))) e'
              (rest (dst + 8 * i) (inl (omega arith)) ∙ first)
        | inr d ↦
            let apart_at : dst + 8 * i ≢ src + 8 * k =
              λ z. absurd (omega (arith, z, apart, a, b, l)) in
            let same : m1 (src + 8 * k) ≡ m (src + 8 * k) = ground (arith, apart_at) in
            entries k (ground (arith, a, d)) (omega (arith, b)) ∙ ap f same
      ],
      λ q h.
          let apart_at : dst + 8 * i ≢ q = λ z. absurd (omega (arith, z, h)) in
          let same : m1 q ≡ m q = ground (arith, apart_at) in rest q (omega (arith, h)) ∙ same,
    )

as_copy_pd-page :
    (v : Vmm) (boot_pd : ℕ)
    → (obtain_page v).1 ≢ 0
    → ((as_copy_pd v boot_pd).1 ≡ (obtain_page v).1)
      × ((as_copy_pd v boot_pd).0.memory
          ≡ copy_entries only_huge 512 v.memory ((obtain_page v).1) (frame_of boot_pd) 0)
unfolding as_copy_pd
as_copy_pd-page v boot_pd d = (ground (arith, d), ground (arith, d))

-- A directory in `m'` that shares the huge pages of the one in `m` and nothing else: an entry that is present (bit 0)
-- and huge (bit 7) is copied, and every other entry, that of a page table for one, is 0.
abbrev pub SharesHuge : (ℕ → ℕ) → ℕ → ℕ → (ℕ → ℕ) → Type 0
SharesHuge m dst src m' =
    (k : ℕ)
    → k < 512
    → let e = m (src + 8 * k) in
      ((e % 2 ≡ 1) × (e / 128 % 2 ≡ 1) × (m' (dst + 8 * k) ≡ e))
      ⊎ (((e % 2 ≡ 0) ⊎ (e / 128 % 2 ≡ 0)) × (m' (dst + 8 * k) ≡ 0))

only_huge_lem :
    (e : ℕ)
    → ((e % 2 ≡ 1) × (e / 128 % 2 ≡ 1) × (only_huge e ≡ e))
      ⊎ (((e % 2 ≡ 0) ⊎ (e / 128 % 2 ≡ 0)) × (only_huge e ≡ 0))
only_huge_lem e = ground arith

Copied-SharesHuge :
    (m : ℕ → ℕ) (dst src : ℕ) (m' : ℕ → ℕ)
    → Copied only_huge 512 m dst src 0 m'
    → SharesHuge m dst src m'
Copied-SharesHuge m dst src m' (entries, rest) k l =
    let at = entries k (omega arith) (omega (arith, l)) in
    elim (only_huge_lem (m (src + 8 * k))) [
      | inl (a, b, c) ↦ inl (a, b, at ∙ c)
      | inr (a, c) ↦ inr (a, at ∙ c)
    ]

-- If a page is left, apart from the directory that is copied, then as_copy_pd returns it with the entries of the
-- directory that are huge pages and with 0 for all others, so no page table is shared, and the rest of the
-- memory is as it was.
pub as_copy_pd_lem :
    (v : Vmm) (boot_pd : ℕ)
    → let page = (obtain_page v).1 in
      page ≢ 0
      → AreApart page (frame_of boot_pd)
      → ((as_copy_pd v boot_pd).1 ≡ page)
        × SharesHuge v.memory page (frame_of boot_pd) ((as_copy_pd v boot_pd).0.memory)
        × ((q : ℕ)
            → (q < page) ⊎ (page + 4096 ≤ q)
            → (as_copy_pd v boot_pd).0.memory q ≡ v.memory q)
as_copy_pd_lem v boot_pd d apart =
    let (page, memory) = as_copy_pd-page v boot_pd d in
    let copied =
      copy_entries-Copied only_huge 512 v.memory ((obtain_page v).1) (frame_of boot_pd) 0 apart
        (omega arith) in
    let now =
      subst (Copied only_huge 512 v.memory ((obtain_page v).1) (frame_of boot_pd) 0) (sym memory)
        copied in
    (
      page,
      Copied-SharesHuge v.memory ((obtain_page v).1) (frame_of boot_pd) _ now,
      λ q h. now.1 q (omega (arith, h)),
    )
