-- ===== src/Block/Bounds.antt =====
-- Where the transfers of src/kernel/drivers/blkdev.c may go.
use kil0y_os.Prelude.{
  subst, ℕ, ◌+◌, ◌%◌, ◌^◌, ◌≤◌, ◌<◌, ◌≡◌, refl, ap, sym, ◌∙◌, ◌&&◌, Option, none, some, ltb, leb,
  arith, Bool-cases, inl, inr, ◌⊎◌,
}
use kil0y_os.Block.{disk, partition, access}

-- A transfer of `count` sectors at `lba` of a partition: it goes to the partition's sectors, or nothing
-- reaches the disk, and then it is empty or out of range.
abbrev pub Transferred : ℕ → ℕ → ℕ → ℕ → Option (ℕ × ℕ) → Type 0
Transferred start n lba count none = (count ≡ 0) ⊎ (n < lba + count)
Transferred start n lba count (some (first, sectors)) =
    (first ≡ start + lba) × (sectors ≡ count) × (0 < count) × (first + sectors ≤ start + n)

disk-inside :
    (d lba count : ℕ) → 0 < count → lba + count ≤ d → access (disk d) lba count ≡ some (lba, count)
unfolding access
disk-inside d lba count h l = ground (arith, h, l)

module _ (start n d : ℕ) (fits : start + n ≤ d) (small : d < 2 ^ 32) where
  inside :
      (lba count : ℕ)
      → 0 < count
      → lba + count ≤ n
      → access (partition start n (disk d)) lba count
        ≡ access (disk d) ((start + lba) % 2 ^ 32) count
  unfolding access
  inside lba count h l = ground (arith, h, l)

  outside :
      (lba count : ℕ)
      → (count ≡ 0) ⊎ (n < lba + count)
      → access (partition start n (disk d)) lba count ≡ none
  unfolding access
  outside lba count (inl h) = ground (arith, h)
  outside lba count (inr h) = ground (arith, h)

  -- If a partition lies on its disk, which has fewer than 2^32 sectors, then a transfer reaches the disk
  -- exactly if it is not empty and ends in the partition, and it goes to the partition's sectors.
  pub access_lem :
      (lba count : ℕ)
      → Transferred start n lba count (access (partition start n (disk d)) lba count)
  access_lem lba count = elim (Bool-cases (ltb 0 count && leb (lba + count) n)) [
    | inl b ↦
        let h : 0 < count = ground arith in
        let l : lba + count ≤ n = ground arith in
        let at : (start + lba) % 2 ^ 32 ≡ start + lba = omega (arith, fits, small, l, h) in
        subst (Transferred start n lba count)
          (sym (
            inside lba count h l
            ∙ ap (λ q. access (disk d) q count) at
            ∙ disk-inside d (start + lba) count h (omega (arith, fits, l))))
          (refl, refl, h, omega (arith, l))
    | inr b ↦
        let no : (count ≡ 0) ⊎ (n < lba + count) = ground arith in
        subst (Transferred start n lba count) (sym (outside lba count no)) no
  ]
