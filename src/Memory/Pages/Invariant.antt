-- ===== src/Memory/Pages/Invariant.antt =====
-- The page allocator's invariant: the counter is the number of set bits. Every operation keeps it.
use kil0y_os.Prelude.{
  ℕ, ◌+◌, ◌-◌, ◌/◌, ◌%◌, ◌^◌, ◌≤◌, ◌<◌, ◌≡◌, ◌≢◌, arith, ltb, ◌==◌, if◌then◌else◌, update,
  Bool-cases, inl, inr, ◌⊎◌, ◌&&◌,
}
use kil0y_os.Prelude.Bits.{set_bit, clear_bit, bit-lt, set_bit-lt, clear_bit-lt}
use kil0y_os.Memory.Pages.{Pmm, max_pages, bitmap_set, bitmap_clear}
use kil0y_os.Memory.Pages.View.{
  page_bit, IsBytes, count_used, sum_below-change, page_bit-set, page_bit-clear, count_used-le,
}

-- The bytes are bytes, `used_pages` counts the set bits, and the hint is a page or the end.
pub record IsValid (s : Pmm) : Type 0 where
  pub bytes : IsBytes s.bitmap
  pub counted : s.used_pages ≡ count_used s.bitmap max_pages
  pub hint : s.last_page ≤ max_pages

-- The allocator's view of a page: 1 if it is used.
abbrev pub used_bit : Pmm → ℕ → ℕ
used_bit s q = page_bit s.bitmap q

abbrev pub with_bit_set : Pmm → ℕ → Pmm
with_bit_set s p = record s {
  bitmap = update s.bitmap (p / 8) (set_bit (s.bitmap (p / 8)) (p % 8));
  used_pages = (s.used_pages + 1) % 2 ^ 64;
}

abbrev pub with_bit_clear : Pmm → ℕ → Pmm
with_bit_clear s p = record s {
  bitmap = update s.bitmap (p / 8) (clear_bit (s.bitmap (p / 8)) (p % 8));
  used_pages = (s.used_pages + 2 ^ 64 - 1) % 2 ^ 64;
}

-- A write to a page that is there and free.
bitmap_set-cases :
    (s : Pmm) (p : ℕ)
    → (bitmap_set s p ≡ s)
      ⊎ ((p < max_pages) × (used_bit s p ≡ 0) × (bitmap_set s p ≡ with_bit_set s p))
unfolding bitmap_set
bitmap_set-cases s p = elim (Bool-cases (ltb p max_pages)) [
  | inl l ↦ elim (Bool-cases (used_bit s p == 1)) [
    | inl e ↦ inl (rw (l, e))
    | inr e ↦ inr (ground arith, ground (arith, bit-lt (s.bitmap (p / 8)) (p % 8)), rw (l, e))
  ]
  | inr l ↦ inl (rw l)
]

bitmap_clear-cases :
    (s : Pmm) (p : ℕ)
    → (bitmap_clear s p ≡ s)
      ⊎ ((p < max_pages) × (used_bit s p ≡ 1) × (bitmap_clear s p ≡ with_bit_clear s p))
unfolding bitmap_clear
bitmap_clear-cases s p = elim (Bool-cases (ltb p max_pages)) [
  | inl l ↦ elim (Bool-cases (used_bit s p == 1)) [
    | inl e ↦ inr (ground arith, ground arith, rw (l, e))
    | inr e ↦ inl (rw (l, e))
  ]
  | inr l ↦ inl (rw l)
]

module _ (s : Pmm) (v : IsValid s) where
  pub IsBytes-set : (p : ℕ) → IsBytes (update s.bitmap (p / 8) (set_bit (s.bitmap (p / 8)) (p % 8)))
  IsBytes-set p i = ground (arith, v.bytes i, set_bit-lt (s.bitmap (p / 8)) (p % 8))

  pub IsBytes-clear :
      (p : ℕ) → IsBytes (update s.bitmap (p / 8) (clear_bit (s.bitmap (p / 8)) (p % 8)))
  IsBytes-clear p i = ground (
    arith,
    v.bytes i,
    v.bytes (p / 8),
    clear_bit-lt (s.bitmap (p / 8)) (p % 8) (v.bytes (p / 8)) (omega arith),
  )

  count-set :
      (p : ℕ)
      → p < max_pages
      → count_used (update s.bitmap (p / 8) (set_bit (s.bitmap (p / 8)) (p % 8))) max_pages
          + used_bit s p
        ≡ count_used s.bitmap max_pages + 1
  count-set p l = omega (arith, sum_below-change max_pages p (page_bit s.bitmap) _ l other, self)
    where
      other :
          (q : ℕ)
          → q ≢ p
          → page_bit (update s.bitmap (p / 8) (set_bit (s.bitmap (p / 8)) (p % 8))) q
            ≡ page_bit s.bitmap q
      other q ne = ground (arith, page_bit-set s.bitmap v.bytes p q)

      self : page_bit (update s.bitmap (p / 8) (set_bit (s.bitmap (p / 8)) (p % 8))) p ≡ 1
      self = ground (arith, page_bit-set s.bitmap v.bytes p p)

  count-clear :
      (p : ℕ)
      → p < max_pages
      → count_used (update s.bitmap (p / 8) (clear_bit (s.bitmap (p / 8)) (p % 8))) max_pages
          + used_bit s p
        ≡ count_used s.bitmap max_pages
  count-clear p l = omega (arith, sum_below-change max_pages p (page_bit s.bitmap) _ l other, self)
    where
      other :
          (q : ℕ)
          → q ≢ p
          → page_bit (update s.bitmap (p / 8) (clear_bit (s.bitmap (p / 8)) (p % 8))) q
            ≡ page_bit s.bitmap q
      other q ne = ground (arith, page_bit-clear s.bitmap v.bytes p q)

      self : page_bit (update s.bitmap (p / 8) (clear_bit (s.bitmap (p / 8)) (p % 8))) p ≡ 0
      self = ground (arith, page_bit-clear s.bitmap v.bytes p p)

  -- `bitmap_set` sets the bit of its page, if there is one, and no other.
  pub used-bitmap_set :
      (p q : ℕ)
      → used_bit (bitmap_set s p) q ≡ (if p == q && ltb p max_pages then 1 else used_bit s q)
  unfolding bitmap_set
  used-bitmap_set p q = ground (arith, page_bit-set s.bitmap v.bytes p q)

  pub used-bitmap_clear :
      (p q : ℕ)
      → used_bit (bitmap_clear s p) q ≡ (if p == q && ltb p max_pages then 0 else used_bit s q)
  unfolding bitmap_clear
  used-bitmap_clear p q =
      ground (arith, page_bit-clear s.bitmap v.bytes p q, bit-lt (s.bitmap (p / 8)) (p % 8))

  pub bitmap_set-IsValid : (p : ℕ) → IsValid (bitmap_set s p)
  bitmap_set-IsValid p = elim (bitmap_set-cases s p) [
    | inl e ↦ rw e v
    | inr (l, free, e) ↦ rw e (record {
      bytes = IsBytes-set p;
      counted =
          omega
            (arith, count-set p l, v.counted, count_used-le max_pages (with_bit_set s p).bitmap);
      hint = v.hint;
    })
  ]

  pub bitmap_clear-IsValid : (p : ℕ) → IsValid (bitmap_clear s p)
  bitmap_clear-IsValid p = elim (bitmap_clear-cases s p) [
    | inl e ↦ rw e v
    | inr (l, used, e) ↦ rw e (record {
      bytes = IsBytes-clear p;
      counted = omega (arith, count-clear p l, v.counted, count_used-le max_pages s.bitmap);
      hint = v.hint;
    })
  ]
