-- ===== src/Memory/Heap/Place.antt =====
-- The blocks of a heap after a first fit: taken whole, or split where the leftover can hold a header.
use kil0y_os.Prelude.{
  ℕ, ◌+◌, ◌-◌, ◌^◌, ◌≤◌, ◌<◌, ◌≡◌, refl, sym, ◌∙◌, Bool, true, false, ◌&&◌, List, [], ◌∷◌, arith,
  ltb, leb, if◌then◌else◌, Bool-cases, inl, inr, ◌⊎◌,
}
use native.Mathlib.Nat.{le_refl}
use kil0y_os.Memory.Heap.{
  Header, header_size, found, missed, take_block, split_headers, whole_headers,
}
use kil0y_os.Memory.Heap.Layout.{
  Block, after, link, Linked, Linked-le, Linked-frame, fit, fit-bounds, InUse, InUse-bounds,
}

-- What a free block becomes when `size` bytes of it are taken.
abbrev pub carve : ℕ → Block → List Block → List Block
carve size b bs =
    if ltb header_size (b.size - size)
    then record { size = size; free = false }
      ∷ record { size = b.size - size - header_size; free = true }
      ∷ bs
    else record { size = b.size; free = false } ∷ bs

unfoldable pub place : ℕ → List Block → List Block
place size [] = []
place size (b ∷ bs) = if b.free && leb size b.size then carve size b bs else b ∷ place size bs

module _ (size : ℕ) (b : Block) (bs : List Block) where
  carve-split :
      ltb header_size (b.size - size) ≡ true
      → carve size b bs
        ≡ record { size = size; free = false }
          ∷ record { size = b.size - size - header_size; free = true }
          ∷ bs
  carve-split e = ground arith

  carve-whole :
      ltb header_size (b.size - size) ≡ false
      → carve size b bs ≡ record { size = b.size; free = false } ∷ bs
  carve-whole e = ground arith

take_block-below :
    (m : ℕ → Header) (c size x stop : ℕ)
    → x < c
    → c + (header_size + size) ≤ stop
    → stop < 2 ^ 63
    → take_block m c size x ≡ m x
unfolding take_block
take_block-below m c size x stop l h s = ground arith

link-place : (size a : ℕ) (bs : List Block) → link (place size bs) a ≡ link bs a
unfolding place
link-place size a [] = refl
link-place size a (b ∷ bs) = ground arith

module _ (m : ℕ → Header) (size a stop : ℕ) (b : Block) (bs : List Block)
    (l : Linked m a stop (b ∷ bs)) (s : stop < 2 ^ 63) (pos : 0 < a) where
  split-Linked :
      size + header_size < b.size
      → Linked (split_headers m a size) a stop (
          record { size = size; free = false }
          ∷ record { size = b.size - size - header_size; free = true }
          ∷ bs)
  split-Linked h = (ground (arith, fits), (ground (arith, fits, l.0), rest))
    where
      fits : after a b ≤ stop
      fits = Linked-le m (after a b) stop bs l.1

      same : (x : ℕ) → after a b ≤ x → split_headers m a size x ≡ m x
      same x k = ground (arith, fits)

      rest :
          Linked
            (split_headers m a size)
            (a + (header_size + size) + (header_size + (b.size - size - header_size)))
            stop
            bs
      rest =
          let e : a + (header_size + size) + (header_size + (b.size - size - header_size))
              ≡ after a b =
            omega arith in
          rw e (Linked-frame m (split_headers m a size) (after a b) stop bs same l.1)

  whole-Linked : Linked (whole_headers m a) a stop (record { size = b.size; free = false } ∷ bs)
  whole-Linked =
      (ground (arith, l.0), Linked-frame m (whole_headers m a) (after a b) stop bs same l.1)
    where
      same : (x : ℕ) → after a b ≤ x → whole_headers m a x ≡ m x
      same x k = ground arith

  take_block-split : size + header_size < b.size → take_block m a size ≡ split_headers m a size
  unfolding take_block
  take_block-split h = ground (arith, l.0)

  take_block-whole :
      ltb header_size (b.size - size) ≡ false → take_block m a size ≡ whole_headers m a
  unfolding take_block
  take_block-whole e = ground (arith, l.0)

  take_block-head : size ≤ b.size → Linked (take_block m a size) a stop (carve size b bs)
  take_block-head h = elim (Bool-cases (ltb header_size (b.size - size))) [
    | inl e ↦
        rw (take_block-split (ground arith), carve-split size b bs e) (split-Linked (ground arith))
    | inr e ↦ rw (take_block-whole e, carve-whole size b bs e) whole-Linked
  ]

module _ (size a prev : ℕ) (b : Block) (bs : List Block) where
  -- Whether the walk stops at the first block.
  Fits : Bool → Type 0
  Fits t = (b.free && leb size b.size) ≡ t

  fit-hit : Fits true → fit size a prev (b ∷ bs) ≡ found a
  unfolding fit Fits
  fit-hit t = rw t

  fit-miss : Fits false → fit size a prev (b ∷ bs) ≡ fit size (after a b) a bs
  unfolding fit Fits
  fit-miss t = rw t

  place-hit : Fits true → place size (b ∷ bs) ≡ carve size b bs
  unfolding place Fits
  place-hit t = rw t

  place-miss : Fits false → place size (b ∷ bs) ≡ b ∷ place size bs
  unfolding place Fits
  place-miss t = rw t

  Fits-le : Fits true → (size ≤ b.size) × (b.free ≡ true)
  unfolding Fits
  Fits-le t = ground arith

  Fits-cases : Fits true ⊎ Fits false
  unfolding Fits
  Fits-cases = Bool-cases (b.free && leb size b.size)

found-injective : (c d : ℕ) → found c ≡ found d → c ≡ d
found-injective c d e = cc

-- The writes at the first fit turn the blocks into `place size bs`.
pub place-Linked :
    (m : ℕ → Header) (size a stop prev c : ℕ) (bs : List Block)
    → Linked m a stop bs
    → fit size a prev bs ≡ found c
    → stop < 2 ^ 63
    → 0 < a
    → Linked (take_block m c size) a stop (place size bs)
place-Linked m size a stop prev c [] l e s pos = absurd (no_fit e)
  where
    no_fit : ¬ (fit size a prev [] ≡ found c)
    no_fit e = unfold fit in cc
place-Linked m size a stop prev c (b ∷ bs) l e s pos = elim (Fits-cases size a prev b bs) [
  | inl t ↦
      let here : a ≡ c = found-injective a c (sym (fit-hit size a prev b bs t) ∙ e) in
      rw (← here, place-hit size a prev b bs t)
        (take_block-head m size a stop b bs l s pos (Fits-le size a prev b bs t).0)
  | inr t ↦
      let e' : fit size (after a b) a bs ≡ found c = sym (fit-miss size a prev b bs t) ∙ e in
      let bound = fit-bounds m size (after a b) stop a c bs l.1 e' in
      rw (place-miss size a prev b bs t) (
        take_block-below m c size a stop (omega arith) bound.1 s
            ∙ rw (link-place size (after a b) bs) l.0,
        place-Linked m size (after a b) stop a c bs l.1 e' s (omega arith),
      )
]

-- No free block is large enough.
abbrev pub NoFit : ℕ → List Block → Type 0
NoFit size [] = Unit {0}
NoFit size (b ∷ bs) = ((b.free ≡ true) → b.size < size) × NoFit size bs

pub missed-NoFit :
    (size a prev p : ℕ) (bs : List Block) → fit size a prev bs ≡ missed p → NoFit size bs
unfolding fit
missed-NoFit size a prev p [] e = tt
missed-NoFit size a prev p (b ∷ bs) e =
    (ground arith, ground (arith, missed-NoFit size (after a b) a p bs))

-- Blocks in use stay where they are.
pub place-keeps : (size a x n : ℕ) (bs : List Block) → InUse a bs x n → InUse a (place size bs) x n
unfolding place
place-keeps size a x n [] u = u
place-keeps size a x n (b ∷ bs) u = ground (arith, place-keeps size (after a b) x n bs)

-- The block at the first fit is in use afterwards, and was not before.
carve-takes :
    (size a : ℕ) (b : Block) (bs : List Block)
    → size ≤ b.size
    → (g : ℕ) × (size ≤ g) × InUse a (carve size b bs) a g
carve-takes size a b bs h = elim (Bool-cases (ltb header_size (b.size - size))) [
  | inl e ↦ (size, le_refl size, rw (carve-split size b bs e) (inl (refl, refl, refl)))
  | inr e ↦ (b.size, h, rw (carve-whole size b bs e) (inl (refl, refl, refl)))
]

pub place-takes :
    (size a prev c : ℕ) (bs : List Block)
    → fit size a prev bs ≡ found c
    → (g : ℕ) × (size ≤ g) × InUse a (place size bs) c g
place-takes size a prev c [] e = absurd (no_fit e)
  where
    no_fit : ¬ (fit size a prev [] ≡ found c)
    no_fit e = unfold fit in cc
place-takes size a prev c (b ∷ bs) e = elim (Fits-cases size a prev b bs) [
  | inl t ↦
      let here : a ≡ c = found-injective a c (sym (fit-hit size a prev b bs t) ∙ e) in
      rw (← here, place-hit size a prev b bs t)
        (carve-takes size a b bs (Fits-le size a prev b bs t).0)
  | inr t ↦
      let (g, le, u) =
        place-takes size (after a b) a c bs (sym (fit-miss size a prev b bs t) ∙ e) in
      (g, le, rw (place-miss size a prev b bs t) (inr u))
]

pub place-fresh :
    (m : ℕ → Header) (size a stop prev c n : ℕ) (bs : List Block)
    → Linked m a stop bs
    → fit size a prev bs ≡ found c
    → ¬ (InUse a bs c n)
place-fresh m size a stop prev c n [] l e u = u
place-fresh m size a stop prev c n (b ∷ bs) l e u = elim (Fits-cases size a prev b bs) [
  | inl t ↦
      hit (found-injective a c (sym (fit-hit size a prev b bs t) ∙ e))
        (Fits-le size a prev b bs t).1 u
  | inr t ↦
      let f = sym (fit-miss size a prev b bs t) ∙ e in
      miss f (place-fresh m size (after a b) stop a c n bs l.1 f) u
]
  where
    hit : a ≡ c → b.free ≡ true → ¬ (InUse a (b ∷ bs) c n)
    hit e' f (inl u) = cc
    hit e' f (inr u) = absurd (omega (arith, InUse-bounds m (after a b) stop c n bs l.1 u))

    miss :
        fit size (after a b) a bs ≡ found c
        → ¬ (InUse (after a b) bs c n)
        → ¬ (InUse a (b ∷ bs) c n)
    miss f ih (inl u) = absurd (omega (arith, fit-bounds m size (after a b) stop a c bs l.1 f))
    miss f ih (inr u) = ih u
