-- ===== src/Memory/Heap/Alloc.antt =====
-- kmalloc over a sound heap.
use kil0y_os.Prelude.{
  ℕ, ◌+◌, ◌^◌, ◌≤◌, ◌<◌, ◌≡◌, ◌≢◌, refl, sym, ◌∙◌, List, [], ◌∷◌, arith, inl, inr, ◌⊎◌,
}
use kil0y_os.Memory.Heap.{
  Header, Heap, header_size, walk_fuel, Fit, found, missed, find_fit, take_block, round_size,
  kmalloc, extend,
}
use kil0y_os.Memory.Heap.Layout.{
  Block, after, link, Linked, IsSound, Linked-length, fit, find_fit-fit, InUse, InUse-bounds,
}
use kil0y_os.Memory.Heap.Place.{
  NoFit, missed-NoFit, place, place-Linked, place-fresh, place-keeps, place-takes,
}

-- What a successful kmalloc promises: the block lies in the arena, holds the request, was not in
-- use, and every block that was in use still is, at its place and with its size.
pub record Allocated (h : Heap) (bs : List Block) (size : ℕ) (out : Heap × ℕ) : Type 0 where
  pub header : ℕ
  pub blocks : List Block
  pub granted : ℕ
  pub pointer : out.1 ≡ header + header_size
  pub enough : size ≤ granted
  pub inside : (h.start ≤ header) × (out.1 + granted ≤ h.stop)
  pub sound : IsSound out.0 blocks
  pub arena : (out.0.start ≡ h.start) × (out.0.stop ≡ h.stop)
  pub taken : InUse h.start blocks header granted
  pub was_free : (n : ℕ) → ¬ (InUse h.start bs header n)
  pub others : (x n : ℕ) → InUse h.start bs x n → InUse h.start blocks x n

place-some : (size : ℕ) (bs : List Block) → bs ≢ [] → place size bs ≢ []
unfolding place
place-some size [] h e = h refl
place-some size (b ∷ bs) h e = ground arith

-- The walk that finds nothing ends at the last block, behind which the arena ends.
missed-last :
    (m : ℕ → Header) (size a stop prev p : ℕ) (bs : List Block)
    → Linked m a stop bs
    → 0 < a
    → (0 < prev) × (prev + (header_size + (m prev).size) ≡ a)
    → fit size a prev bs ≡ missed p
    → (0 < p) × (p + (header_size + (m p).size) ≡ stop)
unfolding fit
missed-last m size a stop prev p [] l pos q e = ground arith
missed-last m size a stop prev p (b ∷ bs) l pos q e =
    missed-last m size (after a b) stop a p bs l.1 (omega arith) (pos, ground (arith, l.0))
      (ground arith)

missed-last_of_some :
    (m : ℕ → Header) (size a stop p : ℕ) (bs : List Block)
    → Linked m a stop bs
    → 0 < a
    → bs ≢ []
    → fit size a 0 bs ≡ missed p
    → (0 < p) × (p + (header_size + (m p).size) ≡ stop)
unfolding fit
missed-last_of_some m size a stop p [] l pos q e = absurd (q refl)
missed-last_of_some m size a stop p (b ∷ bs) l pos q e =
    missed-last m size (after a b) stop a p bs l.1 (omega arith) (pos, ground (arith, l.0))
      (ground arith)

pub link-some : (bs : List Block) (a : ℕ) → bs ≢ [] → link bs a ≡ a
link-some [] a h = absurd (h refl)
link-some (b ∷ bs) a h = refl

pub round_size-le :
    (size : ℕ) → size < 2 ^ 62 → (size ≤ round_size size) × (round_size size ≤ 2 ^ 62)
unfolding round_size
round_size-le size h = ground arith

module _ (h : Heap) (bs : List Block) (size : ℕ) (v : IsSound h bs) (s : size < 2 ^ 62) where
  walk :
      find_fit (walk_fuel h) h.headers (round_size size) h.list 0
      ≡ fit (round_size size) h.start 0 bs
  walk = rw (v.head ∙ sym (link-some bs h.start v.some_block)) (
      find_fit-fit (walk_fuel h) h.headers (round_size size) h.start h.stop 0 bs v.positive v.linked
        (omega (arith, Linked-length h.headers h.start h.stop bs v.linked)))

  hit :
      (c : ℕ) → fit (round_size size) h.start 0 bs ≡ found c → Allocated h bs size (kmalloc h size)
  unfolding kmalloc
  hit c e =
      rw (walk, e)
        (let n = round_size size in
          let (g, le, u) = place-takes n h.start 0 c bs e in
          let sound =
            place-Linked h.headers n h.start h.stop 0 c bs v.linked e v.small v.positive in
          let bound =
            InUse-bounds (take_block h.headers c n) h.start h.stop c g (place n bs) sound u in
          record {
            header = c;
            blocks = place n bs;
            granted = g;
            pointer = omega (arith, bound, v.small);
            enough = omega (arith, round_size-le size s);
            inside = omega (arith, bound, v.small);
            sound = record {
              positive = v.positive;
              small = v.small;
              some_block = place-some n bs v.some_block;
              head = v.head;
              linked = sound;
            };
            arena = (refl, refl);
            taken = u;
            was_free = λ k. place-fresh h.headers n h.start h.stop 0 c k bs v.linked e;
            others = λ x k. place-keeps n h.start x k bs;
          })

  miss :
      (p : ℕ)
      → fit (round_size size) h.start 0 bs ≡ missed p
      → (kmalloc h size ≡ (h, 0)) × NoFit (round_size size) bs
  unfolding kmalloc extend
  miss p e = (
    rw (walk, e)
        (ground (
          arith,
          missed-last_of_some h.headers (round_size size) h.start h.stop p bs v.linked v.positive
              v.some_block e,
          round_size-le size s,
          v.small,
        )),
    missed-NoFit (round_size size) h.start 0 p bs e,
  )

  fit-cases :
      ((c : ℕ) × (fit (round_size size) h.start 0 bs ≡ found c))
      ⊎ ((p : ℕ) × (fit (round_size size) h.start 0 bs ≡ missed p))
  fit-cases = go (fit (round_size size) h.start 0 bs) refl
    where
      go :
          (f : Fit)
          → fit (round_size size) h.start 0 bs ≡ f
          → ((c : ℕ) × (fit (round_size size) h.start 0 bs ≡ found c))
            ⊎ ((p : ℕ) × (fit (round_size size) h.start 0 bs ≡ missed p))
      go (found c) e = inl (c, e)
      go (missed p) e = inr (p, e)

  -- On a sound heap, kmalloc of less than 2^62 bytes either returns a block that was not in use, in
  -- the arena, with room for the request, and leaves every block in use as it was and the heap
  -- sound, or returns NULL and changes nothing, and then no free block has the rounded size.
  pub kmalloc_lem :
      Allocated h bs size (kmalloc h size)
      ⊎ ((kmalloc h size ≡ (h, 0)) × NoFit (round_size size) bs)
  kmalloc_lem = elim fit-cases [ inl (c, e) ↦ inl (hit c e) | inr (p, e) ↦ inr (miss p e) ]
