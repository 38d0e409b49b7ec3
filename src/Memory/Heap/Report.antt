-- ===== src/Memory/Heap/Report.antt =====
-- The boot heap, heap_verify and heap_free_bytes over a sound heap.
use kil0y_os.Prelude.{
  ℕ, zero, suc, ◌+◌, ◌-◌, ◌^◌, ◌≤◌, ◌<◌, ◌≡◌, refl, ap, sym, ◌∙◌, true, List, [], ◌∷◌, length,
  arith, if◌then◌else◌, Bool-cases, inl, inr,
}
use kil0y_os.Memory.Heap.{
  Header, Heap, header_size, walk_fuel, heap_init, free_bytes_from, heap_free_bytes, verify_from,
  heap_verify,
}
use kil0y_os.Memory.Heap.Layout.{Block, after, link, Linked, IsSound, Linked-le, Linked-length}
use kil0y_os.Memory.Heap.Alloc.{link-some}

-- The one free block of an arena at boot.
abbrev pub boot_blocks : ℕ → ℕ → List Block
boot_blocks start stop = record { size = stop - start - header_size; free = true } ∷ []

-- The heap that memory_init leaves is sound: one free block from the arena's start to its end.
pub heap_init-IsSound :
    (start stop : ℕ) (memory : ℕ → Header)
    → 0 < start
    → start + header_size ≤ stop
    → stop < 2 ^ 63
    → IsSound (heap_init start stop memory) (boot_blocks start stop)
unfolding heap_init
heap_init-IsSound start stop memory pos fits small = record {
  positive = pos;
  small = small;
  some_block = λ e. cc;
  head = refl;
  linked = (ground arith, omega arith);
}

-- The bytes of the free blocks.
pub free_bytes : List Block → ℕ
free_bytes [] = 0
free_bytes (b ∷ bs) = (if b.free then b.size else 0) + free_bytes bs

free_bytes-le :
    (m : ℕ → Header) (a stop : ℕ) (bs : List Block) → Linked m a stop bs → free_bytes bs + a ≤ stop
unfolding free_bytes
free_bytes-le m a stop [] l = omega arith
free_bytes-le m a stop (b ∷ bs) l = ground (arith, free_bytes-le m (after a b) stop bs l.1)

free_bytes_from-free_bytes :
    (n : ℕ) (m : ℕ → Header) (a stop acc : ℕ) (bs : List Block)
    → Linked m a stop bs
    → length bs ≤ n
    → 0 < a
    → acc + free_bytes bs < 2 ^ 64
    → free_bytes_from n m (link bs a) acc ≡ acc + free_bytes bs
unfolding free_bytes free_bytes_from
free_bytes_from-free_bytes zero m a stop acc [] l h pos fits = omega arith
free_bytes_from-free_bytes zero m a stop acc (b ∷ bs) l h pos fits = absurd (omega arith)
free_bytes_from-free_bytes (suc n) m a stop acc [] l h pos fits = omega arith
free_bytes_from-free_bytes (suc n) m a stop acc (b ∷ bs) l h pos fits = elim (Bool-cases b.free) [
  | inl f ↦ ground (
    arith,
    l.0,
    free_bytes_from-free_bytes n m (after a b) stop (acc + b.size) bs l.1 (omega arith)
        (omega arith),
  )
  | inr f ↦ ground (
    arith,
    l.0,
    free_bytes_from-free_bytes n m (after a b) stop acc bs l.1 (omega arith) (omega arith),
  )
]

list-link : (h : Heap) (bs : List Block) → IsSound h bs → h.list ≡ link bs h.start
list-link h bs v = v.head ∙ sym (link-some bs h.start v.some_block)

blocks-fuel : (h : Heap) (bs : List Block) → IsSound h bs → length bs < walk_fuel h
blocks-fuel h bs v = omega (arith, Linked-length h.headers h.start h.stop bs v.linked)

-- heap_free_bytes is the sum of the sizes of the free blocks of a sound heap.
pub heap_free_bytes_lem :
    (h : Heap) (bs : List Block) → IsSound h bs → heap_free_bytes h ≡ free_bytes bs
unfolding heap_free_bytes
heap_free_bytes_lem h bs v = rw (list-link h bs v) (
    free_bytes_from-free_bytes (walk_fuel h) h.headers h.start h.stop 0 bs v.linked
      (omega (arith, blocks-fuel h bs v)) v.positive
      (omega (arith, free_bytes-le h.headers h.start h.stop bs v.linked, v.small))
    ∙ omega arith)

verify_from-true :
    (n : ℕ) (h : Heap) (a last : ℕ) (bs : List Block)
    → Linked h.headers a h.stop bs
    → h.start ≤ a
    → 0 < a
    → last < a
    → h.stop < 2 ^ 63
    → verify_from n h (link bs a) last ≡ true
unfolding verify_from
verify_from-true zero h a last bs l s pos lt small = refl
verify_from-true (suc n) h a last [] l s pos lt small = refl
verify_from-true (suc n) h a last (b ∷ []) l s pos lt small =
    ground (arith, l.0, verify_from-true n h (after a b) a [] l.1)
verify_from-true (suc n) h a last (b ∷ c ∷ cs) l s pos lt small = ground (
  arith,
  l.0,
  Linked-le h.headers (after (after a b) c) h.stop cs (l.1.1),
  verify_from-true n h (after a b) a (c ∷ cs) l.1 (omega arith) (omega arith) (omega arith) small,
)

-- heap_verify reports every sound heap clean.
pub heap_verify_lem : (h : Heap) (bs : List Block) → IsSound h bs → heap_verify h ≡ true
unfolding heap_verify
heap_verify_lem h bs v =
    ap (λ p. verify_from (walk_fuel h) h p 0) (list-link h bs v)
    ∙ verify_from-true (walk_fuel h) h h.start 0 bs v.linked (omega arith) v.positive v.positive
        v.small
