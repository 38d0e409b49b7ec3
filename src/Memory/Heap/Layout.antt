-- ===== src/Memory/Heap/Layout.antt =====
-- The arena as a list of blocks that lie back to back, and what the header walks see of it.
use kil0y_os.Prelude.{
  ℕ, zero, suc, ◌+◌, ◌*◌, ◌^◌, ◌≤◌, ◌<◌, ◌≡◌, ◌≢◌, refl, ◌∙◌, Bool, false, ◌&&◌, List, [], ◌∷◌,
  length, arith, leb, if◌then◌else◌, inl, inr, ◌⊎◌,
}
use kil0y_os.Memory.Heap.{Header, Heap, heap_magic, header_size, Fit, found, missed, find_fit}

pub record Block : Type 0 where
  pub size : ℕ
  pub free : Bool

-- The address after a block.
abbrev pub after : ℕ → Block → ℕ
after a b = a + (header_size + b.size)

-- The pointer to the first of the blocks at `a`, NULL if there are none.
abbrev pub link : List Block → ℕ → ℕ
link [] a = 0
link (b ∷ bs) a = a

abbrev pub header_of : Block → ℕ → Header
header_of b next = record { size = b.size; next = next; free = b.free; magic = heap_magic }

-- The headers from `a` up to `stop` are those of the blocks, in order and back to back.
abbrev pub Linked : (ℕ → Header) → ℕ → ℕ → List Block → Type 0
Linked m a stop [] = a ≡ stop
Linked m a stop (b ∷ bs) = (m a ≡ header_of b (link bs (after a b))) × Linked m (after a b) stop bs

-- A heap whose arena holds the blocks: no gap, no overlap, no damaged header.
pub record IsSound (h : Heap) (bs : List Block) : Type 0 where
  pub positive : 0 < h.start
  pub small : h.stop < 2 ^ 63
  pub some_block : bs ≢ []
  pub head : h.list ≡ h.start
  pub linked : Linked h.headers h.start h.stop bs

pub Linked-le : (m : ℕ → Header) (a stop : ℕ) (bs : List Block) → Linked m a stop bs → a ≤ stop
Linked-le m a stop [] l = omega arith
Linked-le m a stop (b ∷ bs) l = omega (arith, Linked-le m (after a b) stop bs l.1)

pub Linked-length :
    (m : ℕ → Header) (a stop : ℕ) (bs : List Block)
    → Linked m a stop bs
    → length bs * header_size + a ≤ stop
Linked-length m a stop [] l = omega arith
Linked-length m a stop (b ∷ bs) l = omega (arith, Linked-length m (after a b) stop bs l.1)

-- Writes elsewhere leave the blocks as they are.
pub Linked-frame :
    (m m' : ℕ → Header) (a stop : ℕ) (bs : List Block)
    → ((x : ℕ) → a ≤ x → m' x ≡ m x)
    → Linked m a stop bs
    → Linked m' a stop bs
Linked-frame m m' a stop [] same l = l
Linked-frame m m' a stop (b ∷ bs) same l = (
  same a (omega arith) ∙ l.0,
  Linked-frame m m' (after a b) stop bs (λ x h. same x (omega arith)) l.1,
)

-- The walk of kmalloc over the blocks.
unfoldable pub fit : ℕ → ℕ → ℕ → List Block → Fit
fit size a prev [] = missed prev
fit size a prev (b ∷ bs) = if b.free && leb size b.size then found a else fit size (after a b) a bs

-- kmalloc's walk along the headers is the walk over the blocks, if the fuel is their number.
pub find_fit-fit :
    (n : ℕ) (m : ℕ → Header) (size a stop prev : ℕ) (bs : List Block)
    → 0 < a
    → Linked m a stop bs
    → length bs ≤ n
    → find_fit n m size (link bs a) prev ≡ fit size a prev bs
unfolding find_fit fit
find_fit-fit zero m size a stop prev [] pos l h = refl
find_fit-fit zero m size a stop prev (b ∷ bs) pos l h = absurd (omega arith)
find_fit-fit (suc n) m size a stop prev [] pos l h = refl
find_fit-fit (suc n) m size a stop prev (b ∷ bs) pos l h =
    ground (arith, l.0, find_fit-fit n m size (after a b) stop a bs (omega arith) l.1 (omega arith))

pub fit-bounds :
    (m : ℕ → Header) (size a stop prev c : ℕ) (bs : List Block)
    → Linked m a stop bs
    → fit size a prev bs ≡ found c
    → (a ≤ c) × (c + (header_size + size) ≤ stop)
unfolding fit
fit-bounds m size a stop prev c [] l e = cc
fit-bounds m size a stop prev c (b ∷ bs) l e =
    ground
      (arith, fit-bounds m size (after a b) stop a c bs l.1, Linked-le m (after a b) stop bs l.1)

-- A block of `n` bytes is in use with its header at `x`.
abbrev pub InUse : ℕ → List Block → ℕ → ℕ → Type 0
InUse a [] x n = ⊥
InUse a (b ∷ bs) x n = ((a ≡ x) × (b.size ≡ n) × (b.free ≡ false)) ⊎ InUse (after a b) bs x n

pub InUse-bounds :
    (m : ℕ → Header) (a stop x n : ℕ) (bs : List Block)
    → Linked m a stop bs
    → InUse a bs x n
    → (a ≤ x) × (x + (header_size + n) ≤ stop)
InUse-bounds m a stop x n [] l u = absurd u
InUse-bounds m a stop x n (b ∷ bs) l (inl u) = omega (arith, Linked-le m (after a b) stop bs l.1)
InUse-bounds m a stop x n (b ∷ bs) l (inr u) =
    omega (arith, InUse-bounds m (after a b) stop x n bs l.1 u)

-- Two blocks in use are one, or do not overlap.
pub InUse-apart :
    (m : ℕ → Header) (a stop x n y k : ℕ) (bs : List Block)
    → Linked m a stop bs
    → InUse a bs x n
    → InUse a bs y k
    → (x ≡ y) ⊎ (x + (header_size + n) ≤ y) ⊎ (y + (header_size + k) ≤ x)
InUse-apart m a stop x n y k [] l u v = absurd u
InUse-apart m a stop x n y k (b ∷ bs) l (inl u) (inl v) = inl (omega arith)
InUse-apart m a stop x n y k (b ∷ bs) l (inl u) (inr v) =
    inr (inl (omega (arith, InUse-bounds m (after a b) stop y k bs l.1 v)))
InUse-apart m a stop x n y k (b ∷ bs) l (inr u) (inl v) =
    inr (inr (omega (arith, InUse-bounds m (after a b) stop x n bs l.1 u)))
InUse-apart m a stop x n y k (b ∷ bs) l (inr u) (inr v) =
    InUse-apart m (after a b) stop x n y k bs l.1 u v
