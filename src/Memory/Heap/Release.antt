-- ===== src/Memory/Heap/Release.antt =====
-- What kfree of a block in use does to a sound heap.
use kil0y_os.Prelude.{
  ℕ, ◌+◌, ◌-◌, ◌^◌, ◌≤◌, ◌<◌, ◌≡◌, ◌≢◌, ◌↔◌, refl, ap, true, false, List, [], ◌∷◌, length, arith,
  ◌==◌, Bool-cases, inl, inr, ◌⊎◌,
}
use kil0y_os.Memory.Heap.{
  Header, Heap, heap_magic, header_size, walk_fuel, set_free, merge_pass, is_corrupt, kfree,
}
use kil0y_os.Memory.Heap.Layout.{
  Block, after, Linked, IsSound, Linked-le, Linked-length, InUse, InUse-bounds,
}
use kil0y_os.Memory.Heap.Free.{
  release, merge, join, release-hit, release-miss, release-Linked, merge_pass-Merged, merge-InUse,
  ends, folds, skips, turn, merge-nil, merge-stop, merge-fold, merge-skip,
}

release-keeps :
    (x a y k : ℕ) (bs : List Block) → x ≢ y → InUse a bs y k → InUse a (release x a bs) y k
unfolding release
release-keeps x a y k [] ne u = u
release-keeps x a y k (b ∷ bs) ne u = ground (arith, release-keeps x (after a b) y k bs ne)

release-only : (x a y k : ℕ) (bs : List Block) → InUse a (release x a bs) y k → InUse a bs y k
unfolding release
release-only x a y k [] u = u
release-only x a y k (b ∷ bs) u = ground (arith, release-only x (after a b) y k bs)

release-gone :
    (m : ℕ → Header) (x a stop k : ℕ) (bs : List Block)
    → Linked m a stop bs
    → ¬ (InUse a (release x a bs) x k)
release-gone m x a stop k [] l u = unfold release in u
release-gone m x a stop k (b ∷ bs) l u = elim (Bool-cases (a == x)) [
  | inl e ↦ hit (ground arith) (rw (release-hit x a b bs (ground arith)) at u)
  | inr e ↦
      miss (ground arith) (release-gone m x (after a b) stop k bs l.1)
        (rw (release-miss x a b bs (ground arith)) at u)
]
  where
    hit : a ≡ x → ¬ (InUse a (record b { free = true } ∷ bs) x k)
    hit e (inl u) = cc
    hit e (inr u) = absurd (omega (arith, InUse-bounds m (after a b) stop x k bs l.1 u))

    miss :
        a ≢ x
        → ¬ (InUse (after a b) (release x (after a b) bs) x k)
        → ¬ (InUse a (b ∷ release x (after a b) bs) x k)
    miss ne ih (inl u) = ne u.0
    miss ne ih (inr u) = ih u

-- The blocks after a merge pass from the first on.
pub coalesce : ℕ → ℕ → List Block → List Block
coalesce x a [] = []
coalesce x a (b ∷ bs) = merge x a b bs

abbrev pub freed : ℕ → ℕ → List Block → List Block
freed x a bs = coalesce x a (release x a bs)

length-release : (x a : ℕ) (bs : List Block) → length (release x a bs) ≡ length bs
unfolding release
length-release x a [] = refl
length-release x a (b ∷ bs) = ground (arith, length-release x (after a b) bs)

coalesce-InUse : (x a y k : ℕ) (bs : List Block) → InUse a bs y k ↔ InUse a (coalesce x a bs) y k
unfolding coalesce
coalesce-InUse x a y k [] = (λ u. u, λ u. u)
coalesce-InUse x a y k (b ∷ bs) = merge-InUse x a y k b bs

coalesce-Linked :
    (n : ℕ) (m : ℕ → Header) (x a stop : ℕ) (bs : List Block)
    → Linked m a stop bs
    → length bs ≤ n
    → stop < 2 ^ 63
    → 0 < a
    → bs ≢ []
    → Linked (merge_pass n x m a) a stop (coalesce x a bs)
unfolding coalesce
coalesce-Linked n m x a stop [] l h s pos ne = absurd (ne refl)
coalesce-Linked n m x a stop (b ∷ bs) l h s pos ne =
    (merge_pass-Merged n m x a stop b bs l (omega arith) s pos).0

-- The header of a block in use is whole, and so is its successor's.
module _ (m : ℕ → Header) (stop x k : ℕ) where
  abbrev Intact : Type 0
  Intact =
      ((m x).magic ≡ heap_magic)
      × ((m x).size ≡ k)
      × (((m x).next ≡ 0)
          ⊎ (((m x).next ≡ x + (header_size + k))
              × (x + (header_size + k) < stop)
              × ((m (x + (header_size + k))).magic ≡ heap_magic)))

  InUse-Intact : (a : ℕ) (bs : List Block) → Linked m a stop bs → InUse a bs x k → Intact
  InUse-Intact a [] l u = absurd u
  InUse-Intact a (b ∷ []) l (inl u) = ground (arith, l.0)
  InUse-Intact a (b ∷ c ∷ cs) l (inl u) =
      let le = Linked-le m (after (after a b) c) stop cs (l.1.1) in
      rw (← u.0, ← u.1)
        (
          ground (arith, l.0),
          ground (arith, l.0),
          inr (ground (arith, l.0), omega (arith, le), ground (arith, l.1.0)),
        )
  InUse-Intact a (b ∷ bs) l (inr u) = InUse-Intact (after a b) bs l.1 u

-- What kfree of the block in use at `x` promises: the block is no longer in use, every other block in
-- use is where it was, with its size, no block comes into use, and the heap is sound.
pub record Freed (h : Heap) (bs : List Block) (x : ℕ) (out : Heap) : Type 0 where
  pub blocks : List Block
  pub sound : IsSound out blocks
  pub arena : (out.start ≡ h.start) × (out.stop ≡ h.stop)
  pub gone : (n : ℕ) → ¬ (InUse h.start blocks x n)
  pub others : (y n : ℕ) → x ≢ y → InUse h.start bs y n → InUse h.start blocks y n
  pub only : (y n : ℕ) → InUse h.start blocks y n → InUse h.start bs y n

merge-some : (x a : ℕ) (b : Block) (bs : List Block) → merge x a b bs ≢ []
merge-some x a b [] = rw (merge-nil x a b) (λ e. cc)
merge-some x a b (c ∷ cs) = elim (turn x a b c cs) [
  | ends e ↦ rw (merge-stop x a b c cs e) (λ q. cc)
  | folds e f g ↦ rw (merge-fold x a b c cs e f g) (merge-some x a (join b c) cs)
  | skips e f ↦ rw (merge-skip x a b c cs e f) (λ q. cc)
]

coalesce-some : (x a : ℕ) (bs : List Block) → bs ≢ [] → coalesce x a bs ≢ []
unfolding coalesce
coalesce-some x a [] h e = h refl
coalesce-some x a (b ∷ bs) h e = merge-some x a b bs e

release-some : (x a : ℕ) (bs : List Block) → bs ≢ [] → release x a bs ≢ []
unfolding release
release-some x a [] h e = h refl
release-some x a (b ∷ bs) h e = ground arith

is_corrupt-Intact :
    (h : Heap) (x k : ℕ)
    → Intact h.headers h.stop x k
    → h.start ≤ x
    → h.stop < 2 ^ 63
    → is_corrupt h x ≡ false
unfolding is_corrupt
is_corrupt-Intact h x k (a, b, inl c) s t = ground arith
is_corrupt-Intact h x k (a, b, inr (c, d, e)) s t =
    let far : h.headers (h.headers x).next ≡ h.headers (x + (header_size + k)) = ap h.headers c in
    ground arith

kfree-passes :
    (h : Heap) (ptr x : ℕ)
    → ptr - header_size ≡ x
    → h.start + header_size ≤ ptr
    → ptr < h.stop
    → h.stop < 2 ^ 63
    → is_corrupt h x ≡ false
    → kfree h ptr ≡ record h { headers = merge_pass (walk_fuel h) x (set_free h x) h.list }
unfolding kfree
kfree-passes h ptr x e le lt s ok = rw e (ground arith)

module _ (h : Heap) (bs : List Block) (x k : ℕ) (v : IsSound h bs) (u : InUse h.start bs x k)
    (pos : 0 < k) where
  intact : Intact h.headers h.stop x k
  intact = InUse-Intact h.headers h.stop x k h.start bs v.linked u

  bounds : (h.start ≤ x) × (x + (header_size + k) ≤ h.stop)
  bounds = InUse-bounds h.headers h.start h.stop x k bs v.linked u

  kfree-merge_pass :
      kfree h (x + header_size)
      ≡ record h { headers = merge_pass (walk_fuel h) x (set_free h x) h.list }
  kfree-merge_pass =
      kfree-passes h (x + header_size) x (omega arith) (omega (arith, bounds))
        (omega (arith, bounds)) v.small (is_corrupt-Intact h x k intact bounds.0 v.small)

  -- On a sound heap, after kfree of the address of a block in use, of a size other than 0, that block is in use no more, every
  -- other block in use still is, with its size, no other block is, and the heap is sound.
  pub kfree_lem : Freed h bs x (kfree h (x + header_size))
  kfree_lem = rw kfree-merge_pass (record {
    blocks = freed x h.start bs;
    sound = record {
      positive = v.positive;
      small = v.small;
      some_block =
          coalesce-some x h.start (release x h.start bs) (release-some x h.start bs v.some_block);
      head = v.head;
      linked = rw v.head (
          coalesce-Linked (walk_fuel h) (set_free h x) x h.start h.stop (release x h.start bs)
            (release-Linked h.headers x h.start h.stop bs v.linked)
            (omega (
              arith,
              length-release x h.start bs,
              Linked-length h.headers h.start h.stop bs v.linked,
            ))
            v.small v.positive (release-some x h.start bs v.some_block));
    };
    arena = (refl, refl);
    gone = λ n w.
        release-gone h.headers x h.start h.stop n bs v.linked
          ((coalesce-InUse x h.start x n (release x h.start bs)).1 w);
    others = λ y n ne w.
        (coalesce-InUse x h.start y n (release x h.start bs)).0
          (release-keeps x h.start y n bs ne w);
    only = λ y n w.
        release-only x h.start y n bs ((coalesce-InUse x h.start y n (release x h.start bs)).1 w);
  })
