-- ===== src/Memory/Heap/Free.antt =====
-- kfree over a sound heap: the block is released, and free neighbours are folded.
use kil0y_os.Prelude.{
  ℕ, zero, suc, ◌+◌, ◌%◌, ◌^◌, ◌≤◌, ◌<◌, ◌≡◌, ◌≢◌, ◌↔◌, refl, ap, ◌∙◌, true, false, ◌&&◌, List, [],
  ◌∷◌, length, arith, ltb, ◌==◌, if◌then◌else◌, update, Bool-cases, inl, inr, ◌⊎◌,
}
use kil0y_os.Memory.Heap.{Header, header_size, merge_pass}
use kil0y_os.Memory.Heap.Layout.{
  Block, after, link, header_of, Linked, Linked-le, Linked-frame, InUse,
}

-- The blocks with the one at `x` marked free.
unfoldable pub release : ℕ → ℕ → List Block → List Block
release x a [] = []
release x a (b ∷ bs) =
    if a == x then record b { free = true } ∷ bs else b ∷ release x (after a b) bs

abbrev pub join : Block → Block → Block
join b c = record { size = b.size + header_size + c.size; free = true }

-- The merge pass over the blocks `b` at `a`, then `bs`.
pub merge : ℕ → ℕ → Block → List Block → List Block
merge x a b [] = b ∷ []
merge x a b (c ∷ cs) =
    let fold = merge x a (join b c) cs in
    let go_on = b ∷ merge x (after a b) c cs in
    if ltb x a then b ∷ c ∷ cs else (if b.free && c.free then fold else go_on)

pub link-release : (x a y : ℕ) (bs : List Block) → link (release x a bs) y ≡ link bs y
unfolding release
link-release x a y [] = refl
link-release x a y (b ∷ bs) = ground arith

pub link-merge : (x a y : ℕ) (b : Block) (bs : List Block) → link (merge x a b bs) y ≡ y
unfolding merge
link-merge x a y b [] = refl
link-merge x a y b (c ∷ cs) = ground (arith, link-merge x a y (join b c) cs)

abbrev pub free_at : (ℕ → Header) → ℕ → ℕ → Header
free_at m x = update m x (record (m x) { free = true })

module _ (x a : ℕ) (b : Block) (bs : List Block) where
  pub release-hit : a ≡ x → release x a (b ∷ bs) ≡ record b { free = true } ∷ bs
  unfolding release
  release-hit e = ground arith

  pub release-miss : a ≢ x → release x a (b ∷ bs) ≡ b ∷ release x (after a b) bs
  unfolding release
  release-miss e = ground arith

pub release-Linked :
    (m : ℕ → Header) (x a stop : ℕ) (bs : List Block)
    → Linked m a stop bs
    → Linked (free_at m x) a stop (release x a bs)
release-Linked m x a stop [] l = unfold release in l
release-Linked m x a stop (b ∷ bs) l = elim (Bool-cases (a == x)) [
  | inl e ↦ rw (release-hit x a b bs (ground arith)) (
    ground (arith, l.0),
    Linked-frame m (free_at m x) (after a b) stop bs (λ y k. ground arith) l.1,
  )
  | inr e ↦ rw (release-miss x a b bs (ground arith)) (
    ground (arith, l.0, link-release x (after a b) (after a b) bs),
    release-Linked m x (after a b) stop bs l.1,
  )
]

module _ (x a : ℕ) (b c : Block) (cs : List Block) where
  pub merge-stop : x < a → merge x a b (c ∷ cs) ≡ b ∷ c ∷ cs
  unfolding merge
  merge-stop h = ground arith

  pub merge-fold :
      a ≤ x → b.free ≡ true → c.free ≡ true → merge x a b (c ∷ cs) ≡ merge x a (join b c) cs
  unfolding merge
  merge-fold h f g = ground arith

  pub merge-skip :
      a ≤ x → (b.free && c.free) ≡ false → merge x a b (c ∷ cs) ≡ b ∷ merge x (after a b) c cs
  unfolding merge
  merge-skip h f = ground arith

  pub data Turn : Type 0 where
    ends : x < a → Turn
    folds : a ≤ x → b.free ≡ true → c.free ≡ true → Turn
    skips : a ≤ x → (b.free && c.free) ≡ false → Turn

  pub turn : Turn
  turn = elim (Bool-cases (ltb x a)) [
    | inl e ↦ ends (ground arith)
    | inr e ↦ elim (Bool-cases (b.free && c.free)) [
      | inl f ↦ folds (ground arith) (ground arith) (ground arith)
      | inr f ↦ skips (ground arith) f
    ]
  ]

abbrev fold_at : (ℕ → Header) → ℕ → ℕ → Header
fold_at m a = update m a (record (m a) {
  size = ((m a).size + header_size + (m (m a).next).size) % 2 ^ 64;
  next = (m (m a).next).next;
})

-- The loop's step, on what the headers say.
module _ (n x a : ℕ) (m : ℕ → Header) where
  merge_pass-stop : ((m a).next ≡ 0) ⊎ (x < a) → merge_pass (suc n) x m a ≡ m
  unfolding merge_pass
  merge_pass-stop h = ground arith

  merge_pass-fold :
      0 < a
      → 0 < (m a).next
      → a ≤ x
      → (m a).free ≡ true
      → (m (m a).next).free ≡ true
      → merge_pass (suc n) x m a ≡ merge_pass n x (fold_at m a) a
  unfolding merge_pass
  merge_pass-fold p q h f g = ground arith

  merge_pass-skip :
      0 < a
      → 0 < (m a).next
      → a ≤ x
      → ((m a).free && (m (m a).next).free) ≡ false
      → merge_pass (suc n) x m a ≡ merge_pass n x m (m a).next
  unfolding merge_pass
  merge_pass-skip p q h f = ground arith

pub merge-nil : (x a : ℕ) (b : Block) → merge x a b [] ≡ b ∷ []
unfolding merge
merge-nil x a b = refl

merge_pass-zero : (x a : ℕ) (m : ℕ → Header) → merge_pass 0 x m a ≡ m
unfolding merge_pass
merge_pass-zero x a m = refl

-- The headers after the pass are those of the merged blocks, and those before `a` are as they were.
abbrev pub Merged : (ℕ → Header) → (ℕ → Header) → ℕ → ℕ → ℕ → Block → List Block → Type 0
Merged m m' x a stop b bs = Linked m' a stop (merge x a b bs) × ((y : ℕ) → y < a → m' y ≡ m y)

module _ (m : ℕ → Header) (x a stop : ℕ) (b c : Block) (cs : List Block)
    (l : Linked m a stop (b ∷ c ∷ cs)) (s : stop < 2 ^ 63) (pos : 0 < a) where
  room : after (after a b) c ≤ stop
  room = Linked-le m (after (after a b) c) stop cs (l.1.1)

  next_header : (m a).next ≡ after a b
  next_header = ground (arith, l.0)

  second : m (m a).next ≡ header_of c (link cs (after (after a b) c))
  second = rw next_header (l.1.0)

  fold-Linked : b.free ≡ true → Linked (fold_at m a) a stop (join b c ∷ cs)
  fold-Linked f = (
    ground (arith, l.0, second, room, far),
    rw (← far)
        (Linked-frame m (fold_at m a) (after (after a b) c) stop cs (λ y k. ground arith) (l.1.1)),
  )
    where
      far : after (after a b) c ≡ after a (join b c)
      far = omega arith

-- The pass over `bs` behind `b`, one turn at a time.
pub merge_pass-Merged :
    (n : ℕ) (m : ℕ → Header) (x a stop : ℕ) (b : Block) (bs : List Block)
    → Linked m a stop (b ∷ bs)
    → length bs ≤ n
    → stop < 2 ^ 63
    → 0 < a
    → Merged m (merge_pass n x m a) x a stop b bs
merge_pass-Merged zero m x a stop b [] l h s pos =
    rw (merge_pass-zero x a m, merge-nil x a b) (l, λ y k. refl)
merge_pass-Merged zero m x a stop b (c ∷ cs) l h s pos = absurd (omega arith)
merge_pass-Merged (suc n) m x a stop b [] l h s pos =
    rw (merge_pass-stop n x a m (inl (ground (arith, l.0))), merge-nil x a b) (l, λ y k. refl)
merge_pass-Merged (suc n) m x a stop b (c ∷ cs) l h s pos = elim (turn x a b c cs) [
  | ends e ↦ rw (merge_pass-stop n x a m (inr e), merge-stop x a b c cs e) (l, λ y k. refl)
  | folds e f g ↦
      let sec = second m x a stop b c cs l s pos in
      let nxt = next_header m x a stop b c cs l s pos in
      let ih =
        merge_pass-Merged n (fold_at m a) x a stop (join b c) cs
          (fold-Linked m x a stop b c cs l s pos f) (omega arith) s pos in
      rw
        (
          merge_pass-fold n x a m pos (omega arith) e (ground (arith, l.0)) (ground (arith, sec)),
          merge-fold x a b c cs e f g,
        )
        (ih.0, λ y k. ih.1 y k ∙ ground arith)
  | skips e f ↦
      let sec = second m x a stop b c cs l s pos in
      let nxt = next_header m x a stop b c cs l s pos in
      let ih = merge_pass-Merged n m x (after a b) stop c cs l.1 (omega arith) s (omega arith) in
      rw
        (
          merge_pass-skip n x a m pos (omega arith) e (ground (arith, l.0, sec))
              ∙ ap (merge_pass n x m) nxt,
          merge-skip x a b c cs e f,
        )
        (
          (ih.1 a (omega arith) ∙ rw (link-merge x (after a b) (after a b) c cs) l.0, ih.0),
          λ y k. ih.1 y (omega arith),
        )
]

fold-InUse :
    (a y k : ℕ) (b c : Block) (cs : List Block)
    → b.free ≡ true
    → c.free ≡ true
    → InUse a (b ∷ c ∷ cs) y k ↔ InUse a (join b c ∷ cs) y k
fold-InUse a y k b c cs f g = (there, back)
  where
    far : after a (join b c) ≡ after (after a b) c
    far = omega arith

    there : InUse a (b ∷ c ∷ cs) y k → InUse a (join b c ∷ cs) y k
    there (inl u) = absurd (cc)
    there (inr (inl u)) = absurd (cc)
    there (inr (inr u)) = rw far (inr u)

    back : InUse a (join b c ∷ cs) y k → InUse a (b ∷ c ∷ cs) y k
    back (inl u) = absurd (cc)
    back (inr u) = inr (inr (rw far at u))

-- Blocks in use, before and after a merge and a release.
pub merge-InUse :
    (x a y k : ℕ) (b : Block) (bs : List Block)
    → InUse a (b ∷ bs) y k ↔ InUse a (merge x a b bs) y k
merge-InUse x a y k b [] = rw (merge-nil x a b) (λ u. u, λ u. u)
merge-InUse x a y k b (c ∷ cs) = elim (turn x a b c cs) [
  | ends e ↦ rw (merge-stop x a b c cs e) (λ u. u, λ u. u)
  | folds e f g ↦
      let (to, from) = fold-InUse a y k b c cs f g in
      let ih = merge-InUse x a y k (join b c) cs in
      rw (merge-fold x a b c cs e f g) (λ u. ih.0 (to u), λ u. from (ih.1 u))
  | skips e f ↦
      let ih = merge-InUse x (after a b) y k c cs in
      rw (merge-skip x a b c cs e f) (lift ih.0, lift ih.1)
]
  where
    lift :
        {P Q : Type 0}
        → (P → Q)
        → ((a ≡ y) × (b.size ≡ k) × (b.free ≡ false)) ⊎ P
        → ((a ≡ y) × (b.size ≡ k) × (b.free ≡ false)) ⊎ Q
    lift f (inl u) = inl u
    lift f (inr u) = inr (f u)
