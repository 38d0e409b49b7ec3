-- ===== src/Strings/Compare.antt =====
-- The comparing and measuring functions of src/kernel/lib/string.c, on strings that are in memory.
use kil0y_os.Prelude.{
  subst, ℕ, zero, suc, ◌+◌, ◌-◌, ◌%◌, ◌≤◌, ◌<◌, ◌≡◌, ◌≢◌, ◌↔◌, refl, ap, sym, ◌∙◌, leb, ◌==◌, arith,
  Bool-cases, inl, inr, ◌⊎◌, List, [], ◌∷◌, length,
}
use kil0y_os.Prelude.Int.{pos, negsuc}
use kil0y_os.Strings.{Bytes, difference, char_difference, strlen_from, strlen, strcmp, memcmp}

-- The bytes `cs`, none of them zero, stand at `p`, with a zero behind.
abbrev pub StringAt : Bytes → ℕ → List ℕ → Type 0
StringAt m p [] = m p ≡ 0
StringAt m p (c ∷ cs) = (m p ≡ c) × (0 < c) × (c < 256) × StringAt m (p + 1) cs

strlen_from_lem :
    (n : ℕ) (m : Bytes) (str len : ℕ) (cs : List ℕ)
    → StringAt m (str + len) cs
    → length cs < n
    → strlen_from n m str len ≡ len + length cs
unfolding strlen_from
strlen_from_lem zero m str len cs a h = absurd (omega (arith, h))
strlen_from_lem (suc n) m str len [] a h = ground (arith, a)
strlen_from_lem (suc n) m str len (c ∷ cs) (e, p, q, a) h = ground (
  arith,
  e,
  p,
  strlen_from_lem n m str (len + 1) cs (subst (λ x. StringAt m x cs) (omega arith) a)
      (omega (arith, h)),
)

-- strlen of a string in memory is its length.
pub strlen_lem :
    (n : ℕ) (m : Bytes) (str : ℕ) (cs : List ℕ)
    → StringAt m str cs
    → length cs < n
    → strlen n m str ≡ length cs
strlen_lem n m str cs a h =
    strlen_from_lem n m str 0 cs (subst (λ x. StringAt m x cs) (omega arith) a) h ∙ omega arith

difference-pos : (a b : ℕ) → b ≤ a → difference a b ≡ pos (a - b)
difference-pos a b h = ground (arith, h)

difference-negsuc : (a b : ℕ) → a < b → difference a b ≡ negsuc (b - a - 1)
difference-negsuc a b h = ground (arith, h)

pos-injective : (a b : ℕ) → pos a ≡ pos b → a ≡ b
pos-injective a b e = cc e

difference-zero : (a b : ℕ) → difference a b ≡ pos 0 → a ≡ b
difference-zero a b e = elim (Bool-cases (leb b a)) [
  | inl h ↦
      let le : b ≤ a = ground arith in
      omega (arith, le, pos-injective (a - b) 0 (sym (difference-pos a b le) ∙ e))
  | inr h ↦ let lt : a < b = ground arith in absurd (cc (sym (difference-negsuc a b lt) ∙ e))
]

char_difference-zero : (a b : ℕ) → a < 256 → b < 256 → char_difference a b ≡ pos 0 → a ≡ b
char_difference-zero a b p q e =
    omega (arith, p, q, difference-zero ((a + 128) % 256) ((b + 128) % 256) e)

char_difference_refl : (a : ℕ) → char_difference a a ≡ pos 0
char_difference_refl a =
    difference-pos ((a + 128) % 256) ((a + 128) % 256) (omega arith) ∙ ap pos {y = 0} (omega arith)

strcmp-next :
    (n : ℕ) (m : Bytes) (a b : ℕ)
    → 0 < m a
    → m a ≡ m b
    → strcmp (suc n) m a b ≡ strcmp n m (a + 1) (b + 1)
unfolding strcmp
strcmp-next n m a b h e = ground (arith, h, e)

strcmp-stop :
    (n : ℕ) (m : Bytes) (a b : ℕ)
    → (m a ≡ 0) ⊎ (m a ≢ m b)
    → strcmp (suc n) m a b ≡ char_difference (m a) (m b)
unfolding strcmp
strcmp-stop n m a b (inl e) = ground (arith, e)
strcmp-stop n m a b (inr e) = ground (arith, e)

module _ (m : Bytes) where
  -- The first byte of a string, 0 at its end.
  abbrev first : List ℕ → ℕ
  first [] = 0
  first (c ∷ cs) = c

  StringAt-first : (p : ℕ) (cs : List ℕ) → StringAt m p cs → (m p ≡ first cs) × (first cs < 256)
  StringAt-first p [] s = (s, omega arith)
  StringAt-first p (c ∷ cs) (e, h, l, s) = (e, l)

  strcmp-differs :
      (n a b : ℕ) (xs ys : List ℕ)
      → StringAt m a xs
      → StringAt m b ys
      → first xs ≢ first ys
      → strcmp (suc n) m a b ≢ pos 0
  strcmp-differs n a b xs ys s t ne e =
      let p = StringAt-first a xs s in
      let q = StringAt-first b ys t in
      let d : m a ≢ m b = λ u. ne (sym p.0 ∙ u ∙ q.0) in
      d (
        char_difference-zero (m a) (m b) (omega (arith, p)) (omega (arith, q))
          (sym (strcmp-stop n m a b (inr d)) ∙ e))

  -- strcmp of two strings in memory returns 0 exactly when they are the same.
  pub strcmp_lem :
      (n a b : ℕ) (xs ys : List ℕ)
      → StringAt m a xs
      → StringAt m b ys
      → length xs < n
      → (strcmp n m a b ≡ pos 0) ↔ (xs ≡ ys)
  strcmp_lem zero a b xs ys s t l = absurd (omega (arith, l))
  strcmp_lem (suc n) a b [] [] s t l = (
    λ e. refl,
    λ e.
        strcmp-stop n m a b (inl s)
        ∙ ap (char_difference (m a)) (t ∙ sym s)
        ∙ char_difference_refl (m a),
  )
  strcmp_lem (suc n) a b [] (y ∷ ys) s t l = (
    λ e. absurd (strcmp-differs n a b [] (y ∷ ys) s t (λ q. absurd (omega (arith, q, t.1))) e),
    λ e. absurd (cc e),
  )
  strcmp_lem (suc n) a b (x ∷ xs) [] s t l = (
    λ e. absurd (strcmp-differs n a b (x ∷ xs) [] s t (λ q. absurd (omega (arith, q, s.1))) e),
    λ e. absurd (cc e),
  )
  strcmp_lem (suc n) a b (x ∷ xs) (y ∷ ys) s t l =
      let rest = strcmp_lem n (a + 1) (b + 1) xs ys s.3 t.3 (omega (arith, l)) in
      elim (Bool-cases (x == y)) [
        | inl h ↦
            let same : x ≡ y = ground arith in
            let next = strcmp-next n m a b (omega (arith, s.0, s.1)) (s.0 ∙ same ∙ sym t.0) in
            (
              λ e. ap (λ c. c ∷ xs) same ∙ ap (λ cs. y ∷ cs) (rest.0 (sym next ∙ e)),
              λ e. next ∙ rest.1 (cc e),
            )
        | inr h ↦
            let other : x ≢ y = ground arith in
            (
              λ e. absurd (strcmp-differs n a b (x ∷ xs) (y ∷ ys) s t other e),
              λ e. absurd (other (cc e)),
            )
      ]

-- The bytes of two ranges agree.
abbrev pub SameRange : Bytes → ℕ → ℕ → ℕ → Type 0
SameRange m p q num = (i : ℕ) → i < num → m (p + i) ≡ m (q + i)

memcmp-next :
    (m : Bytes) (p q num : ℕ) → m p ≡ m q → memcmp m p q (suc num) ≡ memcmp m (p + 1) (q + 1) num
unfolding memcmp
memcmp-next m p q num e = ground (arith, e)

memcmp-stop :
    (m : Bytes) (p q num : ℕ) → m p ≢ m q → memcmp m p q (suc num) ≡ difference (m p) (m q)
unfolding memcmp
memcmp-stop m p q num e = ground (arith, e)

SameRange-cons :
    (m : Bytes) (p q num : ℕ)
    → m p ≡ m q
    → SameRange m (p + 1) (q + 1) num
    → SameRange m p q (suc num)
SameRange-cons m p q num e r zero h =
    ap m {x = p + 0} {y = p} (omega arith) ∙ e ∙ ap m {x = q} {y = q + 0} (omega arith)
SameRange-cons m p q num e r (suc i) h =
    ap m {x = p + suc i} {y = p + 1 + i} (omega arith)
    ∙ r i (omega (arith, h))
    ∙ ap m {x = q + 1 + i} {y = q + suc i} (omega arith)

SameRange-tail :
    (m : Bytes) (p q num : ℕ) → SameRange m p q (suc num) → SameRange m (p + 1) (q + 1) num
SameRange-tail m p q num r i h =
    ap m {x = p + 1 + i} {y = p + suc i} (omega arith)
    ∙ r (suc i) (omega (arith, h))
    ∙ ap m {x = q + suc i} {y = q + 1 + i} (omega arith)

SameRange-head : (m : Bytes) (p q num : ℕ) → SameRange m p q (suc num) → m p ≡ m q
SameRange-head m p q num r =
    ap m {x = p} {y = p + 0} (omega arith)
    ∙ r 0 (omega arith)
    ∙ ap m {x = q + 0} {y = q} (omega arith)

memcmp-none : (m : Bytes) (p q : ℕ) → memcmp m p q 0 ≡ pos 0
unfolding memcmp
memcmp-none m p q = refl

-- memcmp returns 0 exactly when the two ranges hold the same bytes.
pub memcmp_lem : (m : Bytes) (p q num : ℕ) → (memcmp m p q num ≡ pos 0) ↔ SameRange m p q num
memcmp_lem m p q zero = (λ e i h. absurd (omega (arith, h)), λ r. memcmp-none m p q)
memcmp_lem m p q (suc num) =
    let rest = memcmp_lem m (p + 1) (q + 1) num in
    elim (Bool-cases (m p == m q)) [
      | inl h ↦
          let same : m p ≡ m q = ground arith in
          (
            λ e. SameRange-cons m p q num same (rest.0 (sym (memcmp-next m p q num same) ∙ e)),
            λ r. memcmp-next m p q num same ∙ rest.1 (SameRange-tail m p q num r),
          )
      | inr h ↦
          let other : m p ≢ m q = ground arith in
          (
            λ e.
                absurd
                  (other (difference-zero (m p) (m q) (sym (memcmp-stop m p q num other) ∙ e))),
            λ r. absurd (other (SameRange-head m p q num r)),
          )
    ]
