-- ===== src/Memory/Pages/View.antt =====
-- What a page's bit is after a write to another, and the count of set bits.
use kil0y_os.Prelude.{
  ℕ, zero, suc, ◌+◌, ◌/◌, ◌%◌, ◌≤◌, ◌<◌, ◌≡◌, ap, arith, ◌==◌, if◌then◌else◌, update, Bool-cases,
  inl, inr,
}
unfoldable pub use kil0y_os.Prelude.Sums.{sum_below}
pub use kil0y_os.Prelude.Sums.{sum_below-same, sum_below-change}
use kil0y_os.Prelude.Bits.{bit, set_bit, clear_bit, bit-lt, bit-set_bit, bit-clear_bit}

-- The bit of a page in the bitmap.
abbrev pub page_bit : (ℕ → ℕ) → ℕ → ℕ
page_bit bm p = bit (bm (p / 8)) (p % 8)

abbrev pub IsBytes : (ℕ → ℕ) → Type 0
IsBytes bm = (i : ℕ) → bm i < 256

-- How many pages below `n` are marked used.
abbrev pub count_used : (ℕ → ℕ) → ℕ → ℕ
count_used bm n = sum_below n (page_bit bm)

module _ (bm : ℕ → ℕ) (b : IsBytes bm) (p q : ℕ) where
  pub page_bit-set :
      page_bit (update bm (p / 8) (set_bit (bm (p / 8)) (p % 8))) q
      ≡ (if p == q then 1 else page_bit bm q)
  page_bit-set = elim (Bool-cases (p / 8 == q / 8)) [
    | inl e ↦
        let e' : p / 8 ≡ q / 8 = ground arith in
        ground (
          arith,
          ap bm e',
          bit-set_bit (bm (p / 8)) (p % 8) (q % 8) (b (p / 8)) (omega arith) (omega arith),
        )
    | inr ne ↦ ground arith
  ]

  pub page_bit-clear :
      page_bit (update bm (p / 8) (clear_bit (bm (p / 8)) (p % 8))) q
      ≡ (if p == q then 0 else page_bit bm q)
  page_bit-clear = elim (Bool-cases (p / 8 == q / 8)) [
    | inl e ↦
        let e' : p / 8 ≡ q / 8 = ground arith in
        ground (
          arith,
          ap bm e',
          bit-clear_bit (bm (p / 8)) (p % 8) (q % 8) (b (p / 8)) (omega arith) (omega arith),
        )
    | inr ne ↦ ground arith
  ]

pub count_used-le : (n : ℕ) (bm : ℕ → ℕ) → count_used bm n ≤ n
unfolding sum_below
count_used-le zero bm = omega arith
count_used-le (suc n) bm = omega (arith, count_used-le n bm, bit-lt (bm (n / 8)) (n % 8))

-- A stretch of used pages adds its length to the count.
pub count_used-add :
    (n k m : ℕ) (bm : ℕ → ℕ)
    → ((q : ℕ) → n ≤ q → q < m → page_bit bm q ≡ 1)
    → n + k ≡ m
    → count_used bm m ≡ count_used bm n + k
unfolding sum_below
count_used-add n zero m bm h e = let e' : m ≡ n = omega arith in rw e' (omega arith)
count_used-add n (suc k) zero bm h e = absurd (omega arith)
count_used-add n (suc k) (suc m) bm h e = omega (
  arith,
  h m (omega arith) (omega arith),
  count_used-add n k m bm (λ q a b. h q a (omega arith)) (omega arith),
)
