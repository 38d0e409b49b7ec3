-- ===== src/Prelude/Bits.antt =====
-- The bits of a byte: what `b |= 1 << k` and `b &= ~(1 << k)` do to `(b >> j) & 1`.
use Prim.Native.Nat.{bit_and, bit_or}
use mathlib.Core.Path.{◌≡◌, refl}
use mathlib.Core.Bool.{Bool, true, ◌&&◌}
use Prim.Native.Nat.{ℕ, zero, suc, ◌/◌, ◌%◌, ◌^◌, ◌-◌, ◌<◌}
use native.Mathlib.Omega.{arith}
use kil0y_os.Prelude.Tests.{◌==◌, if◌then◌else◌, ltb}

-- (b >> k) & 1
unfoldable pub bit : ℕ → ℕ → ℕ
bit b k = b / 2 ^ k % 2

-- b | (1 << k), in eight bits
unfoldable pub set_bit : ℕ → ℕ → ℕ
set_bit b k = bit_or b (2 ^ k) % 256

-- b & ~(1 << k), in eight bits
unfoldable pub clear_bit : ℕ → ℕ → ℕ
clear_bit b k = bit_and b (255 - 2 ^ k)

-- A test that holds of each number below a bound, decided by evaluation.
holds_below : (ℕ → Bool) → ℕ → Bool
holds_below test zero = true
holds_below test (suc bound) = holds_below test bound && test bound

holds : (test : ℕ → Bool) (bound k : ℕ) → k < bound → holds_below test bound ≡ true → test k ≡ true
unfolding holds_below
holds test zero k small all = absurd (omega arith)
holds test (suc bound) k small all = ground (arith, holds test bound k)

set_test : ℕ → ℕ → ℕ → Bool
set_test b k j = ltb (set_bit b k) 256 && (bit (set_bit b k) j == (if k == j then 1 else bit b j))

clear_test : ℕ → ℕ → ℕ → Bool
clear_test b k j =
    ltb (clear_bit b k) 256 && (bit (clear_bit b k) j == (if k == j then 0 else bit b j))

set_table : holds_below (λ b. holds_below (λ k. holds_below (λ j. set_test b k j) 8) 8) 256 ≡ true
unfolding holds_below set_test set_bit bit
set_table = refl

clear_table :
    holds_below (λ b. holds_below (λ k. holds_below (λ j. clear_test b k j) 8) 8) 256 ≡ true
unfolding holds_below clear_test clear_bit bit
clear_table = refl

module _ (b k j : ℕ) (hb : b < 256) (hk : k < 8) (hj : j < 8) where
  set_row : set_test b k j ≡ true
  set_row = holds _ 8 j hj (holds _ 8 k hk (holds _ 256 b hb set_table))

  clear_row : clear_test b k j ≡ true
  clear_row = holds _ 8 j hj (holds _ 8 k hk (holds _ 256 b hb clear_table))

  pub bit-set_bit : (set_bit b k < 256) × (bit (set_bit b k) j ≡ (if k == j then 1 else bit b j))
  unfolding set_test
  bit-set_bit = ground (arith, set_row)

  pub bit-clear_bit :
      (clear_bit b k < 256) × (bit (clear_bit b k) j ≡ (if k == j then 0 else bit b j))
  unfolding clear_test
  bit-clear_bit = ground (arith, clear_row)

pub bit-lt : (b k : ℕ) → bit b k < 2
unfolding bit
bit-lt b k = omega arith

pub set_bit-lt : (b k : ℕ) → set_bit b k < 256
unfolding set_bit
set_bit-lt b k = omega arith

pub clear_bit-lt : (b k : ℕ) → b < 256 → k < 8 → clear_bit b k < 256
clear_bit-lt b k hb hk = (bit-clear_bit b k k hb hk hk).0

full_table : holds_below (λ k. bit 255 k == 1) 8 ≡ true
unfolding holds_below bit
full_table = refl

pub bit_full : (k : ℕ) → k < 8 → bit 255 k ≡ 1
bit_full k h = ground (arith, holds _ 8 k h full_table)
