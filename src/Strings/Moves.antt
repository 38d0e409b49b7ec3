-- ===== src/Strings/Moves.antt =====
-- What the copying functions of src/kernel/lib/string.c leave in memory.
use kil0y_os.Prelude.{
  ℕ, zero, suc, ◌+◌, ◌-◌, ◌%◌, ◌≤◌, ◌≡◌, ap, ◌∙◌, ◌&&◌, ltb, leb, ◌==◌, if◌then◌else◌, update,
  arith, Bool-cases, inl, inr,
}
use kil0y_os.Strings.{Bytes, memcpy, copy_backward, memmove, memset}

-- The memory at `q` after `num` bytes at `d` are made those at `s`.
abbrev pub moved_byte : Bytes → ℕ → ℕ → ℕ → ℕ → ℕ
moved_byte m d s num q = if leb d q && ltb q (d + num) then m (s + (q - d)) else m q

down_step :
    (m : Bytes) (d s num q : ℕ)
    → d ≤ s
    → moved_byte (update m d (m s)) (d + 1) (s + 1) num q ≡ moved_byte m d s (suc num) q
down_step m d s num q h = elim (Bool-cases (ltb d q)) [
  | inl e ↦
      let same : s + 1 + (q - (d + 1)) ≡ s + (q - d) = ground arith in ground (arith, ap m same)
  | inr e ↦ elim (Bool-cases (d == q)) [
    | inl b ↦ let same : s + (q - d) ≡ s = ground arith in ground (arith, ap m same)
    | inr b ↦ ground arith
  ]
]

up_step :
    (m : Bytes) (d s num q : ℕ)
    → s ≤ d
    → moved_byte (update m (d + num) (m (s + num))) d s num q ≡ moved_byte m d s (suc num) q
up_step m d s num q h = elim (Bool-cases (d + num == q)) [
  | inl b ↦ let same : s + (q - d) ≡ s + num = ground arith in ground (arith, ap m same)
  | inr b ↦ ground arith
]

memcpy-down : (m : Bytes) (d s num q : ℕ) → d ≤ s → memcpy m d s num q ≡ moved_byte m d s num q
unfolding memcpy
memcpy-down m d s zero q h = ground arith
memcpy-down m d s (suc num) q h =
    memcpy-down (update m d (m s)) (d + 1) (s + 1) num q (omega (arith, h))
    ∙ down_step m d s num q h

copy_backward-up :
    (m : Bytes) (d s num q : ℕ) → s ≤ d → copy_backward m d s num q ≡ moved_byte m d s num q
unfolding copy_backward
copy_backward-up m d s zero q h = ground arith
copy_backward-up m d s (suc num) q h =
    copy_backward-up (update m (d + num) (m (s + num))) d s num q h ∙ up_step m d s num q h

-- memmove, whether or not the ranges overlap: the destination holds what the source held before, and
-- every other byte is as it was.
pub memmove_lem :
    (m : Bytes) (dest src num q : ℕ)
    → memmove m dest src num q
      ≡ (if leb dest q && ltb q (dest + num) then m (src + (q - dest)) else m q)
unfolding memmove
memmove_lem m dest src num q = elim (Bool-cases (ltb dest src)) [
  | inl e ↦ rw e (memcpy-down m dest src num q (ground arith))
  | inr e ↦ rw e (copy_backward-up m dest src num q (ground arith))
]

-- memset fills the range with the low byte of the value and changes no other byte.
pub memset_lem :
    (m : Bytes) (ptr value num q : ℕ)
    → memset m ptr value num q ≡ (if leb ptr q && ltb q (ptr + num) then value % 256 else m q)
unfolding memset
memset_lem m ptr value zero q = ground arith
memset_lem m ptr value (suc num) q =
    memset_lem (update m ptr (value % 256)) (ptr + 1) value num q ∙ ground arith
