-- ===== src/Numbers/Digits.antt =====
-- The digits that utoa and itoa of src/kernel/lib/stdlib.c leave in memory.
use kil0y_os.Prelude.{
  subst, ℕ, zero, suc, ◌+◌, ◌-◌, ◌/◌, ◌%◌, ◌≤◌, ◌<◌, ◌≡◌, refl, ap, sym, ◌∙◌, ◌&&◌, ltb, leb, ◌==◌,
  if◌then◌else◌, update, arith, Bool-cases, inl, inr,
}
use kil0y_os.Strings.{Bytes}
use kil0y_os.Numbers.{write_digits, swap, reverse_range, print}

-- The memory at `q` after the bytes from `low` to `high` are reversed.
abbrev pub mirrored : Bytes → ℕ → ℕ → ℕ → ℕ
mirrored m low high q = if leb low q && leb q high then m (low + high - q) else m q

mirrored-swap :
    (m : Bytes) (low high q : ℕ)
    → low < high
    → mirrored (swap m low high) (low + 1) (high - 1) q ≡ mirrored m low high q
mirrored-swap m low high q h = elim (Bool-cases (low == q)) [
  | inl b ↦ let e : low + high - q ≡ high = ground arith in ground (arith, h, ap m e)
  | inr b ↦ elim (Bool-cases (high == q)) [
    | inl c ↦ let e : low + high - q ≡ low = ground arith in ground (arith, h, ap m e)
    | inr c ↦
        let e : low + 1 + (high - 1) - q ≡ low + high - q = omega (arith, h) in
        ground (arith, h, ap (swap m low high) e)
  ]
]

mirrored-same : (m : Bytes) (low high q : ℕ) → high ≤ low → m q ≡ mirrored m low high q
mirrored-same m low high q h = elim (Bool-cases (low == q && high == q)) [
  | inl b ↦ let e : low + high - q ≡ q = ground arith in ground (arith, h, ap m e)
  | inr b ↦ ground (arith, h)
]

-- The swapping loop of itoa and utoa reverses the bytes from `low` to `high` and changes no other byte,
-- where it has a turn for each byte between.
pub reverse_range_lem :
    (n : ℕ) (m : Bytes) (low high q : ℕ)
    → high - low ≤ n
    → reverse_range n m low high q ≡ mirrored m low high q
unfolding reverse_range
reverse_range_lem zero m low high q h = mirrored-same m low high q (omega (arith, h))
reverse_range_lem (suc n) m low high q h =
    let rest = reverse_range_lem n (swap m low high) (low + 1) (high - 1) q (omega (arith, h)) in
    elim (Bool-cases (ltb low high)) [
      | inl b ↦
          let lt : low < high = ground arith in
          ground (arith, b, rest ∙ mirrored-swap m low high q lt)
      | inr b ↦
          let le : high ≤ low = ground arith in ground (arith, b, mirrored-same m low high q le)
    ]

-- The number of digits, 0 for 0.
abbrev pub digits : ℕ → ℕ → ℕ → ℕ
digits base n zero = 0
digits base n (suc room) = if n == 0 then 0 else digits base (n / base) room + 1

-- The `i`-th digit from the right.
abbrev pub digit : ℕ → ℕ → ℕ → ℕ
digit base n zero = n % base
digit base n (suc i) = digit base (n / base) i

-- The digits in the order in which the loop writes them.
abbrev pub Written : Bytes → (ℕ → ℕ) → ℕ → ℕ → ℕ → ℕ → Bytes × ℕ → Type 0
Written m char ptr base n count (m', end) =
    (end ≡ ptr + count)
    × ((i : ℕ) → i < count → m' (ptr + i) ≡ char (digit base n i))
    × ((q : ℕ) → q < ptr → m' q ≡ m q)

write_digits-zero :
    (m : Bytes) (char : ℕ → ℕ) (ptr base room : ℕ) → write_digits m char ptr base 0 room ≡ (m, ptr)
unfolding write_digits
write_digits-zero m char ptr base zero = refl
write_digits-zero m char ptr base (suc room) = refl

write_digits-more :
    (m : Bytes) (char : ℕ → ℕ) (ptr base n room : ℕ)
    → 0 < n
    → write_digits m char ptr base n (suc room)
      ≡ write_digits (update m ptr (char (n % base))) char (ptr + 1) base (n / base) room
unfolding write_digits
write_digits-more m char ptr base n room h = ground (arith, h)

Written-cons :
    (m : Bytes) (char : ℕ → ℕ) (ptr base n count : ℕ) (out : Bytes × ℕ)
    → Written (update m ptr (char (n % base))) char (ptr + 1) base (n / base) count out
    → Written m char ptr base n (count + 1) out
Written-cons m char ptr base n count out (e, f, g) =
    (omega (arith, e), at_digit, λ q h. g q (omega (arith, h)) ∙ ground (arith, h))
  where
    at_digit : (i : ℕ) → i < count + 1 → out.0 (ptr + i) ≡ char (digit base n i)
    at_digit zero h =
        ap out.0 {x = ptr + 0} {y = ptr} (omega arith) ∙ g ptr (omega arith) ∙ ground arith
    at_digit (suc i) h =
        ap out.0 {x = ptr + suc i} {y = ptr + 1 + i} (omega arith) ∙ f i (omega (arith, h))

digits_more : (base n room : ℕ) → 0 < n → digits base n (suc room) ≡ digits base (n / base) room + 1
digits_more base n room h = ground (arith, h)

write_digits-none :
    (m : Bytes) (char : ℕ → ℕ) (ptr base n : ℕ) → write_digits m char ptr base n 0 ≡ (m, ptr)
unfolding write_digits
write_digits-none m char ptr base n = refl

Written-none : (m : Bytes) (char : ℕ → ℕ) (ptr base n : ℕ) → Written m char ptr base n 0 (m, ptr)
Written-none m char ptr base n = (omega arith, λ i h. absurd (omega (arith, h)), λ q h. refl)

write_digits-Written :
    (m : Bytes) (char : ℕ → ℕ) (ptr base n room : ℕ)
    → Written m char ptr base n (digits base n room) (write_digits m char ptr base n room)
write_digits-Written m char ptr base n zero =
    subst (Written m char ptr base n 0) (sym (write_digits-none m char ptr base n))
      (Written-none m char ptr base n)
write_digits-Written m char ptr base zero (suc room) =
    subst (Written m char ptr base 0 0) (sym (write_digits-zero m char ptr base (suc room)))
      (Written-none m char ptr base 0)
write_digits-Written m char ptr base (suc k) (suc room) =
    let n : ℕ = suc k in
    let rest =
      write_digits-Written (update m ptr (char (n % base))) char (ptr + 1) base (n / base) room in
    subst (Written m char ptr base n (digits base n (suc room)))
      (sym (write_digits-more m char ptr base n room (omega arith)))
      (subst
        (λ count.
          Written m char ptr base n count
            (write_digits (update m ptr (char (n % base))) char (ptr + 1) base (n / base) room))
        (sym (digits_more base n room (omega arith)))
        (Written-cons m char ptr base n (digits base (n / base) room)
          (write_digits (update m ptr (char (n % base))) char (ptr + 1) base (n / base) room) rest))

digits_positive : (base n room : ℕ) → 0 < n → 0 < room → 0 < digits base n room
digits_positive base n zero h r = absurd (omega (arith, r))
digits_positive base n (suc room) h r = ground (arith, h)

-- The text of a number: its digits, most significant first, and a zero behind them.
abbrev pub Printed : (ℕ → ℕ) → ℕ → ℕ → ℕ → ℕ → Bytes → Type 0
Printed char low base n count m' =
    ((i : ℕ) → i < count → m' (low + i) ≡ char (digit base n (count - 1 - i)))
    × (m' (low + count) ≡ 0)

-- After the digits are written, print ends them with a zero and turns them round.
Printed-reverse :
    (m : Bytes) (char : ℕ → ℕ) (low base n count : ℕ) (out : Bytes × ℕ)
    → 0 < count
    → Written m char low base n count out
    → Printed char low base n count
        (reverse_range (out.1 - low) (update out.0 out.1 0) low (out.1 - 1))
Printed-reverse m char low base n count out some (e, f, g) = (
  λ i h.
      reverse_range_lem (out.1 - low) (update out.0 out.1 0) low (out.1 - 1) (low + i) (omega arith)
      ∙ at_digit i h,
  reverse_range_lem (out.1 - low) (update out.0 out.1 0) low (out.1 - 1) (low + count) (omega arith)
      ∙ ground (arith, e, some),
)
  where
    at_digit :
        (i : ℕ)
        → i < count
        → mirrored (update out.0 out.1 0) low (out.1 - 1) (low + i)
          ≡ char (digit base n (count - 1 - i))
    at_digit i h =
        let back : low + (out.1 - 1) - (low + i) ≡ low + (count - 1 - i) =
          omega (arith, e, some, h) in
        ground
          (arith, e, some, h, ap (update out.0 out.1 0) back, f (count - 1 - i) (omega (arith, h)))

-- The digit loop, the terminator and the reversal of itoa and utoa leave the digits of a positive
-- number in the base, most significant first and at most `room` of them (the lowest ones), with a zero behind.
pub print_lem :
    (m : Bytes) (char : ℕ → ℕ) (low base n room : ℕ)
    → 0 < n
    → 0 < room
    → Printed char low base n (digits base n room) (print m char low base n room)
unfolding print
print_lem m char low base n room h r =
    Printed-reverse m char low base n (digits base n room) (write_digits m char low base n room)
      (digits_positive base n room h r) (write_digits-Written m char low base n room)
