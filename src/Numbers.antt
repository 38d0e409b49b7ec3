-- ===== src/Numbers.antt =====
-- Numbers in src/kernel/lib/stdlib.c: the generator, and conversion to and from text in a memory of bytes.
pub mod Digits
mod Tests
use kil0y_os.Prelude.{
  ℕ, zero, suc, ◌+◌, ◌-◌, ◌*◌, ◌/◌, ◌%◌, ◌^◌, Bool, true, false, ◌&&◌, ltb, leb, ◌==◌,
  if◌then◌else◌, update,
}
use kil0y_os.Prelude.Int.{ℤ, pos, negsuc}
use kil0y_os.Strings.{Bytes}

-- rand: the new seed and the number.
pub rand : ℕ → ℕ × ℕ
rand seed = let next = (seed * 1103515245 + 12345) % 2 ^ 32 in (next, next / 2 ^ 16 % 2 ^ 15)

-- The value and the end pointer.
pub strtoul_from : ℕ → Bytes → ℕ → ℕ → ℕ → ℕ × ℕ
strtoul_from zero m str base result = (result, str)
strtoul_from (suc n) m str base result =
    let rest = strtoul_from n m (str + 1) base ((result * base + (m str - 48)) % 2 ^ 32) in
    if leb 48 (m str) && leb (m str) 57 then rest else (result, str)

pub strtoul : ℕ → Bytes → ℕ → ℕ → ℕ × ℕ
strtoul n m str base = strtoul_from n m str base 0

abbrev pub digit_char : ℕ → ℕ
digit_char remainder = if ltb remainder 10 then remainder + 48 else remainder + 55

-- The digit loop, least significant digit first, for at most `room` digits: the memory and the end.
unfoldable pub write_digits : Bytes → (ℕ → ℕ) → ℕ → ℕ → ℕ → ℕ → Bytes × ℕ
write_digits m char ptr base n zero = (m, ptr)
write_digits m char ptr base n (suc room) =
    let rest = write_digits (update m ptr (char (n % base))) char (ptr + 1) base (n / base) room in
    if n == 0 then (m, ptr) else rest

abbrev pub swap : Bytes → ℕ → ℕ → Bytes
swap m low high = update (update m low (m high)) high (m low)

-- `while (low < ptr)`; the fuel is the distance.
unfoldable pub reverse_range : ℕ → Bytes → ℕ → ℕ → Bytes
reverse_range zero m low high = m
reverse_range (suc n) m low high =
    let rest = reverse_range n (swap m low high) (low + 1) (high - 1) in
    if ltb low high then rest else m

-- The digits from `low` on, the terminator, and the reversal.
unfoldable pub print : Bytes → (ℕ → ℕ) → ℕ → ℕ → ℕ → ℕ → Bytes
print m char low base n room =
    let written = write_digits m char low base n room in
    reverse_range (written.1 - low) (update written.0 written.1 0) low (written.1 - 1)

abbrev pub print_zero : Bytes → ℕ → Bytes
print_zero m str = update (update m str 48) (str + 1) 0

pub utoa : Bytes → ℕ → ℕ → ℕ → ℕ → Bytes
utoa m num str base max_size =
    if ltb max_size 2
    then update m str 0
    else (if num == 0 then print_zero m str else print m digit_char str base num (max_size - 1))

-- The remainder of a negative number is negative.
abbrev pub negative_char : ℕ → ℕ
negative_char remainder = (48 + 256 - remainder) % 256

-- itoa, of an int above -2^31.
pub itoa : Bytes → ℤ → ℕ → ℕ → ℕ → Bytes
itoa m (pos n) str base max_size = utoa m n str base max_size
itoa m (negsuc k) str base max_size =
    if ltb max_size 2
    then update m str 0
    else (if base == 10
        then print (update m str 45) digit_char (str + 1) base (k + 1) (max_size - 2)
        else print m negative_char str base (k + 1) (max_size - 1))
