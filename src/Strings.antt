-- ===== src/Strings.antt =====
-- src/kernel/lib/string.c over a memory of bytes by address. Pointers do not wrap. A loop that runs to a
-- terminating zero has fuel; one that counts recurses on the count. `char` is signed.
pub mod Moves
pub mod Compare
mod Tests
use kil0y_os.Prelude.{
  ℕ, zero, suc, ◌+◌, ◌-◌, ◌%◌, Bool, true, false, not, ◌&&◌, Option, none, some, ltb, leb, ◌==◌,
  if◌then◌else◌, update,
}
use kil0y_os.Prelude.Int.{ℤ, pos, negsuc}

-- The bytes of the memory.
abbrev pub Bytes : Type 0
Bytes = ℕ → ℕ

abbrev pub difference : ℕ → ℕ → ℤ
difference a b = if leb b a then pos (a - b) else negsuc (b - a - 1)

-- The difference of two bytes as signed chars.
abbrev pub char_difference : ℕ → ℕ → ℤ
char_difference a b = difference ((a + 128) % 256) ((b + 128) % 256)

unfoldable pub strlen_from : ℕ → Bytes → ℕ → ℕ → ℕ
strlen_from zero m str len = len
strlen_from (suc n) m str len =
    let rest = strlen_from n m str (len + 1) in if m (str + len) == 0 then len else rest

abbrev pub strlen : ℕ → Bytes → ℕ → ℕ
strlen n m str = strlen_from n m str 0

-- `while ((*d++ = *src++));`
unfoldable pub copy_string : ℕ → Bytes → ℕ → ℕ → Bytes
copy_string zero m d src = m
copy_string (suc n) m d src =
    let rest = copy_string n (update m d (m src)) (d + 1) (src + 1) in
    if m src == 0 then update m d 0 else rest

pub strcpy : ℕ → Bytes → ℕ → ℕ → Bytes
strcpy n m dest src = copy_string n m dest src

pub strcat : ℕ → Bytes → ℕ → ℕ → Bytes
strcat n m dest src = copy_string n m (dest + strlen n m dest) src

unfoldable pub strcmp : ℕ → Bytes → ℕ → ℕ → ℤ
strcmp zero m a b = pos 0
strcmp (suc n) m a b =
    let rest = strcmp n m (a + 1) (b + 1) in
    if not (m a == 0) && not (m b == 0) && m a == m b then rest else char_difference (m a) (m b)

-- `c` is the byte that is looked for.
pub strchr : ℕ → Bytes → ℕ → ℕ → Option ℕ
strchr zero m str c = none
strchr (suc n) m str c =
    let rest = strchr n m (str + 1) c in
    if not (m str == 0) && not (m str == c) then rest else (if m str == c then some str else none)

pub strrchr_from : ℕ → Bytes → ℕ → ℕ → Option ℕ → Option ℕ
strrchr_from zero m str c last = last
strrchr_from (suc n) m str c last =
    let rest = strrchr_from n m (str + 1) c (if m str == c then some str else last) in
    if m str == 0 then last else rest

pub strrchr : ℕ → Bytes → ℕ → ℕ → Option ℕ
strrchr n m str c = strrchr_from n m str c none

unfoldable pub memset : Bytes → ℕ → ℕ → ℕ → Bytes
memset m ptr value zero = m
memset m ptr value (suc num) = memset (update m ptr (value % 256)) (ptr + 1) value num

unfoldable pub memcpy : Bytes → ℕ → ℕ → ℕ → Bytes
memcpy m d s zero = m
memcpy m d s (suc num) = memcpy (update m d (m s)) (d + 1) (s + 1) num

unfoldable pub strncmp : Bytes → ℕ → ℕ → ℕ → ℤ
strncmp m a b zero = pos 0
strncmp m a b (suc num) =
    let rest = strncmp m (a + 1) (b + 1) num in
    if not (m a == 0) && not (m b == 0) && m a == m b then rest else char_difference (m a) (m b)

-- The two loops of strncpy: `ended` once the source's zero is reached.
pub strncpy_from : Bytes → ℕ → ℕ → Bool → ℕ → Bytes
strncpy_from m d src ended zero = m
strncpy_from m d src ended (suc num) =
    let pad = strncpy_from (update m d 0) (d + 1) src true num in
    let copy = strncpy_from (update m d (m src)) (d + 1) (src + 1) false num in
    if ended then pad else (if m src == 0 then pad else copy)

pub strncpy : Bytes → ℕ → ℕ → ℕ → Bytes
strncpy m dest src num = strncpy_from m dest src false num

-- Whether the needle is a prefix of the haystack.
pub starts_with : ℕ → Bytes → ℕ → ℕ → Bool
starts_with zero m h n = false
starts_with (suc fuel) m h n =
    let rest = starts_with fuel m (h + 1) (n + 1) in
    if not (m h == 0) && not (m n == 0) && m h == m n then rest else m n == 0

pub find_needle : ℕ → ℕ → Bytes → ℕ → ℕ → Option ℕ
find_needle zero fuel m haystack needle = none
find_needle (suc n) fuel m haystack needle =
    let rest = find_needle n fuel m (haystack + 1) needle in
    if m haystack == 0
    then none
    else (if starts_with fuel m haystack needle then some haystack else rest)

pub strstr : ℕ → Bytes → ℕ → ℕ → Option ℕ
strstr n m haystack needle =
    if m needle == 0 then some haystack else find_needle n n m haystack needle

-- The backward loop of memmove: `*--d = *--s`, from the ends.
unfoldable pub copy_backward : Bytes → ℕ → ℕ → ℕ → Bytes
copy_backward m d s zero = m
copy_backward m d s (suc num) = copy_backward (update m (d + num) (m (s + num))) d s num

unfoldable pub memmove : Bytes → ℕ → ℕ → ℕ → Bytes
memmove m dest src num =
    if ltb dest src then memcpy m dest src num else copy_backward m dest src num

unfoldable pub memcmp : Bytes → ℕ → ℕ → ℕ → ℤ
memcmp m p1 p2 zero = pos 0
memcmp m p1 p2 (suc num) =
    let rest = memcmp m (p1 + 1) (p2 + 1) num in
    if m p1 == m p2 then rest else difference (m p1) (m p2)
