-- ===== src/Strings/Tests.antt =====
-- The claims about src/kernel/lib/string.c on a memory with the strings "abc" at 10 and "abd" at 20.
use kil0y_os.Prelude.{ℕ, ◌≡◌, ◌↔◌, refl, List, [], ◌∷◌, arith, update}
use kil0y_os.Prelude.Int.{pos}
use kil0y_os.Strings.{Bytes, strlen, strcmp, memmove, memset, memcmp}
use kil0y_os.Strings.Moves.{memmove_lem, memset_lem}
use kil0y_os.Strings.Compare.{SameRange, strlen_lem, strcmp_lem, memcmp_lem}

abbrev memory : Bytes
memory =
    update (update (update (update (update (update (λ q. 0) 10 97) 11 98) 12 99) 20 97) 21 98) 22
      100

abbrev abc : List ℕ
abc = 97 ∷ 98 ∷ 99 ∷ []

abbrev abd : List ℕ
abd = 97 ∷ 98 ∷ 100 ∷ []

strlen_example : strlen 9 memory 10 ≡ 3
strlen_example =
    strlen_lem 9 memory 10 abc
      (
        refl,
        omega arith,
        omega arith,
        (refl, omega arith, omega arith, (refl, omega arith, omega arith, refl)),
      )
      (omega arith)

strcmp_example : (strcmp 9 memory 10 20 ≡ pos 0) ↔ (abc ≡ abd)
strcmp_example =
    strcmp_lem memory 9 10 20 abc abd
      (
        refl,
        omega arith,
        omega arith,
        (refl, omega arith, omega arith, (refl, omega arith, omega arith, refl)),
      )
      (
        refl,
        omega arith,
        omega arith,
        (refl, omega arith, omega arith, (refl, omega arith, omega arith, refl)),
      )
      (omega arith)

-- The ranges overlap: "abc" moves up by one.
memmove_example : memmove memory 11 10 3 13 ≡ 99
memmove_example = memmove_lem memory 11 10 3 13

memset_example : memset memory 10 0x141 4 12 ≡ 65
memset_example = memset_lem memory 10 0x141 4 12

memcmp_example : (memcmp memory 10 20 2 ≡ pos 0) ↔ SameRange memory 10 20 2
memcmp_example = memcmp_lem memory 10 20 2
