-- ===== src/Numbers/Tests.antt =====
-- The claims about src/kernel/lib/stdlib.c on the number 305, and a reversal of three bytes.
use kil0y_os.Prelude.{◌≡◌, arith}
use kil0y_os.Strings.{Bytes}
use kil0y_os.Numbers.{digit_char, reverse_range, print}
use kil0y_os.Numbers.Digits.{Printed, reverse_range_lem, print_lem}

abbrev memory : Bytes
memory q = q

reverse_range_example : reverse_range 2 memory 10 12 11 ≡ 11
reverse_range_example = reverse_range_lem 2 memory 10 12 11 (omega arith)

print_example : Printed digit_char 50 10 305 3 (print memory digit_char 50 10 305 8)
print_example = print_lem memory digit_char 50 10 305 8 (omega arith) (omega arith)
