-- ===== src/Memory/Pages/Reserved.antt =====
-- The bitmap that pmm_init of src/kernel/mm/memory.c starts from: every page is reserved.
use kil0y_os.Prelude.{ℕ, ◌*◌, ◌%◌, ◌≡◌, refl, arith}
use kil0y_os.Prelude.Bits.{bit_full}
use kil0y_os.Memory.Pages.{Pmm, max_pages}
use kil0y_os.Memory.Pages.View.{count_used, count_used-add, sum_below}
use kil0y_os.Memory.Pages.Invariant.{IsValid, used_bit}

-- With pmm_ram_top as it is found.
abbrev pub all_reserved : ℕ → Pmm
all_reserved ram_top = record {
  bitmap = λ _. 255;
  last_page = 0;
  used_pages = 1024 * 1024;
  ram_top = ram_top;
}

pub used-all_reserved : (ram_top q : ℕ) → used_bit (all_reserved ram_top) q ≡ 1
used-all_reserved ram_top q = bit_full (q % 8) (omega arith)

count_none : count_used (λ _. 255) 0 ≡ 0
unfolding sum_below
count_none = refl

pub all_reserved-IsValid : (ram_top : ℕ) → IsValid (all_reserved ram_top)
all_reserved-IsValid ram_top = record {
  bytes = λ i. omega arith;
  counted = omega (
    arith,
    count_none,
    count_used-add 0 max_pages max_pages (λ _. 255) (λ q _ _. used-all_reserved ram_top q)
        (omega arith),
  );
  hint = omega arith;
}
