-- ===== src/Memory/Heap/Tests.antt =====
-- A heap of 256 bytes at 2 MiB, at boot and after one allocation.
use kil0y_os.Prelude.{ℕ, ◌+◌, ◌≡◌, refl, true, false, List, [], ◌∷◌, arith, inl, ◌⊎◌}
use kil0y_os.Memory.Heap.{
  Header, Heap, header_size, heap_init, kmalloc, kfree, round_size, find_fit, take_block,
  merge_pass, is_corrupt, heap_verify, heap_free_bytes, free_bytes_from,
}
use kil0y_os.Memory.Heap.Boot.{MapEntry, choose_arena, largest_region}
use kil0y_os.Memory.Heap.Layout.{Block, IsSound}
use kil0y_os.Memory.Heap.Alloc.{Allocated, kmalloc_lem}
use kil0y_os.Memory.Heap.Place.{NoFit}
use kil0y_os.Memory.Heap.Release.{Freed, kfree_lem}
use kil0y_os.Memory.Heap.Report.{
  boot_blocks, heap_init-IsSound, free_bytes, heap_free_bytes_lem, heap_verify_lem,
}

abbrev blank : ℕ → Header
blank _ = record { size = 0; next = 0; free = false; magic = 0 }

abbrev arena : Heap
arena = heap_init 0x200000 0x200100 blank

arena-IsSound : IsSound arena (boot_blocks 0x200000 0x200100)
arena-IsSound = heap_init-IsSound 0x200000 0x200100 blank (omega arith) (omega arith) (omega arith)

kmalloc_example :
    Allocated arena (boot_blocks 0x200000 0x200100) 20 (kmalloc arena 20)
    ⊎ ((kmalloc arena 20 ≡ (arena, 0)) × NoFit (round_size 20) (boot_blocks 0x200000 0x200100))
kmalloc_example = kmalloc_lem arena (boot_blocks 0x200000 0x200100) 20 arena-IsSound (omega arith)

abbrev one_taken : List Block
one_taken = record { size = 24; free = false } ∷ record { size = 184; free = true } ∷ []

-- The heap after kmalloc(20).
abbrev taken : Heap
taken = (kmalloc arena 20).0

taken-IsSound : IsSound taken one_taken
unfolding kmalloc heap_init round_size find_fit take_block
taken-IsSound = record {
  positive = omega arith;
  small = omega arith;
  some_block = λ e. cc;
  head = refl;
  linked = (refl, (refl, refl));
}

kfree_example : Freed taken one_taken 0x200000 (kfree taken (0x200000 + header_size))
unfolding kmalloc heap_init round_size find_fit take_block
kfree_example =
    kfree_lem taken one_taken 0x200000 24 taken-IsSound (inl (refl, refl, refl)) (omega arith)

heap_free_bytes_example : heap_free_bytes taken ≡ free_bytes one_taken
heap_free_bytes_example = heap_free_bytes_lem taken one_taken taken-IsSound

heap_verify_example : heap_verify taken ≡ true
heap_verify_example = heap_verify_lem taken one_taken taken-IsSound

-- kfree of what kmalloc returned gives the boot heap's free block back.
freed_again : heap_free_bytes (kfree taken (0x200000 + header_size)) ≡ 232
unfolding kmalloc heap_init round_size find_fit take_block kfree merge_pass is_corrupt
    heap_free_bytes free_bytes_from
freed_again = refl

-- 640 KiB below the kernel, a hole, and 64 MiB from 16 MiB on.
abbrev entry : ℕ → ℕ → ℕ → MapEntry
entry base size kind = record {
  base_addr_low = base;
  base_addr_high = 0;
  length_low = size;
  length_high = 0;
  kind = kind;
}

abbrev memory_map : List MapEntry
memory_map = entry 0 0xA0000 1 ∷ entry 0xA0000 0x60000 2 ∷ entry 0x1000000 0x4000000 1 ∷ []

chosen_arena : choose_arena 0x480123 memory_map ≡ (0x1000000, 0x3000000)
unfolding largest_region
chosen_arena = refl

-- Without a map the arena follows the kernel.
default_arena : choose_arena 0x480123 [] ≡ (0x481000, 0x2481000)
unfolding largest_region
default_arena = refl
