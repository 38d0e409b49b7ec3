-- ===== src/Memory/Heap/Arena.antt =====
-- What memory_init of src/kernel/mm/memory.c leaves: the arena, the heap in it, and its pages.
use kil0y_os.Prelude.{ℕ, ◌+◌, ◌^◌, ◌≤◌, ◌<◌, ◌≡◌, List, ltb, if◌then◌else◌, ◌⊎◌}
use kil0y_os.Memory.Heap.{ptr_add}
use kil0y_os.Memory.Heap.Boot.{MapEntry, heap_base, HasRegion, AtMost}

-- The arena that memory_init chooses: the first 32 MiB of the largest usable region above the kernel and 2 MiB, or all
-- of it, if there is one of more than 1 MiB; else the 32 MiB above the kernel and 2 MiB.
abbrev pub Chosen : ℕ → List MapEntry → ℕ × ℕ → Type 0
Chosen kernel_end map (start, stop) =
    (kernel_end ≤ start)
    × (0x200000 ≤ start)
    × (start + 0x100000 < stop)
    × (stop < 2 ^ 63)
    × (((size : ℕ) × HasRegion map start size
          × AtMost map (heap_base kernel_end) size
          × (0x100000 < size)
          × (((size ≤ 0x2000000) × (stop ≡ start + size))
              ⊎ ((0x2000000 < size) × (stop ≡ start + 0x2000000))))
        ⊎ (AtMost map (heap_base kernel_end) 0x100000
            × (start ≡ heap_base kernel_end)
            × (stop ≡ start + 0x2000000)))

-- The arena for what the loop found.
arena_of : ℕ → ℕ × ℕ → ℕ × ℕ
arena_of low (size, start) =
    if ltb 0x100000 size
    then (start, ptr_add start (if ltb 0x2000000 size then 0x2000000 else size))
    else (low, ptr_add low 0x2000000)
