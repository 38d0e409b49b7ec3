-- ===== src/Memory/Heap.antt =====
-- The kernel heap of src/kernel/mm/memory.c: kmalloc, kfree, krealloc, kcalloc and the walks that
-- report on it, over the headers in memory. A pointer is a number, NULL is 0, `size_t` and pointer
-- sums keep their wrap. The payload bytes, which only memset and memcpy touch, are not modelled, and
-- `klog` output is not. A walk along `next` takes fuel: `walk_fuel` is a bound for a sound heap.
pub mod Layout
pub mod Place
pub mod Alloc
pub mod Free
pub mod Release
pub mod Report
pub mod Boot
pub mod Arena
mod Tests
use kil0y_os.Prelude.{
  ℕ, zero, suc, ◌+◌, ◌-◌, ◌*◌, ◌/◌, ◌%◌, ◌^◌, Bool, true, false, not, ◌&&◌, ◌||◌, Option, none,
  some, ltb, leb, ◌==◌, if◌then◌else◌, update,
}

abbrev pub heap_magic : ℕ
heap_magic = 0x4b594f53

-- sizeof(heap_block_t)
abbrev pub header_size : ℕ
header_size = 24

-- heap_block_t
pub record Header : Type 0 where
  pub size : ℕ
  pub next : ℕ
  pub free : Bool
  pub magic : ℕ

-- heap_start, heap_end, heap_list, and the headers by address.
pub record Heap : Type 0 where
  pub start : ℕ
  pub stop : ℕ
  pub list : ℕ
  pub headers : ℕ → Header

abbrev pub ptr_add : ℕ → ℕ → ℕ
ptr_add p n = (p + n) % 2 ^ 64

-- More rounds than an arena of back-to-back blocks has headers.
abbrev pub walk_fuel : Heap → ℕ
walk_fuel h = (h.stop - h.start) / header_size + 1

-- The tail of memory_init: one free block that fills the arena.
pub heap_init : ℕ → ℕ → (ℕ → Header) → Heap
heap_init start stop memory = record {
  start = start;
  stop = stop;
  list = start;
  headers = update memory start (record {
    size = (stop + 2 ^ 64 - start + 2 ^ 64 - header_size) % 2 ^ 64;
    next = 0;
    free = true;
    magic = heap_magic;
  });
}

-- The request as kmalloc rounds it: at least 8, and up to a multiple of 8.
pub round_size : ℕ → ℕ
round_size size = (if size == 0 then 15 else (size + 7) % 2 ^ 64) / 8 * 8

-- The first fit, or the last block of the list (0 if the list is empty).
pub data Fit : Type 0 where
  found : ℕ → Fit
  missed : ℕ → Fit

pub find_fit : ℕ → (ℕ → Header) → ℕ → ℕ → ℕ → Fit
find_fit zero m size current prev = missed prev
find_fit (suc n) m size current prev =
    let rest = find_fit n m size (m current).next current in
    if current == 0
    then missed prev
    else (if (m current).free && leb size (m current).size then found current else rest)

abbrev pub split_headers : (ℕ → Header) → ℕ → ℕ → ℕ → Header
split_headers m current size =
    update
      (update m (ptr_add current (header_size + size)) (record {
        size = (m current).size - size - header_size;
        next = (m current).next;
        free = true;
        magic = heap_magic;
      }))
      current
      (record {
        size = size;
        next = ptr_add current (header_size + size);
        free = false;
        magic = heap_magic;
      })

abbrev pub whole_headers : (ℕ → Header) → ℕ → ℕ → Header
whole_headers m current = update m current (record (m current) { free = false; magic = heap_magic })

-- The header writes of a hit: split only when the leftover can hold a header.
pub take_block : (ℕ → Header) → ℕ → ℕ → ℕ → Header
take_block m current size =
    if ltb header_size ((m current).size - size)
    then split_headers m current size
    else whole_headers m current

-- The address after the last block.
abbrev pub new_address : Heap → ℕ → ℕ
new_address h prev =
    if prev == 0
    then (if h.list == 0 then h.start else ptr_add h.list (header_size + (h.headers h.list).size))
    else ptr_add prev (header_size + (h.headers prev).size)

-- Link the new block behind `prev`, or make it the list.
abbrev pub link_block : Heap → ℕ → ℕ → ℕ → Heap
link_block h prev block size =
    let m =
      update h.headers block (record { size = size; next = 0; free = false; magic = heap_magic }) in
    if prev == 0
    then record h { headers = m; list = if h.list == 0 then block else h.list }
    else record h { headers = update m prev (record (m prev) { next = block }) }

-- The tail of kmalloc, after a walk that found no free block.
pub extend : Heap → ℕ → ℕ → Heap × ℕ
extend h prev size =
    if leb (ptr_add (new_address h prev) (header_size + size)) h.stop
    then (link_block h prev (new_address h prev) size, ptr_add (new_address h prev) header_size)
    else (h, 0)

abbrev pub finish : Heap → ℕ → Fit → Heap × ℕ
finish h size (found current) =
    (record h { headers = take_block h.headers current size }, ptr_add current header_size)
finish h size (missed prev) = extend h prev size

-- The new heap and the pointer, 0 for NULL.
pub kmalloc : Heap → ℕ → Heap × ℕ
kmalloc h size =
    finish h (round_size size) (find_fit (walk_fuel h) h.headers (round_size size) h.list 0)

-- Whether kfree finds the block's header, or its successor, damaged.
pub is_corrupt : Heap → ℕ → Bool
is_corrupt h block =
    let b = h.headers block in
    if b.magic == heap_magic
    then (if b.next == 0
        then false
        else (if b.next == ptr_add block (header_size + b.size)
            then ltb b.next h.start
              || leb h.stop b.next
              || not ((h.headers b.next).magic == heap_magic)
            else true))
    else true

-- The merge pass: fold the successor into a free block, while the walk is not past `block`.
pub merge_pass : ℕ → ℕ → (ℕ → Header) → ℕ → ℕ → Header
merge_pass zero block m current = m
merge_pass (suc n) block m current =
    let c = m current in
    let merged = update m current (record c {
      size = (c.size + header_size + (m c.next).size) % 2 ^ 64;
      next = (m c.next).next;
    }) in
    let fold = merge_pass n block merged current in
    let go_on = merge_pass n block m c.next in
    if current == 0 || c.next == 0 || ltb block current
    then m
    else (if c.free && (m c.next).free then fold else go_on)

abbrev pub set_free : Heap → ℕ → ℕ → Header
set_free h block = update h.headers block (record (h.headers block) { free = true })

pub kfree : Heap → ℕ → Heap
kfree h ptr =
    if ptr == 0
    then h
    else (if ltb ptr (ptr_add h.start header_size) || leb h.stop ptr
        then h
        else (if ltb (ptr - header_size) h.start || leb h.stop (ptr - header_size)
            then h
            else (if is_corrupt h (ptr - header_size) then h else record h {
              headers =
                  merge_pass (walk_fuel h) (ptr - header_size) (set_free h (ptr - header_size))
                    h.list;
            })))

pub kcalloc : Heap → ℕ → ℕ → Heap × ℕ
kcalloc h nmemb size =
    if not (nmemb == 0) && ltb ((2 ^ 64 - 1) / nmemb) size
    then (h, 0)
    else kmalloc h (nmemb * size % 2 ^ 64)

abbrev pub moved : ℕ → Heap × ℕ → Heap × ℕ
moved ptr (h, new) = if new == 0 then (h, 0) else (kfree h ptr, new)

pub krealloc : Heap → ℕ → ℕ → Heap × ℕ
krealloc h ptr size =
    if ptr == 0
    then kmalloc h size
    else (if size == 0
        then (kfree h ptr, 0)
        else (if leb size (h.headers (ptr - header_size)).size
            then (h, ptr)
            else moved ptr (kmalloc h size)))

-- heap_stats_t
pub record Stats : Type 0 where
  pub arena : ℕ
  pub used_bytes : ℕ
  pub free_bytes : ℕ
  pub largest_free : ℕ
  pub free_blocks : ℕ

-- The sum of the free sizes, in the walk of heap_free_bytes.
pub free_bytes_from : ℕ → (ℕ → Header) → ℕ → ℕ → ℕ
free_bytes_from zero m it acc = acc
free_bytes_from (suc n) m it acc =
    let rest =
      free_bytes_from n m (m it).next (if (m it).free then (acc + (m it).size) % 2 ^ 64 else acc) in
    if it == 0 then acc else rest

pub heap_free_bytes : Heap → ℕ
heap_free_bytes h = free_bytes_from (walk_fuel h) h.headers h.list 0

abbrev pub add_free : Stats → Header → Stats
add_free s b =
    if b.free
    then record s {
      free_bytes = (s.free_bytes + b.size) % 2 ^ 64;
      free_blocks = (s.free_blocks + 1) % 2 ^ 64;
      largest_free = if ltb s.largest_free b.size then b.size else s.largest_free;
    }
    else s

pub stats_from : ℕ → (ℕ → Header) → ℕ → Stats → Stats
stats_from zero m it s = s
stats_from (suc n) m it s =
    let rest = stats_from n m (m it).next (add_free s (m it)) in if it == 0 then s else rest

pub heap_get_stats : Heap → Stats
heap_get_stats h =
    let arena = (h.stop + 2 ^ 64 - h.start) % 2 ^ 64 in
    let s = stats_from (walk_fuel h) h.headers h.list (record {
      arena = arena;
      used_bytes = 0;
      free_bytes = 0;
      largest_free = 0;
      free_blocks = 0;
    }) in
    record s { used_bytes = (arena + 2 ^ 64 - s.free_bytes) % 2 ^ 64 }

-- The walk of heap_verify: true if it returns 0 (`last` is the block before, 0 at the head).
pub verify_from : ℕ → Heap → ℕ → ℕ → Bool
verify_from zero h it last = true
verify_from (suc n) h it last =
    let b = h.headers it in
    let rest = verify_from n h b.next it in
    if it == 0
    then true
    else (if ltb it h.start
          || (leb h.stop it || ((not (last == 0) && leb it last) || not (b.magic == heap_magic)))
        then false
        else (if not (b.next == 0) && not (b.next == ptr_add it (header_size + b.size))
            then false
            else rest))

pub heap_verify : Heap → Bool
heap_verify h = verify_from (walk_fuel h) h h.list 0
