-- ===== src/Lib.antt =====
-- Kil0yOS: models and theorems for a part of the kernel.
--
-- Memory.Pages (src/kernel/mm/memory.c, pmm_*) is the physical page allocator: a bitmap in a store of bytes,
-- a hint where the search starts, and a counter of the set bits. Memory.Heap (the same file, memory_init, kmalloc
-- and their relatives) is the kernel heap: headers in a store by address, linked in address order, in the arena that
-- memory_init chooses (Boot, Arena), and
-- Memory.Tables (vmm_*) the page tables: entries in a memory by address. Files
-- (src/kernel/core/file.c) is the layer of reference-counted file objects and of the descriptor tables that
-- processes own or share: objects, tables and processes are addresses in stores. Net.Tcp (src/kernel/net/tcp.c)
-- is the TCP client: sockets, the bytes of segments, the receive state machine (Rx), and the calls (Calls).
-- Net.Arp (src/kernel/net/arp.c) is the cache of hardware addresses and its packets; of arp_resolve only the choice
-- of the address is modelled, not the loop that waits for the answer.
-- Net.Udp (src/kernel/net/udp.c) is the UDP sockets, without the time that udp_recvfrom waits.
-- Net.Unix (src/kernel/net/unix_sock.c) is the Unix sockets: the receive ring and the store (Unix), names (Bind, Lookup),
-- connections (Connect), bytes and records (Data), messages with descriptors (Messages).
-- Sched.Wait (src/kernel/sched/wait.c) is the wait queues, linked through the processes, and the timers, and
-- Sched.Tasks (src/kernel/sched/scheduler.c) the kernel's tasks and the timer tick that shares the CPU between
-- them and the user processes; Strings
-- (src/kernel/lib/string.c) is the string and memory functions over a memory of bytes by address, and
-- Numbers (src/kernel/lib/stdlib.c) the conversion of numbers to and from text in it.
-- Block (src/kernel/drivers/blkdev.c) is the bounds of transfers to disks and partitions.
--
-- A function of the source is a function here with its name, or its name without the component's prefix
-- (pmm_alloc_page is alloc_page). Mutated state is an argument and a result. A pointer is an address, with 0 for
-- NULL or an Option. What kmalloc returns to a caller outside the heap, the time, the interface's address and a backend's
-- close result are arguments. Words keep their wrap. Loops over bounded ranges recurse on the number of
-- turns; walks of the heap list have fuel for more headers than the arena has room for, which is enough on
-- a sound heap; a walk of a wait queue needs fuel for the queue's length, and one of a string for its
-- length and the zero. The loops of the blocking TCP calls are given by one turn each, because other contexts
-- run between the turns.
--
-- Prelude holds the shared helpers: tests, lists, stores, bits and integers. In each component, the modules
-- below the one with the definitions hold the invariants and the theorems, and its Tests module runs
-- them at concrete states.
--
-- Not modelled: hardware drivers, boot code, the shell, the copy of a Linux driver and its glue, third-party
-- code, logging, and so far the file systems, packages, processes and the rest of the network.
pub mod Prelude
pub mod Memory
pub mod Files
pub mod Net
pub mod Strings
pub mod Sched
pub mod Numbers
pub mod Block
