-- ===== src/Lib.antt =====
-- SBMA, the storage-backed memory allocator: each allocation stands in anonymous memory that a
-- page fault fills from a swap file and that is written back to the file when memory runs short.
--
-- Parts. The library interface (src/api) works on entries of an allocation table (src/mmu, `Mmu`),
-- which hold a flag byte per page and count the resident, charged and dirty pages. The swap
-- functions (src/vmm, `Vmm`) move pages between memory and the file. The processes of a node share
-- counters in shared memory (src/ipc, `Ipc`): a process that needs pages asks the admission
-- control, which signals another process to evict its own.
--
-- - Common: Boolean tests, arrays as functions with counting, byte ranges and pages, runs of
--   pages, and commands (`Run`: a result, -1, a failed ASSERT, or spent fuel) with their total
--   correctness (`Ensures`). `state_check` is SBMA_STATE_CHECK of src/include/common.h; what
--   `sbma_mcheck` says is its parameter `checks`. Without the option VMM_CHECK, as is the default,
--   it checks nothing (`unchecked`).
-- - Os: the system calls as a parameter, `IsPosix` for what their manual pages say, `IsReliable`
--   for a system in which none returns -1, `HasFullWrites` for one in which no write(2) of at most
--   0x7ffff000 bytes is short. The last is a condition that the manual page does not promise; the
--   loop of `vmm_write` does not serve without it. Os/Ideal has concrete systems that meet them.
-- - Mmu: src/include/mmu.h. `Flags` is the flag byte, `Ate` is `struct ate` without its list
--   pointers and its lock; Mmu/Valid says when the counters agree with the flags
--   (src/api/mcheck.c), and `FitsWrite` when all its pages fit into one such write(2).
-- - Mmu/Table: src/mmu/. The doubly linked list of entries, and Mmu/Table/Order for the list as a
--   sequence. The search gets one round more fuel than there are entries.
-- - Vmm/Io: `vmm_read` of src/vmm/swap_i.c and `vmm_write` of src/vmm/swap_o.c, as built without
--   HAVE_PREAD and HAVE_PWRITE. Their loops get one round more fuel than bytes; each round but the
--   last takes at least one byte.
-- - Vmm/SwapO, Vmm/SwapI, Vmm/SwapX: `vmm_swap_o`, `vmm_swap_i` and `vmm_swap_x`, page by page.
--   The loops are recursions on the number of pages left; the round at `ip == end`, which only
--   flushes a run, is their base case. `_vmm_.page_size` and the options are parameters, and `key`
--   names the swap file, which the code names by the entry's address. Theorems on `vmm_swap_i` are
--   for the option VMM_GHOST off. The counts that the functions return pass through an `int`
--   (`as_int`); one that becomes -1 there is still a number here, although the code then takes it
--   for a failure.
-- - Vmm/View: what the application sees of its memory, and `IsCoherent`, when memory and file may
--   stand for each other.
-- - Vmm/Protect: mprotect(2) on whole pages.
-- - Ipc: src/ipc/ and src/include/ipc.h. The counters in shared memory are one record; `id` is the
--   process that acts. Sums on size_t wrap at 2 ^ 64. The semaphore inter_mtx is a Boolean, and
--   waiting for it when it is taken does not return. Ipc/Madmit has `ipc_madmit` and `vmm_sigipc`
--   of src/vmm/init.c, whose fuel counts rounds of the while loop.
-- - Api: src/api/mtouch.c, src/api/mevict.c and src/api/mclear.c. The probes, which count what an
--   operation charges or gives back, and the `_int` functions, on one entry; subtraction on size_t
--   wraps. Api/Process composes `sbma_mtouch`, on an entry that is given: its lookup by address
--   and its statistics are left out. Api/Release has `sbma_mevict` and `sbma_mclear` likewise.
--   Api/All has the functions on all entries, and `vmm_sigipc` in a process with all its entries;
--   the loop over the table is `visit`, a recursion on the list. Api/Mcheck has `sbma_mcheck` of
--   src/api/mcheck.c, on the list of the entries in the order of the table.
-- - Api/Alloc: `sbma_malloc` of src/api/malloc.c and `sbma_free` of src/api/free.c, on all entries.
--   open(2) with O_CREAT, unlink(2) and close(2) of the descriptor -1 are a parameter, `Files`; new
--   memory holds zeros, so that a flag byte in it has no bit set.
-- - Fault: `vmm_sigsegv` of src/vmm/init.c, on the entry that its lookup has found.
-- - Optstr: `sbma_parse_optstr` of src/api/parse_optstr.c. A string is the list of its character
--   codes and a set of options a record of Booleans; the if-else chain is the list `branches`.
--   Optstr/Printer writes options back as a string.
-- - Klmalloc: src/klmalloc/klmalloc.c. Klmalloc/Table has the sizes of the bins, Klmalloc/Log2 the
--   logarithm, and Klmalloc/Search the search for a free chunk, which has one round more fuel than
--   there are small bins, after which it has stopped.
-- - Klmalloc/Heap: `kl_mem_t` with the memory, as words by their address, and the functions on
--   chunks. A doubly linked list of chunks or of blocks is the list of their addresses, so that
--   the words of the `prev` and `next` pointers are left out; taking out a node that is not in its
--   list is not defined in the code and counts as an abort. The undesignated stack is a list. The
--   system's blocks are a parameter, `Sys`. Heap/Tiles and Heap/Filed see a block as the sequence
--   of its chunks, from one of them.
-- - Klmalloc/Bricks: `kl_brick_get` and `kl_brick_put`. The links between free bricks are words of
--   the memory. Bricks/Chain sees them as a list.
-- - Klmalloc/Kl: `KL_malloc`, `KL_calloc` and `KL_free`, with the chunks that are a block of their
--   own; the C library's allocator is a parameter, `Libc`. Kl/Realloc has `KL_realloc`; the
--   functions with which the system moves a block are a parameter, `Resize`. Reading the header of
--   NULL counts as an abort. Kl/Options has `KL_mallopt`. `KL_mallinfo`, `KL_init` and
--   `KL_destroy` are not modelled, nor the assertions that an address is aligned.
--
-- Addresses and lengths do not wrap: they belong to memory that is mapped. Not modelled: locks
-- within a process (they do nothing in the default build), statistics, timers, the parts that only
-- call the system (start and stop, the interposition of libc), `sbma_realloc`, which moves page
-- flags within memory that it unmaps, and `sbma_remap`. The pages that `sbma_mevictall_int` reports
-- in another process are a parameter of the admission control; Api/All/Handled is what that process
-- does.
pub mod Common
pub mod Mmu
pub mod Os
pub mod Vmm
pub mod Ipc
pub mod Api
pub mod Fault
pub mod Klmalloc
pub mod Optstr
