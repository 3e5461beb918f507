-- ===== src/Api/Alloc/Examples.antt =====
-- An allocation of ten bytes by a process alone, with pages of four bytes, VMM_METACH and VMM_RSDNT.
use sbma.Common.{unchecked}
use sbma.Common.{ℕ, ◌≤◌, ◌≡◌, refl, true, false, none, some, arith, [], ◌∷◌, done, aborted}
use sbma.Mmu.{Ate}
use sbma.Os.{Os}
use sbma.Os.Ideal.{World, ideal, ideal-IsReliable}
use sbma.Vmm.Examples.{start}
use sbma.Ipc.Accounts.{sum, IsBalanced}
use sbma.Ipc.Madmit.Released.{available}
use sbma.Api.Examples.{alone, alone-IsBalanced, no_peers, no_peers-IsObliging}
use sbma.Api.All.{AllEntries}
use sbma.Api.Alloc.{Files, take_entry, sbma_malloc, sbma_free, new_ate}
use sbma.Api.Alloc.Allocated.{IsRoomy, Allocated, sbma_malloc-Allocated}
use sbma.Api.Alloc.Freed.{Freed, sbma_free-Freed, sbma_free-sbma_malloc}
use sbma.Api.Alloc.Refused.{sbma_malloc_unmapped, sbma_malloc_aborts}

abbrev good : Files World
good = record { create = λ k w. (true, w); unlink = λ k w. (true, w); close_none = λ w. (false, w) }

-- No file can be created.
abbrev no_files : Files World
no_files = record good { create = λ k w. (false, w) }

-- mmap(2) has no room.
abbrev no_room : Os World
no_room = record ideal { mmap = λ n p w. (none, w) }

abbrev empty : AllEntries World
empty = record { entries = []; world = start.world; ipc = alone }

abbrev held : AllEntries World
held = record empty { entries = (1000, new_ate false 3 1080) ∷ [] }

good-IsRoomy : IsRoomy ideal good
good-IsRoomy = record { maps = λ n w. (4096, refl); creates = λ k w. refl }

enough_available : 48 ≤ available alone
unfolding available sum
enough_available = omega arith

first_held : take_entry 1000 held.entries ≡ some (new_ate false 3 1080, [])
unfolding take_entry
first_held = refl

sbma_malloc-Allocated_example :
    (addr : ℕ) × (a : Ate) × (t : AllEntries World) × (sbma_malloc ideal good 4 2 80 true unchecked
        no_peers 2 true true 10 empty
      ≡ done (some a.base) t)
    × Allocated ideal good 4 2 80 true no_peers true true 100 10 addr empty t a
sbma_malloc-Allocated_example =
    sbma_malloc-Allocated ideal good 4 2 80 true no_peers true true ideal-IsReliable good-IsRoomy
      no_peers-IsObliging 100 2 10 empty (omega arith) (omega arith) alone-IsBalanced refl
      (omega arith) enough_available

sbma_free-Freed_example :
    (t : AllEntries World) × (sbma_free ideal good 4 2 80 false unchecked 1080 held ≡ done tt t)
    × Freed ideal good 4 2 80 false 100 (new_ate false 3 1080) [] held t
sbma_free-Freed_example =
    sbma_free-Freed ideal good 4 2 80 false 100 1080 (new_ate false 3 1080) [] held first_held
      alone-IsBalanced refl (omega arith) (omega arith)

sbma_free-sbma_malloc_example :
    (ptr : ℕ) × (t u : AllEntries World) × (sbma_malloc ideal good 4 2 80 true unchecked no_peers 2
        true true 10 empty
      ≡ done (some ptr) t)
    × (sbma_free ideal good 4 2 80 true unchecked ptr t ≡ done tt u)
    × (u.entries ≡ [])
    × (u.ipc.c_mem 0 ≡ 6)
    × IsBalanced 100 u.ipc
sbma_free-sbma_malloc_example =
    sbma_free-sbma_malloc ideal good 4 2 80 true no_peers true true ideal-IsReliable good-IsRoomy
      no_peers-IsObliging 100 2 10 empty (omega arith) (omega arith) alone-IsBalanced refl
      (omega arith) enough_available

sbma_malloc_unmapped_example :
    (t : AllEntries World) × (sbma_malloc no_room good 4 2 80 true unchecked no_peers 2 true true 10
        empty
      ≡ done none t)
    × (t.entries ≡ [])
    × (t.ipc.c_mem 0 ≡ 6)
    × (t.ipc.inter_mtx ≡ false)
    × IsBalanced 100 t.ipc
sbma_malloc_unmapped_example =
    sbma_malloc_unmapped no_room good 4 2 80 true no_peers true true no_peers-IsObliging 100 2 10
      empty (λ n w. refl) (omega arith) alone-IsBalanced refl (omega arith) enough_available

sbma_malloc_aborts_example :
    sbma_malloc ideal no_files 4 2 80 true unchecked no_peers 2 true true 10 empty ≡ aborted
sbma_malloc_aborts_example =
    sbma_malloc_aborts ideal no_files 4 2 80 true no_peers true true no_peers-IsObliging
      ideal-IsReliable 100 2 10 unchecked empty (λ n w. (4096, refl)) (λ k w. refl) (λ w. refl)
      (omega arith) alone-IsBalanced refl (omega arith) enough_available
