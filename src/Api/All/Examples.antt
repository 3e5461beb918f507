-- ===== src/Api/All/Examples.antt =====
-- Two allocations of four pages each, on a system with pages of two bytes.
use sbma.Common.{unchecked}
use sbma.Common.{
  Every, every_nil, every_cons, ◌≡◌, refl, true, false, arith, [], ◌∷◌, ◌⊎◌, done, aborted, Ensures,
}
use sbma.Os.{IsReliable}
use sbma.Os.Ideal.{World, ideal, ideal-IsPosix, ideal-HasFullWrites, ideal-IsReliable}
use sbma.Vmm.Examples.{start, start-IsValid}
use sbma.Mmu.Valid.{FitsWrite}
use sbma.Ipc.{ipc_is_eligible}
use sbma.Ipc.Accounts.{sum, IsBalanced}
use sbma.Api.{vmm_to_sys}
use sbma.Api.Examples.{alone, process, alone-IsBalanced, process-IsCovered}
use sbma.Api.All.{AllEntries, sbma_mevictall, honor_sigipc, sbma_mclearall}
use sbma.Api.All.Passed.{total}
use sbma.Api.All.Evicted.{IsEvictable}
use sbma.Api.All.Handled.{GaveBack, sbma_mevictall-GaveBack, honor_sigipc-GaveBack}
use sbma.Api.All.Cleared.{sbma_mclearall_aborts}

abbrev two : AllEntries World
two = record {
  entries = (1, start.ate) ∷ ((2, record start.ate { base = 8192 }) ∷ []);
  world = start.world;
  ipc = record alone { s_mem = 80; c_mem = λ i. 20; d_mem = λ i. 8 };
}

two-IsEvictable : Every (λ ka. IsEvictable ka × FitsWrite 4 ka.1) two.entries
two-IsEvictable =
    every_cons
      (
        record {
          nonempty = omega arith;
          valid = start-IsValid;
          lazy = λ e. absurd (omega (arith, e));
        },
        omega arith,
      )
      (every_cons
        (
          record {
            nonempty = omega arith;
            valid = record {
              loaded = start-IsValid.loaded;
              charged = start-IsValid.charged;
              dirtied = start-IsValid.dirtied;
              pages = start-IsValid.pages;
            };
            lazy = λ e. absurd (omega (arith, e));
          },
          omega arith,
        )
        every_nil)

two-IsBalanced : IsBalanced 100 two.ipc
unfolding sum
two-IsBalanced = record { member = omega arith; total = refl; fits = omega arith }

sbma_mevictall-GaveBack_example :
    Ensures
      (λ r t.
        (r ≡ vmm_to_sys 4 2 (total (λ x. x.c_pages) two.entries)) × GaveBack ideal 4 2 100 two t)
      (λ _. ¬ IsReliable ideal)
      (sbma_mevictall ideal 4 2 unchecked true two)
unfolding total
sbma_mevictall-GaveBack_example =
    sbma_mevictall-GaveBack ideal 4 2 ideal-IsPosix ideal-HasFullWrites true 100 two (omega arith)
      two-IsEvictable two-IsBalanced refl (omega arith) (omega arith)

honor_sigipc-GaveBack_example :
    (t : AllEntries World) × (honor_sigipc ideal 4 2 true two ≡ done tt t)
    × (((ipc_is_eligible two.ipc 0 ≡ false) × (t ≡ two))
        ⊎ ((ipc_is_eligible two.ipc 0 ≡ true) × GaveBack ideal 4 2 100 two t))
unfolding total
honor_sigipc-GaveBack_example =
    honor_sigipc-GaveBack ideal 4 2 ideal-IsPosix ideal-HasFullWrites true 100 two ideal-IsReliable
      (omega arith) two-IsEvictable two-IsBalanced (omega arith) (omega arith)

sbma_mclearall_aborts_example :
    sbma_mclearall ideal 4 2 unchecked unchecked
      (record { entries = (1, start.ate) ∷ []; world = start.world; ipc = alone })
    ≡ aborted
sbma_mclearall_aborts_example =
    sbma_mclearall_aborts ideal 4 2 1 100 ideal-IsPosix process ideal-IsReliable (omega arith)
      (omega arith) start-IsValid alone-IsBalanced refl process-IsCovered (omega arith) refl
