-- ===== src/Api/Examples.antt =====
-- Touching, evicting and clearing bytes of an allocation of four pages, on a system with pages of two
-- bytes.
use sbma.Common.{unchecked, count}
use sbma.Common.{ℕ, ◌+◌, ◌≡◌, refl, true, false, arith, Ensures, done, if◌then◌else◌, ◌==◌}
use sbma.Os.{IsReliable}
use sbma.Os.Ideal.{World, ideal, ideal-IsPosix, ideal-HasFullWrites}
use sbma.Mmu.{is_charged}
use sbma.Mmu.Valid.{IsValid}
use sbma.Vmm.{State}
use sbma.Vmm.Examples.{start, start-IsValid}
use sbma.Api.{vmm_to_sys, span}
use sbma.Common.{[], ◌∷◌, ◌↔◌}
use sbma.Ipc.{Ipc}
use sbma.Ipc.Accounts.{sum, IsBalanced}
use sbma.Ipc.Madmit.{Peers}
use sbma.Ipc.Madmit.Released.{IsObliging}
use sbma.Api.Process.{Process}
use sbma.Api.Release.{sbma_mevict_lost, sbma_mevict, IsCovered, sbma_mevict-accounted}
use sbma.Api.Mcheck.{meta_pages, sbma_mcheck, AllCounted, total, sbma_mcheck_iff}

-- No page is resident, and page 1 is still charged.
abbrev charged_alone : State World
charged_alone = record start {
  ate = record {
    n_pages = 4;
    l_pages = 0;
    c_pages = 1;
    d_pages = 0;
    base = 4096;
    flags = λ i. record {
      zfill = false;
      rsdnt = true;
      dirty = false;
      chrgd = if i == 1 then false else true;
    };
  };
}

-- One process with one allocation.
abbrev pub alone : Ipc
alone = record {
  id = 0;
  n_procs = 1;
  maxpages = 6;
  inter_mtx = false;
  s_mem = 94;
  c_mem = λ i. 6;
  d_mem = λ i. 4;
  flags = λ i. true;
}

checked_alone : sbma_mcheck 4 2 80 false true true (start.ate ∷ []) alone ≡ true
unfolding sbma_mcheck
checked_alone = refl

sbma_mcheck_iff_example : (sbma_mcheck 4 2 80 false true true (start.ate ∷ []) alone ≡ true) ↔ (
    AllCounted (start.ate ∷ [])
    × (vmm_to_sys 4 2 (total (λ a. meta_pages 4 2 80 false a + a.c_pages) (start.ate ∷ []))
        ≡ alone.c_mem 0)
    × (vmm_to_sys 4 2 (total (λ a. a.d_pages) (start.ate ∷ [])) ≡ alone.d_mem 0))
sbma_mcheck_iff_example = sbma_mcheck_iff 4 2 80 false (start.ate ∷ []) alone

pub alone-IsBalanced : IsBalanced 100 alone
unfolding sum
alone-IsBalanced = record { member = omega arith; total = refl; fits = omega arith }

abbrev pub no_peers : Peers
no_peers = record {
  kill = λ i s. true;
  sem_wait = λ s. true;
  mevictall = λ i s. (s.c_mem i, s.d_mem i);
  retry = λ s. s;
}

pub no_peers-IsObliging : IsObliging no_peers
no_peers-IsObliging = record { kill = λ i s. refl; sem_wait = λ s. refl; mevictall = λ i s. refl }

abbrev pub process : Process World
process = record { vm = start; ipc = alone }

pub process-IsCovered : IsCovered ideal 4 2 1 100 process
process-IsCovered = record { charged = omega arith; dirtied = omega arith }

sbma_mevict-accounted_example :
    Ensures
      (λ r t.
        (c d : ℕ) × (r ≡ vmm_to_sys 4 2 c)
        × (t.vm.ate.c_pages + c ≡ 3)
        × (t.vm.ate.d_pages + d ≡ 2)
        × (t.ipc.c_mem 0 + vmm_to_sys 4 2 c ≡ 6)
        × (t.ipc.d_mem 0 + vmm_to_sys 4 2 d ≡ 4)
        × IsBalanced 100 t.ipc)
      (λ _. ¬ IsReliable ideal)
      (sbma_mevict ideal 4 2 1 unchecked true 4102 8 process)
sbma_mevict-accounted_example =
    sbma_mevict-accounted ideal 4 2 1 100 ideal-IsPosix ideal-HasFullWrites true 4102 8 process
      (omega arith) start-IsValid (omega arith) (λ e. absurd (omega (arith, e))) (omega arith)
      (omega arith) (omega arith) alone-IsBalanced refl process-IsCovered

charged_alone-IsValid : IsValid charged_alone.ate
unfolding count
charged_alone-IsValid = record {
  loaded = refl;
  charged = refl;
  dirtied = refl;
  pages = λ i h. ground arith;
}

abbrev charged_process : Process World
charged_process = record { vm = charged_alone; ipc = alone }

sbma_mevict_lost_example :
    (c : ℕ) × (t : Process World) × (c ≡ span 2 1 is_charged charged_alone.ate.flags)
    × (sbma_mevict ideal 4 2 1 unchecked true 4100 8 charged_process ≡ done (vmm_to_sys 4 2 c) t)
    × (t.vm ≡ charged_alone)
    × (t.ipc.c_mem 0 + vmm_to_sys 4 2 c ≡ 6)
    × (t.ipc.d_mem 0 ≡ 4)
    × (t.ipc.s_mem ≡ 94 + vmm_to_sys 4 2 c)
    × IsBalanced 100 t.ipc
sbma_mevict_lost_example =
    sbma_mevict_lost ideal 4 2 1 100 true 4100 8 charged_process (omega arith) charged_alone-IsValid
      refl (omega arith) (omega arith) (omega arith) alone-IsBalanced refl (omega arith)
