-- ===== src/Api/All/Cleared.antt =====
-- `sbma_mclearall` of src/api/mclear.c, which gives the dirty pages back twice.
use sbma.Common.{unchecked}
use sbma.Common.{
  ℕ, zero, suc, ◌+◌, ◌*◌, ◌<◌, ◌≡◌, refl, ap, inl, inr, true, false, arith, [], ◌∷◌, ◌==◌, assert,
  always, Bool-cases, aborted,
}
use sbma.Mmu.Valid.{IsValid}
use sbma.Os.{Os, IsPosix, IsReliable}
use sbma.Ipc.{Ipc, ipc_mdirty}
use sbma.Ipc.Accounts.{IsBalanced}
use sbma.Api.{vmm_to_sys}
use sbma.Api.Process.{Process}
use sbma.Api.Release.{IsCovered, sbma_mclear-accounted}
use sbma.Api.All.{negated, sbma_mclearall}

-- More dirty pages are taken than the process has.
mdirty_aborts : (n : ℕ) (s : Ipc) → 0 < n → s.d_mem s.id < n → ipc_mdirty (negated n) s ≡ aborted
unfolding ipc_mdirty negated
mdirty_aborts zero s some_pages lt = absurd (omega arith)
mdirty_aborts (suc n) s some_pages lt = ground arith

module _ {W : Type 0} (os : Os W) (ps sys_page key max_mem : ℕ) where
  -- With the option VMM_CHECK off: in a process with one valid entry, at least one system page of which
  -- is dirty and whose dirty pages are all that the node knows to be dirty there, `sbma_mclearall`
  -- aborts, although no system call fails.
  pub sbma_mclearall_aborts :
      (posix : IsPosix os) (s : Process W)
      → IsReliable os
      → 0 < ps
      → 0 < s.vm.ate.n_pages
      → IsValid s.vm.ate
      → IsBalanced max_mem s.ipc
      → s.ipc.inter_mtx ≡ false
      → IsCovered os ps sys_page key max_mem s
      → 0 < vmm_to_sys ps sys_page s.vm.ate.d_pages
      → s.ipc.d_mem s.ipc.id ≡ vmm_to_sys ps sys_page s.vm.ate.d_pages
      → sbma_mclearall os ps sys_page unchecked unchecked
          (record { entries = (key, s.vm.ate) ∷ []; world = s.vm.world; ipc = s.ipc })
        ≡ aborted
  unfolding sbma_mclearall
  sbma_mclearall_aborts posix s reliable pos nonempty valid balanced free covered some_dirty exact =
      let (_, t, run, (d, ed, _, node, _, _, id)) =
        always
          (sbma_mclear-accounted os ps sys_page key max_mem posix s.vm.ate.base
            (s.vm.ate.n_pages * ps) s pos valid (omega arith) bytes (omega arith) balanced free
            covered)
          (λ h. h reliable) in
      elim (Bool-cases (t.vm.ate.d_pages == 0)) [
        | inl e ↦
            rw (run, assert, e)
              (ground (
                arith,
                mdirty_aborts (vmm_to_sys ps sys_page s.vm.ate.d_pages) t.ipc some_dirty
                    (taken t d e ed id node),
              ))
        | inr e ↦ rw (run, assert, e) refl
      ]
    where
      bytes : 0 < s.vm.ate.n_pages * ps
      bytes = grind (arith, nonempty)

      taken :
          (t : Process W) (d : ℕ)
          → (t.vm.ate.d_pages == 0) ≡ true
          → t.vm.ate.d_pages + d ≡ s.vm.ate.d_pages
          → t.ipc.id ≡ s.ipc.id
          → t.ipc.d_mem s.ipc.id + vmm_to_sys ps sys_page d ≡ s.ipc.d_mem s.ipc.id
          → t.ipc.d_mem t.ipc.id < vmm_to_sys ps sys_page s.vm.ate.d_pages
      taken t d e ed id node =
          rw id (omega (arith, some_dirty, exact, node, ap (vmm_to_sys ps sys_page) whole))
        where
          whole : d ≡ s.vm.ate.d_pages
          whole = ground (arith, e, ed)
