-- ===== src/Api/Release.antt =====
-- `sbma_mevict` of src/api/mevict.c and `sbma_mclear` of src/api/mclear.c on an entry that is given: what
-- they take from the entry they give back to the node.
use sbma.Common.{Checks, unchecked, state_check}
use sbma.Common.{
  ℕ, ◌+◌, ◌-◌, ◌*◌, ◌/◌, ◌≤◌, ◌<◌, ◌≡◌, refl, Bool, false, Cmd, pure, ◌>>=◌, ◌>>◌, arith, Ensures,
  returns, bind, done,
}
use sbma.Mmu.Valid.{FitsWrite, IsValid}
use sbma.Os.{Os, IsPosix, HasFullWrites, IsReliable}
use sbma.Ipc.{ipc_mevict}
use sbma.Ipc.Accounts.{IsBalanced, ipc_mevict-IsBalanced}
use sbma.Mmu.{is_charged}
use sbma.Api.{
  outer_beg, outer_end, span, vmm_to_sys, sbma_mevict_probe, sbma_mevict_int, sbma_mclear_probe,
  sbma_mclear_int,
}
use sbma.Api.Mevict.{sbma_mevict-discharged, sbma_mclear-undirtied, probe_lost}
use sbma.Api.Process.{Process, on_vm, on_ipc, with_vm-Ensures}

module _ {W : Type 0} (os : Os W) (page_size sys_page key : ℕ) (checks : Checks (Process W)) where
  pub sbma_mevict : Bool → ℕ → ℕ → Cmd (Process W) ℕ
  sbma_mevict mlock addr len = do
    state_check checks
    (c_pages, d_pages) ← on_vm (sbma_mevict_probe os page_size sys_page key addr len)
    on_vm (sbma_mevict_int os page_size sys_page key mlock addr len)
    on_ipc (ipc_mevict c_pages d_pages)
    state_check checks
    pure c_pages

  pub sbma_mclear : ℕ → ℕ → Cmd (Process W) (Unit {0})
  sbma_mclear addr len = do
    state_check checks
    d_pages ← on_vm (sbma_mclear_probe os page_size sys_page key addr len)
    on_vm (sbma_mclear_int os page_size sys_page key addr len)
    on_ipc (ipc_mevict 0 d_pages)
    state_check checks

-- Conversion to system pages keeps the order.
pub vmm_to_sys-le :
    (ps sys_page a b : ℕ) → a ≤ b → vmm_to_sys ps sys_page a ≤ vmm_to_sys ps sys_page b
vmm_to_sys-le ps sys_page a b le = div_mono (a * ps) (b * ps) product
  where
    product : a * ps ≤ b * ps
    product = grind arith

    div_mono : (x y : ℕ) → x ≤ y → x / sys_page ≤ y / sys_page
    div_mono x y h = grind arith

module _ {W : Type 0} (os : Os W) (ps sys_page key max_mem : ℕ) where
  give_back :
      (c d : ℕ) (s : Process W)
      → IsBalanced max_mem s.ipc
      → s.ipc.inter_mtx ≡ false
      → c ≤ s.ipc.c_mem s.ipc.id
      → d ≤ s.ipc.d_mem s.ipc.id
      → Ensures
          (λ _ t.
            (t.vm ≡ s.vm)
            × IsBalanced max_mem t.ipc
            × (t.ipc.c_mem s.ipc.id + c ≡ s.ipc.c_mem s.ipc.id)
            × (t.ipc.d_mem s.ipc.id + d ≡ s.ipc.d_mem s.ipc.id)
            × (t.ipc.id ≡ s.ipc.id))
          (λ _. ¬ IsReliable os)
          (on_ipc {W = W} (ipc_mevict c d) s)
  give_back c d s balanced free hc hd =
      let (t, run, balanced', _, own, dirty, _, id) =
        ipc_mevict-IsBalanced max_mem s.ipc balanced c d hc hd free in
      rw run (returns (refl, balanced', own, dirty, id))

  -- The node knows at least of the entry's pages.
  pub record IsCovered (s : Process W) : Type 0 where
    pub charged : vmm_to_sys ps sys_page s.vm.ate.c_pages ≤ s.ipc.c_mem s.ipc.id
    pub dirtied : vmm_to_sys ps sys_page s.vm.ate.d_pages ≤ s.ipc.d_mem s.ipc.id

  -- With the option VMM_CHECK off, in a system where no write(2) of at most 0x7ffff000 bytes is short,
  -- `sbma_mevict` of bytes of an entry whose pages the node knows of, which fits into one such write,
  -- and which charges no page unless one is resident, never aborts or waits forever, and returns -1 only
  -- in a system where a call can return -1. Otherwise some numbers of pages are no more charged and
  -- dirty in the entry, exactly these, converted to system pages, are given back to the node, and what
  -- is free and held there still adds up.
  pub sbma_mevict-accounted :
      (posix : IsPosix os) (full : HasFullWrites os) (mlock : Bool) (addr len : ℕ) (s : Process W)
      → 0 < ps
      → IsValid s.vm.ate
      → FitsWrite ps s.vm.ate
      → (s.vm.ate.l_pages ≡ 0 → s.vm.ate.c_pages ≡ 0)
      → s.vm.ate.base ≤ addr
      → 0 < len
      → addr + len ≤ s.vm.ate.base + s.vm.ate.n_pages * ps
      → IsBalanced max_mem s.ipc
      → s.ipc.inter_mtx ≡ false
      → IsCovered s
      → Ensures
          (λ r t.
            (c d : ℕ) × (r ≡ vmm_to_sys ps sys_page c)
            × (t.vm.ate.c_pages + c ≡ s.vm.ate.c_pages)
            × (t.vm.ate.d_pages + d ≡ s.vm.ate.d_pages)
            × (t.ipc.c_mem s.ipc.id + vmm_to_sys ps sys_page c ≡ s.ipc.c_mem s.ipc.id)
            × (t.ipc.d_mem s.ipc.id + vmm_to_sys ps sys_page d ≡ s.ipc.d_mem s.ipc.id)
            × IsBalanced max_mem t.ipc)
          (λ _. ¬ IsReliable os)
          (sbma_mevict os ps sys_page key unchecked mlock addr len s)
  unfolding sbma_mevict
  sbma_mevict-accounted posix full mlock addr len s pos valid fits lazy low some_bytes high balanced
        free covered =
      let (c, d, probed, evicted) =
        sbma_mevict-discharged os ps sys_page key posix full mlock addr len s.vm pos valid fits lazy
          low some_bytes high in
      rw probed (
        bind (with_vm-Ensures s evicted) λ m t ((ec, ed), e).
          bind
            (give_back (vmm_to_sys ps sys_page c) (vmm_to_sys ps sys_page d) t (rw e balanced)
              (rw e free)
              (rw e (
                omega (
                  arith,
                  covered.charged,
                  vmm_to_sys-le ps sys_page c s.vm.ate.c_pages (omega (arith, ec)),
                )))
              (rw e (
                omega (
                  arith,
                  covered.dirtied,
                  vmm_to_sys-le ps sys_page d s.vm.ate.d_pages (omega (arith, ed)),
                ))))
            λ _ u (same, balanced', own, dirty, id). returns (
              c,
              d,
              refl,
              rw same ec,
              rw same ed,
              ground (arith, own, e),
              ground (arith, dirty, e),
              balanced',
            ))

  -- With the option VMM_CHECK off: when no page of an entry is resident, `sbma_mevict` of bytes of it, whose
  -- charged pages the node knows of, returns, and gives back to the node exactly the system pages of those
  -- pages of the range that are charged: the process holds that much less, the node has that much more
  -- free, and what is free and held still adds up. But the entry, the memory and the files are
  -- unchanged, so that these pages stay charged in the entry.
  pub sbma_mevict_lost :
      (mlock : Bool) (addr len : ℕ) (s : Process W)
      → 0 < ps
      → IsValid s.vm.ate
      → s.vm.ate.l_pages ≡ 0
      → s.vm.ate.base ≤ addr
      → 0 < len
      → addr + len ≤ s.vm.ate.base + s.vm.ate.n_pages * ps
      → IsBalanced max_mem s.ipc
      → s.ipc.inter_mtx ≡ false
      → vmm_to_sys ps sys_page s.vm.ate.c_pages ≤ s.ipc.c_mem s.ipc.id
      → (c : ℕ) × (t : Process W) × (c
          ≡ span
              (outer_end ps s.vm.ate.base addr len - outer_beg ps s.vm.ate.base addr)
              (outer_beg ps s.vm.ate.base addr)
              is_charged
              s.vm.ate.flags)
        × (sbma_mevict os ps sys_page key unchecked mlock addr len s
            ≡ done (vmm_to_sys ps sys_page c) t)
        × (t.vm ≡ s.vm)
        × (t.ipc.c_mem s.ipc.id + vmm_to_sys ps sys_page c ≡ s.ipc.c_mem s.ipc.id)
        × (t.ipc.d_mem s.ipc.id ≡ s.ipc.d_mem s.ipc.id)
        × (t.ipc.s_mem ≡ s.ipc.s_mem + vmm_to_sys ps sys_page c)
        × IsBalanced max_mem t.ipc
  unfolding sbma_mevict
  sbma_mevict_lost mlock addr len s pos valid empty low some_bytes high balanced free known =
      let (c, counted, bounded, probed, evicted) =
        probe_lost os ps sys_page key mlock addr len s.vm pos valid empty low some_bytes high in
      let (t, run, balanced', freed, own, dirty, _, _) =
        ipc_mevict-IsBalanced max_mem s.ipc balanced (vmm_to_sys ps sys_page c)
          (vmm_to_sys ps sys_page 0)
          (omega (arith, known, vmm_to_sys-le ps sys_page c s.vm.ate.c_pages bounded))
          (omega (arith, none_to_sys)) free in
      (
        c,
        record { vm = s.vm; ipc = t },
        counted,
        rw (probed, evicted, run) refl,
        refl,
        own,
        omega (arith, dirty, none_to_sys),
        freed,
        balanced',
      )
    where
      none_to_sys : vmm_to_sys ps sys_page 0 ≡ 0
      none_to_sys = grind arith

  -- With the option VMM_CHECK off, `sbma_mclear` of bytes of an entry whose pages the node knows of never aborts or waits forever, and returns
  -- -1 only where a call can. Otherwise some number of pages is no more dirty in the entry, exactly
  -- this number, converted to system pages, is no more dirty at the node, and nothing else is given
  -- back.
  pub sbma_mclear-accounted :
      (posix : IsPosix os) (addr len : ℕ) (s : Process W)
      → 0 < ps
      → IsValid s.vm.ate
      → s.vm.ate.base ≤ addr
      → 0 < len
      → addr + len ≤ s.vm.ate.base + s.vm.ate.n_pages * ps
      → IsBalanced max_mem s.ipc
      → s.ipc.inter_mtx ≡ false
      → IsCovered s
      → Ensures
          (λ _ t.
            (d : ℕ) × (t.vm.ate.d_pages + d ≡ s.vm.ate.d_pages)
            × (t.vm.ate.c_pages ≡ s.vm.ate.c_pages)
            × (t.ipc.d_mem s.ipc.id + vmm_to_sys ps sys_page d ≡ s.ipc.d_mem s.ipc.id)
            × (t.ipc.c_mem s.ipc.id ≡ s.ipc.c_mem s.ipc.id)
            × IsBalanced max_mem t.ipc
            × (t.ipc.id ≡ s.ipc.id))
          (λ _. ¬ IsReliable os)
          (sbma_mclear os ps sys_page key unchecked addr len s)
  unfolding sbma_mclear
  sbma_mclear-accounted posix addr len s pos valid low some_bytes high balanced free covered =
      let (d, probed, undirtied) =
        sbma_mclear-undirtied os ps sys_page key posix addr len s.vm pos valid low some_bytes
          high in
      rw probed (
        bind (with_vm-Ensures s undirtied) λ m t ((ed, ec), e).
          bind
            (give_back 0 (vmm_to_sys ps sys_page d) t (rw e balanced) (rw e free) (omega arith) (
              rw e (
                omega (
                  arith,
                  covered.dirtied,
                  vmm_to_sys-le ps sys_page d s.vm.ate.d_pages (omega (arith, ed)),
                ))))
            λ _ u (same, balanced', own, dirty, id). returns (
              d,
              rw same ed,
              rw same ec,
              ground (arith, dirty, e),
              ground (arith, own, e),
              balanced',
              rw (id, e) refl,
            ))
