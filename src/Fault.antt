-- ===== src/Fault.antt =====
-- `vmm_sigsegv` of src/vmm/init.c: the first access to a page that is not resident, and the first write to
-- a page that is clean. The entry that `mmu_lookup_ate` finds for the address is given.
pub mod Read
pub mod Write
mod Examples
use sbma.Common.{Checks}
use sbma.Common.{
  ℕ, ◌+◌, ◌-◌, ◌*◌, ◌/◌, Bool, true, false, not, if◌then◌else◌, Cmd, done, pure, assert, insist,
  modify, checked, ◌>>=◌, ◌>>◌,
}
use sbma.Mmu.{Flags}
use sbma.Os.{Os, prot_rw}
use sbma.Vmm.{State, on_world, with_ate, with_flags}
use sbma.Ipc.{pos, ipc_mdirty}
use sbma.Ipc.Madmit.{Peers}
use sbma.Api.{less, vmm_to_sys}
use sbma.Api.Process.{Process, on_vm, on_ipc, sbma_mtouch}

-- flag: 100
abbrev pub written : Flags
written = record { zfill = false; rsdnt = false; dirty = true; chrgd = false }

-- `lazy` is VMM_LZYRD: only the page of the fault is touched.
abbrev pub fault_addr : ℕ → Bool → ℕ → ℕ → ℕ
fault_addr page_size lazy base ip = if lazy then base + ip * page_size else base

abbrev pub fault_len : ℕ → Bool → ℕ → ℕ
fault_len page_size lazy n_pages = if lazy then page_size else n_pages * page_size

module _ {W : Type 0} (os : Os W) (page_size sys_page key : ℕ) (peers : Peers) (fuel : ℕ)
    (checks : Checks (Process W)) where
  pub read_fault : Bool → Bool → Bool → Bool → ℕ → Cmd (Process W) (Unit {0})
  read_fault lazy eager ghost admitd ip s = insist (
      (do
        sbma_mtouch os page_size sys_page key peers fuel checks eager ghost admitd
            (fault_addr page_size lazy s.vm.ate.base ip) (fault_len page_size lazy s.vm.ate.n_pages)
        pure tt)
        s)

  pub write_fault : ℕ → Cmd (Process W) (Unit {0})
  write_fault ip = do
    assert (λ s. not (s.vm.ate.flags ip).dirty)
    on_vm (with_flags ip (λ f. written))
    λ s. insist (
        on_vm (on_world (checked (os.mprotect (s.vm.ate.base + ip * page_size) page_size prot_rw)))
          s)
    on_vm (with_ate (λ a. record a { d_pages = a.d_pages + 1 }))
    λ s. insist (on_ipc (ipc_mdirty (pos (vmm_to_sys page_size sys_page 1))) s)

  pub vmm_sigsegv : Bool → Bool → Bool → Bool → ℕ → Cmd (Process W) (Unit {0})
  unfolding read_fault write_fault
  vmm_sigsegv lazy eager ghost admitd addr s =
      let ip = less addr s.vm.ate.base / page_size in
      if (s.vm.ate.flags ip).rsdnt
      then read_fault lazy eager ghost admitd ip s
      else write_fault ip s
