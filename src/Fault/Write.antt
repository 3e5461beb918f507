-- ===== src/Fault/Write.antt =====
-- The first write to a clean page that is resident.
use sbma.Common.{Checks}
use sbma.Common.{
  ℕ, ◌+◌, ◌-◌, ◌*◌, ◌/◌, ◌≤◌, ◌<◌, ◌≡◌, refl, Bool, true, false, arith, count-update, update, done,
}
use sbma.Mmu.{Ate, is_resident, is_charged, is_dirty}
use sbma.Mmu.Valid.{IsValid}
use sbma.Os.{Os, prot_rw, Protected, IsPosix, IsReliable}
use sbma.Vmm.{State}
use sbma.Vmm.Protect.{within_base}
use sbma.Vmm.View.{view, IsCoherent}
use sbma.Ipc.{wrap, ipc_mdirty}
use sbma.Ipc.Madmit.{Peers}
use sbma.Api.{vmm_to_sys}
use sbma.Api.Process.{Process}
use sbma.Fault.{written, write_fault, vmm_sigsegv}

-- The entry with the page `ip` dirty.
abbrev marked : ℕ → Ate → Ate
marked ip a = record a { d_pages = a.d_pages + 1; flags = update a.flags ip written }

marked-IsValid :
    (ip : ℕ) (a : Ate)
    → IsValid a
    → ip < a.n_pages
    → is_resident (a.flags ip) ≡ true
    → is_dirty (a.flags ip) ≡ false
    → IsValid (marked ip a)
marked-IsValid ip a valid high resident clean = record {
  loaded = ground (arith, valid.loaded, count-update a.n_pages ip is_resident a.flags written high);
  charged = ground (
    arith,
    valid.charged,
    valid.pages ip high,
    count-update a.n_pages ip is_charged a.flags written high,
  );
  dirtied = ground (arith, valid.dirtied, count-update a.n_pages ip is_dirty a.flags written high);
  pages = λ i h. ground (arith, valid.pages i h);
}

module _ {W : Type 0} {os : Os W} (ps sys_page key : ℕ) where
  -- Only the protection of the page differs in the system.
  view-marked :
      {s : State W} {w : W} (ip : ℕ)
      → IsCoherent os ps key s
      → is_resident (s.ate.flags ip) ≡ true
      → ((x : ℕ) → os.mem w x ≡ os.mem s.world x)
      → ((x : ℕ) → os.file w key x ≡ os.file s.world key x)
      → (x : ℕ)
      → view os ps key (record { ate = marked ip s.ate; world = w }) x ≡ view os ps key s x
  view-marked {s} ip coherent resident mem file x = ground (arith, mem (s.ate.base + x), file x)

  marked-IsCoherent :
      {s : State W} {w : W} (ip : ℕ)
      → IsCoherent os ps key s
      → is_resident (s.ate.flags ip) ≡ true
      → ((x : ℕ) → os.mem w x ≡ os.mem s.world x)
      → ((x : ℕ) → os.file w key x ≡ os.file s.world key x)
      → os.size w key ≡ os.size s.world key
      → IsCoherent os ps key (record { ate = marked ip s.ate; world = w })
  marked-IsCoherent {s} ip coherent resident mem file size = record {
    clean = λ x h r d. ground (arith, mem (s.ate.base + x), file x, coherent.clean x);
    on_disk = λ i h z. ground (arith, size, coherent.on_disk i);
    absent = λ x h r. ground (arith, mem (s.ate.base + x), coherent.absent x);
  }

module _ {W : Type 0} (os : Os W) (ps sys_page key : ℕ) (peers : Peers) (fuel : ℕ)
    (checks : Checks (Process W)) where
  -- The process after the fault.
  abbrev after_write : ℕ → Process W → Process W
  after_write ip s = record {
    vm = record {
      ate = marked ip s.vm.ate;
      world = (os.mprotect (s.vm.ate.base + ip * ps) ps prot_rw s.vm.world).1;
    };
    ipc = record s.ipc {
      d_mem = update s.ipc.d_mem s.ipc.id (s.ipc.d_mem s.ipc.id + vmm_to_sys ps sys_page 1);
    };
  }

  write_fault-eq :
      (ip : ℕ) (s : Process W)
      → IsReliable os
      → is_dirty (s.vm.ate.flags ip) ≡ false
      → s.ipc.d_mem s.ipc.id + vmm_to_sys ps sys_page 1 < 18446744073709551616
      → write_fault os ps sys_page key peers fuel checks ip s ≡ done tt (after_write ip s)
  unfolding write_fault ipc_mdirty
  write_fault-eq ip s reliable clean small =
      ground (
        arith,
        clean,
        exact,
        reliable.mprotect_true (s.vm.ate.base + ip * ps) ps prot_rw s.vm.world,
      )
    where
      exact :
          wrap (s.ipc.d_mem s.ipc.id + vmm_to_sys ps sys_page 1)
          ≡ s.ipc.d_mem s.ipc.id + vmm_to_sys ps sys_page 1
      exact = omega arith

  -- What the handler does on a write to the page `ip`.
  pub record Written (ip : ℕ) (s t : Process W) : Type 0 where
    pub valid : IsValid t.vm.ate
    pub coherent : IsCoherent os ps key t.vm
    pub same : (x : ℕ) → view os ps key t.vm x ≡ view os ps key s.vm x
    pub dirty : is_dirty (t.vm.ate.flags ip) ≡ true
    pub d_pages : t.vm.ate.d_pages ≡ s.vm.ate.d_pages + 1
    pub d_mem : t.ipc.d_mem s.ipc.id ≡ s.ipc.d_mem s.ipc.id + vmm_to_sys ps sys_page 1
    pub writable : (x : ℕ) → x / ps ≡ ip → os.prot t.vm.world (s.vm.ate.base + x) ≡ prot_rw

  after_write-Written :
      (posix : IsPosix os) (reliable : IsReliable os) (ip : ℕ) (s : Process W)
      → 0 < ps
      → IsValid s.vm.ate
      → IsCoherent os ps key s.vm
      → ip < s.vm.ate.n_pages
      → is_resident (s.vm.ate.flags ip) ≡ true
      → is_dirty (s.vm.ate.flags ip) ≡ false
      → Written ip s (after_write ip s)
  after_write-Written posix reliable ip s pos valid coherent high resident clean = record {
    valid = marked-IsValid ip s.vm.ate valid high resident clean;
    coherent =
        marked-IsCoherent ps sys_page key ip coherent resident protected.mem (protected.file key)
          (protected.size key);
    same = view-marked ps sys_page key ip coherent resident protected.mem (protected.file key);
    dirty = ground arith;
    d_pages = refl;
    d_mem = ground arith;
    writable = λ x e.
        ground (
          arith,
          protected.prot (s.vm.ate.base + x),
          within_base posix ps pos s.vm.ate.base ip 1 x,
        );
  }
    where
      protected :
          Protected os
            (s.vm.ate.base + ip * ps)
            ps
            prot_rw
            s.vm.world
            (os.mprotect (s.vm.ate.base + ip * ps) ps prot_rw s.vm.world).1
      protected =
          posix.mprotect_done (s.vm.ate.base + ip * ps) ps prot_rw s.vm.world
            (reliable.mprotect_true (s.vm.ate.base + ip * ps) ps prot_rw s.vm.world)

  -- When no system call fails, `vmm_sigsegv` for an address on a resident, clean page of a valid and coherent
  -- entry does not abort. The page is dirty and writable, the entry is valid and coherent, every byte
  -- is as the application sees it before, and one dirty page more is counted in the entry and, in
  -- system pages, at the node.
  pub vmm_sigsegv-Written :
      (posix : IsPosix os) (reliable : IsReliable os) (lazy eager ghost admitd : Bool) (addr ip : ℕ)
      (s : Process W)
      → 0 < ps
      → IsValid s.vm.ate
      → IsCoherent os ps key s.vm
      → s.vm.ate.base ≤ addr
      → (addr - s.vm.ate.base) / ps ≡ ip
      → ip < s.vm.ate.n_pages
      → is_resident (s.vm.ate.flags ip) ≡ true
      → is_dirty (s.vm.ate.flags ip) ≡ false
      → s.ipc.d_mem s.ipc.id + vmm_to_sys ps sys_page 1 < 18446744073709551616
      → (t : Process W) × (vmm_sigsegv os ps sys_page key peers fuel checks lazy eager ghost admitd
            addr s
          ≡ done tt t)
        × Written ip s t
  unfolding vmm_sigsegv
  vmm_sigsegv-Written posix reliable lazy eager ghost admitd addr ip s pos valid coherent low at
        high resident clean small =
      (
        after_write ip s,
        ground (arith, at, write_fault-eq ip s reliable clean small),
        after_write-Written posix reliable ip s pos valid coherent high resident clean,
      )
