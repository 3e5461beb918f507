-- ===== src/Api/All/Handled.antt =====
-- What `sbma_mevictall` of src/api/mevict.c and `vmm_sigipc` of src/vmm/init.c give back to the node.
use sbma.Common.{unchecked}
use sbma.Common.{
  Every, ℕ, ◌+◌, ◌≤◌, ◌<◌, ◌≡◌, refl, inl, inr, Bool, true, false, arith, ◌⊎◌, Ensures, returns,
  bind, insist-Ensures, insist, always, ◌>>=◌, Bool-cases, done,
}
use sbma.Mmu.Valid.{FitsWrite}
use sbma.Os.{Os, IsPosix, HasFullWrites, IsReliable}
use sbma.Ipc.{ipc_is_eligible, ipc_atomic_dec}
use sbma.Ipc.Accounts.{IsBalanced, IsBalanced-discharged, ipc_atomic_dec-eq, ipc_mevict-IsBalanced}
use sbma.Api.{vmm_to_sys}
use sbma.Api.All.{AllEntries, on_node, sbma_mevictall_int, sbma_mevictall, honor_sigipc}
use sbma.Api.All.Passed.{total}
use sbma.Api.All.Evicted.{IsEvictable, IsOut, sbma_mevictall_int-Reported}

module _ {W : Type 0} (os : Os W) (ps sys_page : ℕ) where
  -- The entries' charged pages, in system pages.
  abbrev pub entries_c : AllEntries W → ℕ
  entries_c s = vmm_to_sys ps sys_page (total (λ x. x.c_pages) s.entries)

  abbrev pub entries_d : AllEntries W → ℕ
  entries_d s = vmm_to_sys ps sys_page (total (λ x. x.d_pages) s.entries)

  -- Every entry is out, and the node has got back the pages that they had in `s`.
  pub record GaveBack (max_mem : ℕ) (s t : AllEntries W) : Type 0 where
    pub out : Every IsOut t.entries
    pub charged : t.ipc.c_mem s.ipc.id + entries_c s ≡ s.ipc.c_mem s.ipc.id
    pub dirtied : t.ipc.d_mem s.ipc.id + entries_d s ≡ s.ipc.d_mem s.ipc.id
    pub freed : t.ipc.s_mem ≡ s.ipc.s_mem + entries_c s
    pub balanced : IsBalanced max_mem t.ipc

  -- With the option VMM_CHECK off, in a system where no write(2) of at most 0x7ffff000 bytes is short,
  -- `sbma_mevictall`, when each entry is valid, fits into one such write, and charges no page unless one
  -- is resident and the node knows of their pages, never aborts or waits forever, and returns -1 only in
  -- a system where a call can return -1. Otherwise no entry has a resident, charged or dirty page, the
  -- node gets back exactly the pages that the entries had charged and dirty, and what is free and held
  -- there still adds up. It returns the charged ones, in system pages.
  pub sbma_mevictall-GaveBack :
      (posix : IsPosix os) (full : HasFullWrites os) (mlock : Bool) (max_mem : ℕ) (s : AllEntries W)
      → 0 < ps
      → Every (λ ka. IsEvictable ka × FitsWrite ps ka.1) s.entries
      → IsBalanced max_mem s.ipc
      → s.ipc.inter_mtx ≡ false
      → entries_c s ≤ s.ipc.c_mem s.ipc.id
      → entries_d s ≤ s.ipc.d_mem s.ipc.id
      → Ensures
          (λ r t. (r ≡ entries_c s) × GaveBack max_mem s t)
          (λ _. ¬ IsReliable os)
          (sbma_mevictall os ps sys_page unchecked mlock s)
  unfolding sbma_mevictall
  sbma_mevictall-GaveBack posix full mlock max_mem s pos every balanced free hc hd =
      bind (sbma_mevictall_int-Reported os ps sys_page posix full mlock s pos every)
        λ sums t (c, d, out, same).
          let (u, run, balanced', freed, own, dirty, _, _) =
            ipc_mevict-IsBalanced max_mem t.ipc (rw same balanced) sums.c_pages sums.d_pages
              (rw (same, c) hc) (rw (same, d) hd) (rw same free) in
          rw run (
            returns (
              c,
              record {
                out = out;
                charged = ground (arith, own, same, c);
                dirtied = ground (arith, dirty, same, d);
                freed = ground (arith, freed, same, c);
                balanced = balanced';
              },
            ))

  -- When no system call fails, no write(2) of at most 0x7ffff000 bytes is short and each entry fits into
  -- one such write, the handler of SIGIPC in a process whose entries are valid, charge no page unless
  -- one is resident, and are known to the node, always returns. A process that is not eligible is left
  -- as it was; in another no entry has a resident, charged or dirty page, the node gets back exactly the
  -- pages that the entries had charged and dirty, and what is free and held there still adds up.
  pub honor_sigipc-GaveBack :
      (posix : IsPosix os) (full : HasFullWrites os) (mlock : Bool) (max_mem : ℕ) (s : AllEntries W)
      → IsReliable os
      → 0 < ps
      → Every (λ ka. IsEvictable ka × FitsWrite ps ka.1) s.entries
      → IsBalanced max_mem s.ipc
      → entries_c s ≤ s.ipc.c_mem s.ipc.id
      → entries_d s ≤ s.ipc.d_mem s.ipc.id
      → (t : AllEntries W) × (honor_sigipc os ps sys_page mlock s ≡ done tt t)
        × (((ipc_is_eligible s.ipc s.ipc.id ≡ false) × (t ≡ s))
            ⊎ ((ipc_is_eligible s.ipc s.ipc.id ≡ true) × GaveBack max_mem s t))
  unfolding honor_sigipc
  honor_sigipc-GaveBack posix full mlock max_mem s reliable pos every balanced hc hd =
      elim (Bool-cases (ipc_is_eligible s.ipc s.ipc.id)) [
        | inl e ↦
            let (_, t, run, gave) = always honored (λ h. h reliable) in
            rw e (t, run, inr (refl, gave))
        | inr e ↦ rw e (s, refl, inl (refl, refl))
      ]
    where
      honored :
          Ensures
            (λ _ t. GaveBack max_mem s t)
            (λ _. ¬ IsReliable os)
            ((do
              sums ← (λ t. insist (sbma_mevictall_int os ps sys_page mlock t))
              on_node (ipc_atomic_dec sums.c_pages sums.d_pages))
              s)
      honored =
          bind
            (insist-Ensures
              (sbma_mevictall_int-Reported os ps sys_page posix full mlock s pos every)
              (λ h. h reliable))
            λ sums t (c, d, out, same).
              rw
                (ipc_atomic_dec-eq max_mem t.ipc (rw same balanced) sums.c_pages sums.d_pages
                  (rw (same, c) hc) (rw (same, d) hd))
                (returns (record {
                  out = out;
                  charged = ground (arith, same, c, hc);
                  dirtied = ground (arith, same, d, hd);
                  freed = ground (arith, same, c);
                  balanced =
                      IsBalanced-discharged max_mem t.ipc (rw same balanced) sums.c_pages
                        sums.d_pages (rw (same, c) hc);
                }))
