-- ===== src/Api/Alloc/Refused.antt =====
-- `sbma_malloc` of src/api/malloc.c when a system call fails.
use sbma.Common.{unchecked, Checks, state_check-aborted}
use sbma.Common.{
  ℕ, ◌+◌, ◌*◌, ◌≤◌, ◌<◌, ◌≡◌, refl, Bool, true, false, ◌||◌, none, some, if◌then◌else◌, ◌==◌, arith,
  done, aborted, pure,
}
use sbma.Os.{Os, IsReliable, prot_rw, prot_read, prot_none}
use sbma.Ipc.{Ipc, ipc_mevict}
use sbma.Ipc.Accounts.{IsBalanced, ipc_mevict-IsBalanced}
use sbma.Ipc.Madmit.{Peers}
use sbma.Ipc.Madmit.Released.{available, IsObliging}
use sbma.Api.{pages_of, vmm_to_sys}
use sbma.Api.All.{AllEntries, on_node}
use sbma.Api.Alloc.{
  Files, attempt, admit_pages, sbma_malloc, allocate, set_up, remove_file, give_up,
}
use sbma.Api.Alloc.Fresh.{admission}
use sbma.Api.Alloc.Allocated.{none_asked}

-- The node gets back what was admitted.
given_back :
    {W : Type 0} (max_mem value : ℕ) (asks : Bool) (s : AllEntries W)
    → IsBalanced max_mem s.ipc
    → s.ipc.inter_mtx ≡ false
    → value ≤ s.ipc.c_mem s.ipc.id
    → (asks ≡ false → value ≡ 0)
    → (t : Ipc) × (attempt ((if asks then on_node (ipc_mevict value 0) else pure tt) s)
        ≡ done true (record s { ipc = t }))
      × IsBalanced max_mem t
      × (t.c_mem s.ipc.id + value ≡ s.ipc.c_mem s.ipc.id)
      × (t.inter_mtx ≡ false)
given_back max_mem value true s balanced free le none_asked =
    let (t, run, balanced', _, own, _, free', _) =
      ipc_mevict-IsBalanced max_mem s.ipc balanced value 0 le (omega arith) free in
    (t, rw run refl, balanced', own, free')
given_back max_mem value false s balanced free le none_asked =
    (s.ipc, refl, balanced, omega (arith, none_asked refl), free)

module _ {W : Type 0} (os : Os W) (files : Files W) (ps sys_page ate_size : ℕ) (metach : Bool)
    (peers : Peers) (rsdnt admitd : Bool) where
  -- With the option VMM_CHECK off, when mmap(2) fails, `sbma_malloc` of some bytes whose pages can be
  -- had from obliging processes returns NULL. The table is as before, the process is charged with no
  -- more at the node than before, `inter_mtx` is free, and what is free and held there still adds up.
  pub sbma_malloc_unmapped :
      (obliging : IsObliging peers) (max_mem fuel size : ℕ) (s : AllEntries W)
      → ((n : ℕ) (w : W) → (os.mmap n prot_rw w).0 ≡ none)
      → 0 < size
      → IsBalanced max_mem s.ipc
      → s.ipc.inter_mtx ≡ false
      → s.ipc.n_procs < fuel
      → vmm_to_sys ps sys_page (admit_pages ps ate_size metach rsdnt (pages_of ps size))
        ≤ available s.ipc
      → (t : AllEntries W) × (sbma_malloc os files ps sys_page ate_size metach unchecked peers fuel
            rsdnt admitd size s
          ≡ done none t)
        × (t.entries ≡ s.entries)
        × (t.ipc.c_mem s.ipc.id ≡ s.ipc.c_mem s.ipc.id)
        × (t.ipc.inter_mtx ≡ false)
        × IsBalanced max_mem t.ipc
  unfolding sbma_malloc allocate give_up
  sbma_malloc_unmapped obliging max_mem fuel size s no_room some_bytes balanced free fueled had =
      let (t, admitted, balanced', own, free', id) =
        admission peers obliging max_mem fuel (vmm_to_sys ps sys_page pages) (metach || rsdnt)
          admitd s balanced free fueled had
          (none_asked os files ps sys_page ate_size metach peers rsdnt admitd n) in
      let s' = record s { ipc = t; world = (os.mmap bytes prot_rw s.world).1 } in
      let (u, given, balanced'', own', free'') =
        given_back max_mem (vmm_to_sys ps sys_page pages) (metach || rsdnt) s' balanced' free'
          (rw id (omega (arith, own)))
          (none_asked os files ps sys_page ate_size metach peers rsdnt admitd n) in
      (
        record s' { ipc = u },
        rw (nonzero, admitted, no_room bytes s.world, given) refl,
        refl,
        back t u id own' own,
        free'',
        balanced'',
      )
    where
      n : ℕ
      n = pages_of ps size

      bytes : ℕ
      bytes = (pages_of ps ate_size + n + pages_of ps n) * ps

      pages : ℕ
      pages = admit_pages ps ate_size metach rsdnt n

      nonzero : (size == 0) ≡ false
      nonzero = ground arith

      back :
          (t u : Ipc)
          → t.id ≡ s.ipc.id
          → u.c_mem t.id + vmm_to_sys ps sys_page pages ≡ t.c_mem t.id
          → t.c_mem s.ipc.id ≡ s.ipc.c_mem s.ipc.id + vmm_to_sys ps sys_page pages
          → u.c_mem s.ipc.id ≡ s.ipc.c_mem s.ipc.id
      back t u id given got = omega (arith, sum, got)
        where
          sum : u.c_mem s.ipc.id + vmm_to_sys ps sys_page pages ≡ t.c_mem s.ipc.id
          sum = rw id at given

  -- When the file cannot be created, though no other system call fails, setting up the memory of an entry
  -- aborts.
  set_up_aborts :
      (fuel addr n : ℕ) (s : AllEntries W)
      → IsReliable os
      → ((key : ℕ) (w : W) → (files.create key w).0 ≡ false)
      → ((w : W) → (files.close_none w).0 ≡ false)
      → set_up os files ps sys_page ate_size metach unchecked peers fuel rsdnt admitd addr n s
        ≡ aborted
  unfolding set_up remove_file
  set_up_aborts fuel addr n s reliable no_file bad =
      let base = addr + pages_of ps ate_size * ps in
      let p = if rsdnt then prot_read else prot_none in
      let w₁ = (os.mprotect base (n * ps) p s.world).1 in
      let w₂ = (os.snprintf w₁).1 in
      rw
        (
          reliable.mprotect_true base (n * ps) p s.world,
          reliable.snprintf_true w₁,
          no_file addr w₂,
          bad (files.create addr w₂).1,
        )
        refl

  -- In a system where close(2) of the descriptor -1 returns -1: when the file of an entry cannot be
  -- created, though mmap(2) has room and no other system call fails, `sbma_malloc` of some bytes whose
  -- pages can be had from obliging processes aborts, whatever the state check says.
  pub sbma_malloc_aborts :
      (obliging : IsObliging peers) (reliable : IsReliable os) (max_mem fuel size : ℕ)
      (checks : Checks (AllEntries W)) (s : AllEntries W)
      → ((n : ℕ) (w : W) → (addr : ℕ) × ((os.mmap n prot_rw w).0 ≡ some addr))
      → ((key : ℕ) (w : W) → (files.create key w).0 ≡ false)
      → ((w : W) → (files.close_none w).0 ≡ false)
      → 0 < size
      → IsBalanced max_mem s.ipc
      → s.ipc.inter_mtx ≡ false
      → s.ipc.n_procs < fuel
      → vmm_to_sys ps sys_page (admit_pages ps ate_size metach rsdnt (pages_of ps size))
        ≤ available s.ipc
      → sbma_malloc os files ps sys_page ate_size metach checks peers fuel rsdnt admitd size s
        ≡ aborted
  unfolding sbma_malloc allocate
  sbma_malloc_aborts obliging reliable max_mem fuel size checks s maps no_file bad some_bytes
        balanced free fueled had =
      let (t, admitted, _, _, _, _) =
        admission peers obliging max_mem fuel (vmm_to_sys ps sys_page pages) (metach || rsdnt)
          admitd s balanced free fueled had
          (none_asked os files ps sys_page ate_size metach peers rsdnt admitd n) in
      let s' = record s { ipc = t; world = (os.mmap bytes prot_rw s.world).1 } in
      let (addr, mapped) = maps bytes s.world in
      rw nonzero (
        state_check-aborted checks _ s
          (rw (admitted, mapped, set_up_aborts fuel addr n s' reliable no_file bad) refl))
    where
      n : ℕ
      n = pages_of ps size

      bytes : ℕ
      bytes = (pages_of ps ate_size + n + pages_of ps n) * ps

      pages : ℕ
      pages = admit_pages ps ate_size metach rsdnt n

      nonzero : (size == 0) ≡ false
      nonzero = ground arith
