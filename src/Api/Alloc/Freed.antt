-- ===== src/Api/Alloc/Freed.antt =====
-- What `sbma_free` of src/api/free.c gives back, and `sbma_malloc` when it fails.
use sbma.Common.{unchecked}
use sbma.Common.{
  ℕ, ◌+◌, ◌-◌, ◌*◌, ◌≤◌, ◌<◌, ◌≡◌, refl, ap, sym, subst, Bool, true, false, some, ◌==◌, arith, done,
  List, ◌∷◌,
}
use sbma.Mmu.{Ate}
use sbma.Os.{Os, IsReliable}
use sbma.Ipc.Accounts.{IsBalanced, ipc_mevict-IsBalanced}
use sbma.Ipc.Madmit.{Peers}
use sbma.Ipc.Madmit.Released.{available, IsObliging}
use sbma.Api.{pages_of, vmm_to_sys}
use sbma.Api.Mcheck.{meta_pages}
use sbma.Api.All.{AllEntries}
use sbma.Api.Alloc.{Files, held_pages, admit_pages, take_entry, sbma_free, sbma_malloc}
use sbma.Api.Alloc.Fresh.{vmm_to_sys_zero}
use sbma.Api.Alloc.Allocated.{IsRoomy, Allocated, sbma_malloc-Allocated}

take_first :
    (addr : ℕ) (a : Ate) (rest : List (ℕ × Ate)) (key : ℕ)
    → key ≡ addr
    → take_entry key ((addr, a) ∷ rest) ≡ some (a, rest)
unfolding take_entry
take_first addr a rest key e = rw same refl
  where
    same : (addr == key) ≡ true
    same = ground (arith, e)

module _ {W : Type 0} (os : Os W) (files : Files W) (ps sys_page ate_size : ℕ) (metach : Bool) where
  -- The entry `a` is gone, and the node has got back what the consistency check counts for it.
  pub record Freed (max_mem : ℕ) (a : Ate) (others : List (ℕ × Ate)) (s t : AllEntries W)
      : Type 0 where
    pub entries : t.entries ≡ others
    pub charged :
        t.ipc.c_mem s.ipc.id
          + vmm_to_sys ps sys_page (meta_pages ps sys_page ate_size metach a + a.c_pages)
        ≡ s.ipc.c_mem s.ipc.id
    pub dirtied : t.ipc.d_mem s.ipc.id + vmm_to_sys ps sys_page a.d_pages ≡ s.ipc.d_mem s.ipc.id
    pub balanced : IsBalanced max_mem t.ipc

  -- With the option VMM_CHECK off, `sbma_free` of the pointer of an entry of whose pages the node knows
  -- returns 0 whatever unlink(2) and munmap(2) return. The entry is then gone and the others are as
  -- before, the node gets back exactly what the consistency check counts for the entry, and what is free
  -- and held there still adds up.
  pub sbma_free-Freed :
      (max_mem ptr : ℕ) (a : Ate) (others : List (ℕ × Ate)) (s : AllEntries W)
      → take_entry (ptr - pages_of ps ate_size * ps) s.entries ≡ some (a, others)
      → IsBalanced max_mem s.ipc
      → s.ipc.inter_mtx ≡ false
      → vmm_to_sys ps sys_page (meta_pages ps sys_page ate_size metach a + a.c_pages)
        ≤ s.ipc.c_mem s.ipc.id
      → vmm_to_sys ps sys_page a.d_pages ≤ s.ipc.d_mem s.ipc.id
      → (t : AllEntries W) × (sbma_free os files ps sys_page ate_size metach unchecked ptr s
          ≡ done tt t)
        × Freed max_mem a others s t
  unfolding sbma_free
  sbma_free-Freed max_mem ptr a others s found balanced free hc hd =
      let (t, run, balanced', _, own, dirty, _, _) =
        ipc_mevict-IsBalanced max_mem s.ipc balanced
          (vmm_to_sys ps sys_page (held_pages ps ate_size metach a.n_pages a.c_pages))
          (vmm_to_sys ps sys_page a.d_pages) (subst (λ v. v ≤ s.ipc.c_mem s.ipc.id) (sym same) hc)
          hd free in
      (
        record { entries = others; world = gone; ipc = t },
        rw (sbma_free, found, run) refl,
        record {
          entries = refl;
          charged = omega (arith, own, same);
          dirtied = dirty;
          balanced = balanced';
        },
      )
    where
      at : ℕ
      at = ptr - pages_of ps ate_size * ps

      gone : W
      gone =
          (os.munmap at ((pages_of ps ate_size + a.n_pages + pages_of ps a.n_pages) * ps)
            (files.unlink at (os.snprintf s.world).1).1).1

      same :
          vmm_to_sys ps sys_page (held_pages ps ate_size metach a.n_pages a.c_pages)
          ≡ vmm_to_sys ps sys_page (meta_pages ps sys_page ate_size metach a + a.c_pages)
      same = ap (vmm_to_sys ps sys_page) (ground arith)

  module _ (peers : Peers) (rsdnt admitd : Bool) where
    -- With the option VMM_CHECK off: where `sbma_malloc` of some bytes succeeds as said of it, `sbma_free`
    -- of the pointer that it has returned returns 0, and the entries and what the process is charged with
    -- at the node are as before both.
    pub sbma_free-sbma_malloc :
        (reliable : IsReliable os) (roomy : IsRoomy os files) (obliging : IsObliging peers)
        (max_mem fuel size : ℕ) (s : AllEntries W)
        → 0 < ps
        → 0 < size
        → IsBalanced max_mem s.ipc
        → s.ipc.inter_mtx ≡ false
        → s.ipc.n_procs < fuel
        → vmm_to_sys ps sys_page (admit_pages ps ate_size metach rsdnt (pages_of ps size))
          ≤ available s.ipc
        → (ptr : ℕ) × (t u : AllEntries W) × (sbma_malloc os files ps sys_page ate_size metach
              unchecked peers fuel rsdnt admitd size s
            ≡ done (some ptr) t)
          × (sbma_free os files ps sys_page ate_size metach unchecked ptr t ≡ done tt u)
          × (u.entries ≡ s.entries)
          × (u.ipc.c_mem s.ipc.id ≡ s.ipc.c_mem s.ipc.id)
          × IsBalanced max_mem u.ipc
    sbma_free-sbma_malloc reliable roomy obliging max_mem fuel size s pos some_bytes balanced free
          fueled had =
        let (addr, a, t, run, made) =
          sbma_malloc-Allocated os files ps sys_page ate_size metach peers rsdnt admitd reliable
            roomy obliging max_mem fuel size s pos some_bytes balanced free fueled had in
        let (u, freed_run, freed) =
          sbma_free-Freed max_mem a.base a s.entries t (found addr a t made) made.balanced made.free
            (rw made.id (omega (arith, made.charged)))
            (rw made.clean (omega (arith, vmm_to_sys_zero ps sys_page))) in
        (
          a.base,
          t,
          u,
          run,
          freed_run,
          freed.entries,
          back u t _ made.id freed.charged made.charged,
          freed.balanced,
        )
      where
        back :
            (u t : AllEntries W) (c : ℕ)
            → t.ipc.id ≡ s.ipc.id
            → u.ipc.c_mem t.ipc.id + c ≡ t.ipc.c_mem t.ipc.id
            → t.ipc.c_mem s.ipc.id ≡ s.ipc.c_mem s.ipc.id + c
            → u.ipc.c_mem s.ipc.id ≡ s.ipc.c_mem s.ipc.id
        back u t c id given got = omega (arith, sum, got)
          where
            sum : u.ipc.c_mem s.ipc.id + c ≡ t.ipc.c_mem s.ipc.id
            sum = rw id at given

        found :
            (addr : ℕ) (a : Ate) (t : AllEntries W)
            → Allocated os files ps sys_page ate_size metach peers rsdnt admitd max_mem size addr s
                t a
            → take_entry (a.base - pages_of ps ate_size * ps) t.entries ≡ some (a, s.entries)
        found addr a t made = rw made.entries (
            take_first addr a s.entries (a.base - pages_of ps ate_size * ps)
              (omega (arith, made.base)))
