-- ===== src/Api/Alloc/Allocated.antt =====
-- What `sbma_malloc` of src/api/malloc.c makes of a process.
use sbma.Common.{unchecked}
use sbma.Common.{
  ℕ, ◌+◌, ◌*◌, ◌/◌, ◌≤◌, ◌<◌, ◌≡◌, refl, ap, ◌∙◌, Bool, true, false, ◌||◌, some, if◌then◌else◌,
  ◌==◌, arith, done, ◌∷◌,
}
use sbma.Mmu.{Ate}
use sbma.Os.{Os, IsReliable, prot_rw, prot_read, prot_none}
use sbma.Ipc.Accounts.{IsBalanced}
use sbma.Ipc.Madmit.{Peers}
use sbma.Ipc.Madmit.Released.{available, IsObliging}
use sbma.Api.{pages_of, less, vmm_to_sys}
use sbma.Api.Mcheck.{meta_pages}
use sbma.Api.All.{AllEntries}
use sbma.Api.All.Evicted.{IsEvictable}
use sbma.Api.Alloc.{Files, new_ate, admit_pages, set_up, allocate, sbma_malloc}
use sbma.Api.Alloc.Fresh.{new_ate-IsEvictable, whole_pages, admission, vmm_to_sys_zero}

-- mmap(2) has room, and the file can be created.
pub record IsRoomy {W : Type 0} (os : Os W) (files : Files W) : Type 0 where
  pub maps : (n : ℕ) (w : W) → (addr : ℕ) × ((os.mmap n prot_rw w).0 ≡ some addr)
  pub creates : (key : ℕ) (w : W) → (files.create key w).0 ≡ true

module _ {W : Type 0} (os : Os W) (files : Files W) (ps sys_page ate_size : ℕ) (metach : Bool)
    (peers : Peers) (rsdnt admitd : Bool) where
  -- The entry of `size` bytes at the memory `addr`.
  pub record Allocated (max_mem size addr : ℕ) (s t : AllEntries W) (a : Ate) : Type 0 where
    pub entries : t.entries ≡ (addr, a) ∷ s.entries
    pub base : a.base ≡ addr + pages_of ps ate_size * ps
    pub evictable : IsEvictable (addr, a)
    pub enough : size ≤ a.n_pages * ps
    pub clean : a.d_pages ≡ 0
    pub tight : a.n_pages * ps < size + ps
    pub charged :
        t.ipc.c_mem s.ipc.id
        ≡ s.ipc.c_mem s.ipc.id
          + vmm_to_sys ps sys_page (meta_pages ps sys_page ate_size metach a + a.c_pages)
    pub balanced : IsBalanced max_mem t.ipc
    pub free : t.ipc.inter_mtx ≡ false
    pub id : t.ipc.id ≡ s.ipc.id

  -- Nothing is charged when neither option is set.
  pub none_asked :
      (n : ℕ)
      → (metach || rsdnt) ≡ false
      → vmm_to_sys ps sys_page (admit_pages ps ate_size metach rsdnt n) ≡ 0
  none_asked n e = ap (vmm_to_sys ps sys_page) (ground (arith, e)) ∙ vmm_to_sys_zero ps sys_page

  module _ (reliable : IsReliable os) (roomy : IsRoomy os files) where
    set_up_lem :
        (fuel addr n : ℕ) (s : AllEntries W)
        → (w : W) × (set_up os files ps sys_page ate_size metach unchecked peers fuel rsdnt admitd
              addr n s
            ≡ done (some (addr + pages_of ps ate_size * ps)) (record s {
              entries = (addr, new_ate rsdnt n (addr + pages_of ps ate_size * ps)) ∷ s.entries;
              world = w;
            }))
    unfolding set_up
    set_up_lem fuel addr n s =
        let base = addr + pages_of ps ate_size * ps in
        let p = if rsdnt then prot_read else prot_none in
        let w₁ = (os.mprotect base (n * ps) p s.world).1 in
        let w₂ = (os.snprintf w₁).1 in
        let w₃ = (files.create addr w₂).1 in
        (
          (os.close addr w₃).1,
          rw
              (
                reliable.mprotect_true base (n * ps) p s.world,
                reliable.snprintf_true w₁,
                roomy.creates addr w₂,
                reliable.close_true addr w₃,
              )
              refl,
        )

    -- With the option VMM_CHECK off, when no system call fails, mmap(2) has room and the file can be
    -- created, and the pages that are to be admitted can be had from obliging processes, `sbma_malloc` of
    -- some bytes returns a pointer. The table then starts with an entry for it, valid, of the least number
    -- of pages that hold the bytes, and goes on as before. The process is charged at the node with exactly
    -- what the consistency check counts for the entry, and what is free and held there still adds up.
    pub sbma_malloc-Allocated :
        (obliging : IsObliging peers) (max_mem fuel size : ℕ) (s : AllEntries W)
        → 0 < ps
        → 0 < size
        → IsBalanced max_mem s.ipc
        → s.ipc.inter_mtx ≡ false
        → s.ipc.n_procs < fuel
        → vmm_to_sys ps sys_page (admit_pages ps ate_size metach rsdnt (pages_of ps size))
          ≤ available s.ipc
        → (addr : ℕ) × (a : Ate) × (t : AllEntries W) × (sbma_malloc os files ps sys_page ate_size
              metach unchecked peers fuel rsdnt admitd size s
            ≡ done (some a.base) t)
          × Allocated max_mem size addr s t a
    unfolding sbma_malloc allocate
    sbma_malloc-Allocated obliging max_mem fuel size s pos some_bytes balanced free fueled had =
        let (t, admitted, balanced', own, free', id) =
          admission peers obliging max_mem fuel (vmm_to_sys ps sys_page pages) (metach || rsdnt)
            admitd s balanced free fueled had (none_asked n) in
        let (addr, mapped) = roomy.maps ((first + n + pages_of ps n) * ps) s.world in
        let s' = record s {
          ipc = t;
          world = (os.mmap ((first + n + pages_of ps n) * ps) prot_rw s.world).1;
        } in
        let (w, set) = set_up_lem fuel addr n s' in
        (
          addr,
          new_ate rsdnt n (addr + first * ps),
          record s' {
            entries = (addr, new_ate rsdnt n (addr + first * ps)) ∷ s.entries;
            world = w;
          },
          rw (nonzero, admitted, mapped, set) refl,
          record {
            entries = refl;
            base = refl;
            evictable = new_ate-IsEvictable rsdnt addr n (addr + first * ps) (omega arith);
            enough = (whole_pages ps size pos some_bytes).0;
            clean = refl;
            tight = ground (arith, (whole_pages ps size pos some_bytes).1, expand);
            charged = own ∙ ap (λ v. s.ipc.c_mem s.ipc.id + vmm_to_sys ps sys_page v) (same addr);
            balanced = balanced';
            free = free';
            id = id;
          },
        )
      where
        n : ℕ
        n = pages_of ps size

        first : ℕ
        first = pages_of ps ate_size

        pages : ℕ
        pages = admit_pages ps ate_size metach rsdnt n

        nonzero : (size == 0) ≡ false
        nonzero = ground arith

        same :
            (addr : ℕ)
            → pages
              ≡ meta_pages ps sys_page ate_size metach (new_ate rsdnt n (addr + first * ps))
                + (if rsdnt then n else 0)
        same addr = ground arith

        expand : n * ps ≡ ps + less size 1 / ps * ps
        expand = grind arith
