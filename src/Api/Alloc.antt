-- ===== src/Api/Alloc.antt =====
-- `sbma_malloc` of src/api/malloc.c and `sbma_free` of src/api/free.c, as built without SBMA_FILE_RESERVE.
pub mod Fresh
pub mod Allocated
pub mod Freed
pub mod Refused
mod Examples
use sbma.Common.{Checks, state_check}
use sbma.Common.{
  ℕ, zero, suc, ◌+◌, ◌-◌, ◌*◌, ◌/◌, Bool, true, false, not, ◌&&◌, ◌||◌, Option, none, some,
  if◌then◌else◌, ◌==◌, Run, Cmd, done, failed, aborted, diverged, pure, assert, modify, ◌>>=◌, ◌>>◌,
  List, [], ◌∷◌,
}
use sbma.Mmu.{Flags, Ate}
use sbma.Os.{Os, prot_none, prot_read, prot_rw}
use sbma.Ipc.{Ipc, ipc_mevict}
use sbma.Ipc.Madmit.{Peers, ipc_madmit}
use sbma.Api.{pages_of, vmm_to_sys}
use sbma.Api.All.{AllEntries, on_node}

-- open(2) with O_CREAT|O_EXCL, and unlink(2), of the file of an entry: whether they do not return -1.
pub record Files (W : Type 0) : Type 0 where
  pub create : ℕ → W → Bool × W
  pub unlink : ℕ → W → Bool × W
  -- close(2) of what open(2) returns when it fails, -1.
  pub close_none : W → Bool × W

module _ {W A : Type 0} where
  -- Whether the call has returned -1.
  abbrev pub attempt : Run (AllEntries W) A → Run (AllEntries W) Bool
  attempt (done a s) = done true s
  attempt (failed s) = done false s
  attempt aborted = aborted
  attempt diverged = diverged

module _ {W : Type 0} where
  -- A call that leaves the entries and the counters alone.
  abbrev pub calling : {A : Type 0} → (W → A × W) → Cmd (AllEntries W) A
  calling call s = let (a, w) = call s.world in done a (record s { world = w })

-- The flag byte of a page in new anonymous memory, and MMU_CHRGD|MMU_RSDNT.
abbrev pub fresh : Bool → Flags
fresh rsdnt =
    if rsdnt
    then record { zfill = false; rsdnt = false; dirty = false; chrgd = false }
    else record { zfill = false; rsdnt = true; dirty = false; chrgd = true }

abbrev pub new_ate : Bool → ℕ → ℕ → Ate
new_ate rsdnt n_pages base = record {
  n_pages = n_pages;
  l_pages = if rsdnt then n_pages else 0;
  c_pages = if rsdnt then n_pages else 0;
  d_pages = 0;
  base = base;
  flags = λ i. fresh rsdnt;
}

-- The first entry of that address, and the others.
unfoldable pub take_entry : ℕ → List (ℕ × Ate) → Option (Ate × List (ℕ × Ate))
take_entry key [] = none
take_entry key ((k, ate) ∷ rest) =
    let others = take_entry key rest in
    if k == key
    then some (ate, rest)
    else elim others [ none ↦ none | some (a, others') ↦ some (a, (k, ate) ∷ others') ]

-- `ate_size` is the size of `struct ate`, and `metach` and `rsdnt` are the options of that name.
module _ (page_size ate_size : ℕ) (metach : Bool) where
  -- What a free gives back of an entry.
  abbrev pub held_pages : ℕ → ℕ → ℕ
  held_pages n_pages c_pages =
      if metach then pages_of page_size ate_size + c_pages + pages_of page_size n_pages else c_pages

  -- The pages that are admitted for `n_pages` pages of the application.
  abbrev pub admit_pages : Bool → ℕ → ℕ
  admit_pages rsdnt n_pages =
      if metach
      then (if rsdnt
          then pages_of page_size ate_size + n_pages + pages_of page_size n_pages
          else pages_of page_size ate_size + pages_of page_size n_pages)
      else if rsdnt
      then n_pages
      else 0

module _ {W : Type 0} (os : Os W) (files : Files W) (page_size sys_page ate_size : ℕ)
    (metach : Bool) (checks : Checks (AllEntries W)) where
  -- The pointer of an entry is freed.
  abbrev pub free_entry : ℕ → Ate → List (ℕ × Ate) → Cmd (AllEntries W) (Unit {0})
  free_entry at ate others = do
    calling os.snprintf
    calling (files.unlink at)
    modify (λ t. record t { entries = others })
    calling (
        os.munmap at (
          (pages_of page_size ate_size + ate.n_pages + pages_of page_size ate.n_pages) * page_size))
    on_node (
        ipc_mevict
          (vmm_to_sys page_size sys_page
            (held_pages page_size ate_size metach ate.n_pages ate.c_pages))
          (vmm_to_sys page_size sys_page ate.d_pages))

  -- A pointer that is not one of an entry is undefined behaviour. The failures of the calls are lost:
  -- `retval` is overwritten.
  pub sbma_free : ℕ → Cmd (AllEntries W) (Unit {0})
  sbma_free ptr = do
    state_check checks
    λ s. elim (take_entry (ptr - pages_of page_size ate_size * page_size) s.entries) [
      | none ↦ aborted
      | some (ate, others) ↦ free_entry (ptr - pages_of page_size ate_size * page_size) ate others s
    ]
    state_check checks

  module _ (peers : Peers) (fuel : ℕ) (rsdnt admitd : Bool) where
    -- CLEANUP1
    pub give_up : ℕ → Cmd (AllEntries W) (Option ℕ)
    give_up n_pages = do
      λ s. attempt (
          (if metach || rsdnt
              then on_node (
                  ipc_mevict
                    (vmm_to_sys page_size sys_page
                      (admit_pages page_size ate_size metach rsdnt n_pages))
                    0)
              else pure tt)
            s)
      pure none

    -- CLEANUP2
    pub unmap : ℕ → ℕ → Cmd (AllEntries W) (Option ℕ)
    unfolding give_up
    unmap addr n_pages = do
      ret ← calling (
          os.munmap addr
            ((pages_of page_size ate_size + n_pages + pages_of page_size n_pages) * page_size))
      assert (λ _. ret)
      give_up n_pages

    -- CLEANUP3, from the result of close(fd) on
    pub remove_file : Bool → ℕ → ℕ → Cmd (AllEntries W) (Option ℕ)
    unfolding unmap
    remove_file ret addr n_pages = do
      assert (λ _. ret)
      ret' ← calling (files.unlink addr)
      assert (λ _. ret')
      unmap addr n_pages

    -- From the memory that mmap(2) returned to the entry.
    pub set_up : ℕ → ℕ → Cmd (AllEntries W) (Option ℕ)
    unfolding remove_file
    set_up addr n_pages = do
      ret ← calling (
          os.mprotect (addr + pages_of page_size ate_size * page_size) (n_pages * page_size)
            (if rsdnt then prot_read else prot_none))
      if not ret then unmap addr n_pages else (do
        ret' ← calling os.snprintf
        if not ret' then unmap addr n_pages else (do
          fd ← calling (files.create addr)
          if not fd
              then (do closed ← calling files.close_none; remove_file closed addr n_pages)
              else (do
                ret'' ← calling (os.close addr)
                if not ret''
                    then (do closed ← calling (os.close addr); remove_file closed addr n_pages)
                    else (do
                      modify (λ s. record s {
                        entries =
                            (
                              addr,
                              new_ate rsdnt n_pages
                                  (addr + pages_of page_size ate_size * page_size),
                            )
                            ∷ s.entries;
                      })
                      pure (some (addr + pages_of page_size ate_size * page_size))))))

    -- What stands between the state checks.
    pub allocate : ℕ → Cmd (AllEntries W) (Option ℕ)
    unfolding set_up
    allocate size = do
      admitted ← (λ s. attempt (
          (if metach || rsdnt
              then on_node (
                  ipc_madmit peers fuel
                    (vmm_to_sys page_size sys_page
                      (admit_pages page_size ate_size metach rsdnt (pages_of page_size size)))
                    admitd)
              else pure tt)
            s))
      if not admitted then pure none else (do
        addr ← calling (
            os.mmap
              ((pages_of page_size ate_size
                  + pages_of page_size size
                  + pages_of page_size (pages_of page_size size))
                * page_size)
              prot_rw)
        elim addr [
          | none ↦ give_up (pages_of page_size size)
          | some a ↦ set_up a (pages_of page_size size)
        ])

    -- The pointer, or NULL.
    pub sbma_malloc : ℕ → Cmd (AllEntries W) (Option ℕ)
    unfolding allocate
    sbma_malloc size =
        if size == 0
        then pure none
        else (do state_check checks; retval ← allocate size; state_check checks; pure retval)
