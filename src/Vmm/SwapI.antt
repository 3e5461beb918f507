-- ===== src/Vmm/SwapI.antt =====
-- `vmm_swap_i` of src/vmm/swap_i.c.
pub mod Loading
pub mod Loop
pub mod Rewrite
pub mod Finished
pub mod Result
pub mod Transparent
use sbma.Common.{
  ℕ, zero, suc, ◌+◌, ◌-◌, ◌*◌, Bool, true, false, not, ◌&&◌, Option, none, some, if◌then◌else◌,
  ◌==◌, leb, ltb, Cmd, done, pure, assert, checked, counted, ◌>>=◌, ◌>>◌, or_else,
}
use sbma.Mmu.{Flags, Ate, is_resident, is_charged, loaded}
use sbma.Os.{Os, prot_read, prot_write, prot_rw}
use sbma.Vmm.{as_int, State, on_world, with_ate, with_flags, when, assert_range}
use sbma.Vmm.Io.{vmm_read}

-- Not resident, cannot be zero filled, and not dirty: the file holds the page.
abbrev pub to_read : Flags → Bool
to_read f = f.rsdnt && f.zfill && not f.dirty

module _ {W : Type 0} (os : Os W) (page_size key : ℕ) where
  -- The end of a run: its pages `[first, ip)` come from the file to `addr`, which stands for the page
  -- `beg`; ghost pages then move to their place in the allocation.
  pub read_run : Bool → ℕ → ℕ → ℕ → Option ℕ → ℕ → Cmd (State W) (Option ℕ × ℕ)
  read_run ghost addr beg ip none numrd s = done (none, numrd) s
  read_run ghost addr beg ip (some first) numrd s =
      (do
        on_world (
            vmm_read os key (addr + (first - beg) * page_size) ((ip - first) * page_size)
              (first * page_size))
        if ghost
            then (do
              on_world (
                  checked (
                    os.mprotect (addr + (first - beg) * page_size) ((ip - first) * page_size)
                      prot_read))
              on_world (
                  checked (
                    os.mremap (addr + (first - beg) * page_size) ((ip - first) * page_size)
                      (s.ate.base + first * page_size))))
            else pure tt
        pure (none, numrd + (ip - first)))
        s

  -- The flags and counters of a page.
  pub load_page : ℕ → Cmd (State W) (Unit {0})
  load_page ip s =
      if not (is_resident (s.ate.flags ip))
      then (do
        assert (λ s. ltb s.ate.l_pages s.ate.n_pages)
        with_ate (λ a. record a { l_pages = a.l_pages + 1 })
        when (λ s. not (is_charged (s.ate.flags ip)))
            do
              assert (λ s. ltb s.ate.c_pages s.ate.n_pages)
              with_ate (λ a. record a { c_pages = a.c_pages + 1 })
        -- flag: 0*0*
        with_flags ip loaded)
          s
      else assert (λ s. is_charged (s.ate.flags ip)) s

  pub swap_i_page : Bool → ℕ → ℕ → ℕ → Option ℕ → ℕ → Cmd (State W) (Option ℕ × ℕ)
  unfolding read_run load_page
  swap_i_page ghost addr beg ip ipfirst numrd s =
      (do
        (ipfirst', numrd') ←
            (if to_read (s.ate.flags ip)
              then pure (or_else ipfirst ip, numrd)
              else read_run ghost addr beg ip ipfirst numrd)
        load_page ip
        pure (ipfirst', numrd'))
        s

  -- The pages from `ip` on, `k` of them; at `ip == end` only a run can be left.
  pub swap_i_loop : ℕ → Bool → ℕ → ℕ → ℕ → Option ℕ → ℕ → Cmd (State W) ℕ
  unfolding read_run swap_i_page
  swap_i_loop zero ghost addr beg ip ipfirst numrd = do
    (_, n) ← read_run ghost addr beg ip ipfirst numrd
    pure n
  swap_i_loop (suc k) ghost addr beg ip ipfirst numrd = do
    (ipfirst', numrd') ← swap_i_page ghost addr beg ip ipfirst numrd
    swap_i_loop k ghost addr beg (ip + 1) ipfirst' numrd'

  -- Dirty pages of the range are writable again.
  pub rewrite_dirty : ℕ → ℕ → ℕ → ℕ → Cmd (State W) (Unit {0})
  rewrite_dirty zero addr beg ip = pure tt
  rewrite_dirty (suc k) addr beg ip = do
    when (λ s. (s.ate.flags ip).dirty)
        (on_world (checked (os.mprotect (addr + (ip - beg) * page_size) page_size prot_rw)))
    rewrite_dirty k addr beg (ip + 1)

  -- The memory that the file is read to: ghost pages, or the pages themselves.
  pub prepare : Bool → ℕ → ℕ → Cmd (State W) ℕ
  prepare ghost beg num s =
      if ghost
      then on_world (counted (os.mmap (num * page_size) prot_write)) s
      else (do
        on_world (checked (os.mprotect (s.ate.base + beg * page_size) (num * page_size) prot_write))
        pure (s.ate.base + beg * page_size))
          s

  pub finish : Bool → ℕ → ℕ → ℕ → Cmd (State W) (Unit {0})
  unfolding rewrite_dirty
  finish ghost addr beg num =
      if ghost then on_world (checked (os.munmap addr (num * page_size))) else (do
        on_world (checked (os.mprotect addr (num * page_size) prot_read))
        rewrite_dirty num addr beg beg)

  -- What follows the shortcuts.
  pub swap_i_pages : Bool → (beg num : ℕ) → Cmd (State W) ℕ
  unfolding swap_i_loop prepare finish
  swap_i_pages ghost beg num = do
    addr ← prepare ghost beg num
    on_world (checked os.snprintf)
    on_world (checked (os.open_file key))
    numrd ← swap_i_loop num ghost addr beg beg none 0
    on_world (checked (os.close key))
    finish ghost addr beg num
    pure (as_int numrd)

  unfoldable pub vmm_swap_i : Bool → (beg num : ℕ) → Cmd (State W) ℕ
  unfolding swap_i_pages
  vmm_swap_i ghost beg num = do
    assert_range beg num
    λ s.
        if num == 0
        then done 0 s
        else if s.ate.l_pages == s.ate.n_pages
        then (do assert (λ s. s.ate.c_pages == s.ate.n_pages); pure 0) s
        else swap_i_pages ghost beg num s
