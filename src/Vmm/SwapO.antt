-- ===== src/Vmm/SwapO.antt =====
-- `vmm_swap_o` of src/vmm/swap_o.c.
pub mod Going
pub mod Loop
pub mod Release
pub mod Transparent
pub mod Result
use sbma.Common.{
  ℕ, zero, suc, ◌+◌, ◌-◌, ◌*◌, Bool, true, false, not, ◌&&◌, Option, none, some, if◌then◌else◌,
  ◌==◌, leb, ltb, Cmd, done, pure, assert, checked, ◌>>=◌, ◌>>◌, or_else,
}
use sbma.Mmu.{Flags, Ate, is_resident, is_charged}
use sbma.Os.{Os, prot_none}
use sbma.Vmm.{as_int, State, on_world, with_ate, with_flags, when, assert_range}
use sbma.Vmm.Io.{vmm_write}

module _ {W : Type 0} (os : Os W) (page_size : ℕ) (mlock : Bool) (key : ℕ) where
  -- A clean page becomes non-resident and uncharged.
  pub drop_clean : ℕ → Cmd (State W) (Unit {0})
  drop_clean ip = do
    when (λ s. is_charged (s.ate.flags ip))
        do
          when (λ s. is_resident (s.ate.flags ip))
              do
                assert (λ s. ltb 0 s.ate.l_pages)
                with_ate (λ a. record a { l_pages = a.l_pages - 1 })
          assert (λ s. ltb 0 s.ate.c_pages)
          with_ate (λ a. record a { c_pages = a.c_pages - 1 })
    -- flag: 101*
    with_flags ip (λ f. record { zfill = f.zfill; rsdnt = true; dirty = false; chrgd = true })

  pub drop_dirty : ℕ → Cmd (State W) (Unit {0})
  drop_dirty ip = do
    assert (λ s. is_resident (s.ate.flags ip))
    assert (λ s. is_charged (s.ate.flags ip))
    assert (λ s. ltb 0 s.ate.l_pages)
    with_ate (λ a. record a { l_pages = a.l_pages - 1 })
    assert (λ s. ltb 0 s.ate.c_pages)
    with_ate (λ a. record a { c_pages = a.c_pages - 1 })
    -- flag: 1011
    with_flags ip (λ f. record { zfill = true; rsdnt = true; dirty = false; chrgd = true })

  -- The end of a run: its pages `[first, ip)` go to the file.
  pub write_run : ℕ → Option ℕ → ℕ → Cmd (State W) (Option ℕ × ℕ)
  write_run ip none numwr = pure (none, numwr)
  write_run ip (some first) numwr = do
    λ s.
        on_world
          (vmm_write os key (s.ate.base + first * page_size) ((ip - first) * page_size)
            (first * page_size))
          s
    assert (λ s. leb (ip - first) s.ate.d_pages)
    with_ate (λ a. record a { d_pages = a.d_pages - (ip - first) })
    pure (none, numwr + (ip - first))

  pub swap_o_page : ℕ → Option ℕ → ℕ → Cmd (State W) (Option ℕ × ℕ)
  unfolding drop_clean drop_dirty write_run
  swap_o_page ip ipfirst numwr = do
    when (λ s. not (s.ate.flags ip).dirty) (drop_clean ip)
    λ s.
        if (s.ate.flags ip).dirty
        then (do drop_dirty ip; pure (or_else ipfirst ip, numwr)) s
        else write_run ip ipfirst numwr s

  -- The pages from `ip` on, `k` of them; at `ip == end` only a run can be left.
  pub swap_o_loop : ℕ → ℕ → Option ℕ → ℕ → Cmd (State W) ℕ
  unfolding write_run swap_o_page
  swap_o_loop zero ip ipfirst numwr = do (_, n) ← write_run ip ipfirst numwr; pure n
  swap_o_loop (suc k) ip ipfirst numwr = do
    (ipfirst', numwr') ← swap_o_page ip ipfirst numwr
    swap_o_loop k (ip + 1) ipfirst' numwr'

  -- What follows the loop, on the memory of the pages.
  pub release_pages : ℕ → ℕ → Cmd (State W) (Unit {0})
  release_pages beg num s =
      on_world
        (do
          (if mlock
              then checked (os.munlock (s.ate.base + beg * page_size) (num * page_size))
              else pure tt)
          checked (os.mprotect (s.ate.base + beg * page_size) (num * page_size) prot_none)
          checked (os.dontneed (s.ate.base + beg * page_size) (num * page_size)))
        s

  -- What follows the shortcuts.
  pub swap_o_pages : (beg num : ℕ) → Cmd (State W) ℕ
  unfolding swap_o_loop release_pages
  swap_o_pages beg num = do
    on_world (checked os.snprintf)
    on_world (checked (os.open_file key))
    numwr ← swap_o_loop num beg none 0
    on_world (checked (os.close key))
    release_pages beg num
    pure (as_int numwr)

  unfoldable pub vmm_swap_o : (beg num : ℕ) → Cmd (State W) ℕ
  unfolding swap_o_pages
  vmm_swap_o beg num = do
    assert_range beg num
    λ s.
        if num == 0
        then done 0 s
        else if s.ate.l_pages == 0
        then done 0 s
        else swap_o_pages beg num s
