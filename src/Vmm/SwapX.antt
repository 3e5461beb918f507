-- ===== src/Vmm/SwapX.antt =====
-- `vmm_swap_x` of src/vmm/swap_x.c.
pub mod Result
use sbma.Common.{
  ℕ, zero, suc, ◌+◌, ◌-◌, ◌*◌, Bool, true, false, if◌then◌else◌, ◌==◌, ltb, Cmd, pure, assert,
  checked, ◌>>=◌, ◌>>◌,
}
use sbma.Mmu.{Flags, Ate}
use sbma.Os.{Os, prot_read}
use sbma.Vmm.{State, on_world, with_ate, with_flags, when, assert_range}

-- flag: *0*0
abbrev pub cleared : Flags → Flags
cleared f = record f { dirty = false; zfill = false }

module _ {W : Type 0} (os : Os W) (page_size : ℕ) where
  pub swap_x_page : ℕ → Cmd (State W) (Unit {0})
  swap_x_page ip = do
    when (λ s. (s.ate.flags ip).dirty)
        do
          λ s. on_world (checked (os.mprotect (s.ate.base + ip * page_size) page_size prot_read)) s
          assert (λ s. ltb 0 s.ate.d_pages)
          with_ate (λ a. record a { d_pages = a.d_pages - 1 })
    with_flags ip cleared

  pub swap_x_loop : ℕ → ℕ → Cmd (State W) (Unit {0})
  swap_x_loop zero ip = pure tt
  swap_x_loop (suc k) ip = do swap_x_page ip; swap_x_loop k (ip + 1)

  unfoldable pub vmm_swap_x : (beg num : ℕ) → Cmd (State W) (Unit {0})
  unfolding swap_x_loop swap_x_page
  vmm_swap_x beg num = do assert_range beg num; if num == 0 then pure tt else swap_x_loop num beg
