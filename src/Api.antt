-- ===== src/Api.antt =====
-- src/api/mtouch.c, src/api/mevict.c and src/api/mclear.c: the pages of an address range, what an operation charges
-- or gives back, and the operation. The probes and the `_int` functions are modelled on the entry.
pub mod Span
pub mod Mtouch
pub mod Touched
pub mod Mevict
pub mod Mcheck
pub mod Process
pub mod Release
pub mod All
pub mod Alloc
pub mod Examples
use sbma.Common.{
  ℕ, zero, suc, ◌+◌, ◌-◌, ◌*◌, ◌/◌, Bool, true, false, ◌&&◌, if◌then◌else◌, ◌==◌, leb, bit, update,
  Cmd, done, pure, assert, ◌>>=◌, ◌>>◌,
}
use sbma.Mmu.{Flags, is_charged, is_dirty}
use sbma.Os.{Os}
use sbma.Vmm.{State, with_ate, with_flags}
use sbma.Vmm.SwapI.{vmm_swap_i}
use sbma.Vmm.SwapO.{vmm_swap_o}
use sbma.Vmm.SwapX.{vmm_swap_x}

-- Subtraction on size_t.
abbrev pub less : ℕ → ℕ → ℕ
less a b = if leb b a then a - b else a + 18446744073709551616 - b

-- All bytes: the first page is rounded down, and the end up.
abbrev pub outer_beg : ℕ → ℕ → ℕ → ℕ
outer_beg page_size base addr = less addr base / page_size

abbrev pub outer_end : ℕ → ℕ → ℕ → ℕ → ℕ
outer_end page_size base addr len = 1 + less (less (addr + len) base) 1 / page_size

-- Only whole pages: the first page is rounded up, and the end down.
abbrev pub inner_beg : ℕ → ℕ → ℕ → ℕ
inner_beg page_size base addr = if addr == base then 0 else 1 + less (less addr base) 1 / page_size

abbrev pub inner_end : ℕ → ℕ → ℕ → ℕ → ℕ
inner_end page_size base addr len = less (addr + len) base / page_size

-- The pages among `ip`, …, `ip+k-1` whose flags pass.
unfoldable pub span : ℕ → ℕ → (Flags → Bool) → (ℕ → Flags) → ℕ
span zero ip p flags = 0
span (suc k) ip p flags = bit (p (flags ip)) + span k (ip + 1) p flags

-- The pages for some bytes: 1+((bytes-1)/page_size).
abbrev pub pages_of : ℕ → ℕ → ℕ
pages_of page_size bytes = 1 + less bytes 1 / page_size

-- VMM_TO_SYS
abbrev pub vmm_to_sys : ℕ → ℕ → ℕ → ℕ
vmm_to_sys page_size sys_page n = n * page_size / sys_page

module _ {W : Type 0} (os : Os W) (page_size sys_page key : ℕ) where
  -- `eager` is whether both VMM_AGGCH and VMM_LZYRD are set.
  pub touch_count : ℕ → ℕ → ℕ → Cmd (State W) ℕ
  touch_count zero ip c_pages = pure c_pages
  touch_count (suc k) ip c_pages = do
    c_pages' ← (λ s.
        if (s.ate.flags ip).chrgd
        then (do assert (λ s. (s.ate.flags ip).rsdnt); pure (c_pages + 1)) s
        else done c_pages s)
    touch_count k (ip + 1) c_pages'

  unfoldable pub sbma_mtouch_probe : Bool → ℕ → ℕ → Cmd (State W) ℕ
  unfolding touch_count
  sbma_mtouch_probe eager addr len s =
      if eager && (s.ate.c_pages == 0)
      then done (vmm_to_sys page_size sys_page s.ate.n_pages) s
      else (do
        c_pages ←
            touch_count
              (outer_end page_size s.ate.base addr len - outer_beg page_size s.ate.base addr)
              (outer_beg page_size s.ate.base addr) 0
        pure (vmm_to_sys page_size sys_page c_pages))
          s

  -- flag: 0***
  pub charge_all : ℕ → Cmd (State W) (Unit {0})
  charge_all zero = pure tt
  charge_all (suc i) = do charge_all i; with_flags i (λ f. record f { chrgd = false })

  pub sbma_mtouch_int : Bool → Bool → ℕ → ℕ → Cmd (State W) ℕ
  unfolding charge_all
  sbma_mtouch_int eager ghost addr len = do
    λ s.
        if eager && (s.ate.c_pages == 0)
        then (do charge_all s.ate.n_pages; with_ate (λ a. record a { c_pages = a.n_pages })) s
        else done tt s
    numrd ← (λ s.
        vmm_swap_i os page_size key ghost (outer_beg page_size s.ate.base addr)
          (outer_end page_size s.ate.base addr len - outer_beg page_size s.ate.base addr) s)
    pure (vmm_to_sys page_size sys_page numrd)

  pub sbma_mevict_probe : ℕ → ℕ → Cmd (State W) (ℕ × ℕ)
  sbma_mevict_probe addr len s =
      let beg = outer_beg page_size s.ate.base addr in
      let num = outer_end page_size s.ate.base addr len - beg in
      done
        (
          vmm_to_sys page_size sys_page (span num beg is_charged s.ate.flags),
          vmm_to_sys page_size sys_page (span num beg is_dirty s.ate.flags),
        )
        s

  pub sbma_mevict_int : Bool → ℕ → ℕ → Cmd (State W) ℕ
  sbma_mevict_int mlock addr len = do
    numwr ← (λ s.
        vmm_swap_o os page_size mlock key (outer_beg page_size s.ate.base addr)
          (outer_end page_size s.ate.base addr len - outer_beg page_size s.ate.base addr) s)
    pure (vmm_to_sys page_size sys_page numwr)

  pub sbma_mclear_probe : ℕ → ℕ → Cmd (State W) ℕ
  sbma_mclear_probe addr len s =
      let beg = inner_beg page_size s.ate.base addr in
      let num = inner_end page_size s.ate.base addr len - beg in
      done (vmm_to_sys page_size sys_page (span num beg is_dirty s.ate.flags)) s

  pub sbma_mclear_int : ℕ → ℕ → Cmd (State W) (Unit {0})
  sbma_mclear_int addr len s =
      let beg = inner_beg page_size s.ate.base addr in
      let end = inner_end page_size s.ate.base addr len in
      if leb beg end then vmm_swap_x os page_size beg (end - beg) s else done tt s
