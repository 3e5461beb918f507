-- ===== src/Api/Touched.antt =====
-- A touch is invisible to the application, and makes its bytes accessible.
use sbma.Common.{ℕ, ◌+◌, ◌-◌, ◌*◌, ◌/◌, ◌≤◌, ◌<◌, ◌≡◌, true, false, arith, Ensures, returns, bind}
use sbma.Mmu.{is_resident}
use sbma.Mmu.Valid.{IsValid}
use sbma.Os.{Os, IsPosix, IsReliable}
use sbma.Vmm.{State}
use sbma.Vmm.View.{view, IsCoherent}
use sbma.Vmm.SwapI.Transparent.{vmm_swap_i-view}
use sbma.Api.{outer_beg, outer_end, sbma_mtouch_int}
use sbma.Api.Span.{outer_nonempty, outer_fits}

module _ {W : Type 0} (os : Os W) (ps sys_page key : ℕ) where
  -- What a touch of the `len` bytes at `addr` does to the entry `s`.
  pub record Touched (addr len : ℕ) (s t : State W) : Type 0 where
    pub valid : IsValid t.ate
    pub coherent : IsCoherent os ps key t
    pub resident :
        (i : ℕ)
        → outer_beg ps s.ate.base addr ≤ i
        → i < outer_end ps s.ate.base addr len
        → is_resident (t.ate.flags i) ≡ true
    pub same : (x : ℕ) → x / ps < s.ate.n_pages → view os ps key t x ≡ view os ps key s x

  pub sbma_mtouch_int-Touched :
      (posix : IsPosix os) (addr len : ℕ) (s : State W)
      → 0 < ps
      → IsValid s.ate
      → IsCoherent os ps key s
      → s.ate.base ≤ addr
      → 0 < len
      → addr + len ≤ s.ate.base + s.ate.n_pages * ps
      → Ensures
          (λ _ t. Touched addr len s t)
          (λ _. ¬ IsReliable os)
          (sbma_mtouch_int os ps sys_page key false false addr len s)
  unfolding sbma_mtouch_int
  sbma_mtouch_int-Touched posix addr len s pos valid coherent low some_bytes high =
      bind (vmm_swap_i-view ps key posix beg num s pos valid coherent room)
        λ m t (valid', coherent', resident, same). returns (record {
          valid = valid';
          coherent = coherent';
          resident = λ i l h. resident i (ground arith);
          same = same;
        })
    where
      beg : ℕ
      beg = outer_beg ps s.ate.base addr

      num : ℕ
      num = outer_end ps s.ate.base addr len - beg

      nonempty : beg < outer_end ps s.ate.base addr len
      nonempty = outer_nonempty ps s.ate.base addr len s.ate.n_pages pos low some_bytes high

      room : beg + num ≤ s.ate.n_pages
      room =
          omega (
            arith,
            nonempty,
            outer_fits ps s.ate.base addr len s.ate.n_pages pos low some_bytes high,
          )
