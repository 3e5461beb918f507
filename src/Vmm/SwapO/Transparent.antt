-- ===== src/Vmm/SwapO/Transparent.antt =====
-- Eviction is invisible to the application.
use sbma.Common.{ℕ, ◌+◌, ◌/◌, ◌≤◌, ◌<◌, ◌≡◌, inl, inr, Bool, arith, Ensures, mono, subst, sym, ap}
use sbma.Mmu.Valid.{FitsWrite, IsValid}
use sbma.Os.{Os, IsPosix, HasFullWrites, IsReliable}
use sbma.Vmm.{State}
use sbma.Vmm.View.{view, IsCoherent}
use sbma.Vmm.SwapO.{vmm_swap_o}
use sbma.Vmm.SwapO.Result.{SwappedOut, vmm_swap_o-SwappedOut}

module _ {W : Type 0} {os : Os W} (ps key : ℕ) where
  view-SwappedOut :
      {s t : State W} {beg num m : ℕ}
      → IsValid s.ate
      → IsCoherent os ps key s
      → SwappedOut os ps key s beg num m t
      → (x : ℕ) → x / ps < s.ate.n_pages
      → view os ps key t x ≡ view os ps key s x
  view-SwappedOut valid coherent out x h = ground (
    arith,
    out.flags (x / ps),
    out.mem x,
    out.file x,
    out.base,
    valid.pages (x / ps),
    coherent.clean x,
    coherent.absent x,
  )

  IsCoherent-SwappedOut :
      {s t : State W} {beg num m : ℕ}
      → IsValid s.ate
      → IsCoherent os ps key s
      → SwappedOut os ps key s beg num m t
      → IsCoherent os ps key t
  IsCoherent-SwappedOut valid coherent out = record {
    clean = λ x h r d.
        ground (
          arith,
          out.flags (x / ps),
          out.mem x,
          out.file x,
          out.base,
          out.n_pages,
          coherent.clean x,
        );
    on_disk = λ i h z.
        ground (arith, out.flags i, out.n_pages, out.size, out.stored i, coherent.on_disk i);
    absent = λ x h r.
        ground (arith, out.flags (x / ps), out.mem x, out.base, out.n_pages, coherent.absent x);
  }

  -- In a system where no write(2) of at most 0x7ffff000 bytes is short, and on an entry whose pages fit
  -- into one such write, `vmm_swap_o`, when the entry is valid and coherent, leaves every byte of the
  -- allocation as the application sees it, and keeps the entry valid and coherent. It never aborts or
  -- loops forever, and returns -1 only in a system where a call can return -1.
  pub vmm_swap_o-view :
      (posix : IsPosix os) (full : HasFullWrites os) (mlock : Bool) (beg num : ℕ) (s : State W)
      → 0 < ps
      → IsValid s.ate
      → IsCoherent os ps key s
      → beg + num ≤ s.ate.n_pages
      → FitsWrite ps s.ate
      → Ensures
          (λ m t.
            IsValid t.ate
            × IsCoherent os ps key t
            × ((x : ℕ) → x / ps < s.ate.n_pages → view os ps key t x ≡ view os ps key s x))
          (λ _. ¬ IsReliable os)
          (vmm_swap_o os ps mlock key beg num s)
  vmm_swap_o-view posix full mlock beg num s pos valid coherent room fits =
      mono (vmm_swap_o-SwappedOut posix full ps key mlock pos beg num s valid room fits)
        (λ m t. elim [
          | inl (why, _, e) ↦ (
            subst (λ (u : State W). IsValid u.ate) (sym e) valid,
            subst (IsCoherent os ps key) (sym e) coherent,
            λ x h. ap (λ u. view os ps key u x) e,
          )
          | inr out ↦ (
            out.valid,
            IsCoherent-SwappedOut valid coherent out,
            view-SwappedOut valid coherent out,
          )
        ])
        (λ _ x. x)
