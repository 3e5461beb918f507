-- ===== src/Vmm/SwapI/Transparent.antt =====
-- A read fault brings in what the application expects.
use sbma.Common.{
  ℕ, ◌+◌, ◌/◌, ◌≤◌, ◌<◌, ◌≡◌, ◌⊎◌, inl, inr, true, false, arith, Ensures, mono, subst, sym, ap,
  within, count_all,
}
use sbma.Mmu.{is_resident}
use sbma.Mmu.Valid.{IsValid}
use sbma.Os.{Os, IsPosix, IsReliable}
use sbma.Vmm.{State}
use sbma.Vmm.View.{view, IsCoherent}
use sbma.Vmm.SwapI.{vmm_swap_i}
use sbma.Vmm.SwapI.Finished.{SwappedIn}
use sbma.Vmm.SwapI.Result.{vmm_swap_i-Counted}

module _ {W : Type 0} {os : Os W} (ps key : ℕ) where
  view-SwappedIn :
      {s t : State W} {beg num m : ℕ}
      → IsValid s.ate
      → IsCoherent os ps key s
      → SwappedIn os ps key s beg num m t
      → (x : ℕ) → x / ps < s.ate.n_pages
      → view os ps key t x ≡ view os ps key s x
  view-SwappedIn valid coherent out x h = ground (
    arith,
    out.flags (x / ps),
    out.mem x,
    out.file x,
    out.base,
    valid.pages (x / ps),
    coherent.absent x,
  )

  IsCoherent-SwappedIn :
      {s t : State W} {beg num m : ℕ}
      → IsValid s.ate
      → IsCoherent os ps key s
      → SwappedIn os ps key s beg num m t
      → IsCoherent os ps key t
  IsCoherent-SwappedIn valid coherent out = record {
    clean = λ x h r d. ground (
      arith,
      out.flags (x / ps),
      out.mem x,
      out.file x,
      out.base,
      out.n_pages,
      valid.pages (x / ps),
      coherent.clean x,
      coherent.absent x,
    );
    on_disk = λ i h z. ground (arith, out.flags i, out.n_pages, out.size, coherent.on_disk i);
    absent = λ x h r.
        ground (arith, out.flags (x / ps), out.mem x, out.base, out.n_pages, coherent.absent x);
  }

  pub vmm_swap_i-view :
      (posix : IsPosix os) (beg num : ℕ) (s : State W)
      → 0 < ps
      → IsValid s.ate
      → IsCoherent os ps key s
      → beg + num ≤ s.ate.n_pages
      → Ensures
          (λ m t.
            IsValid t.ate
            × IsCoherent os ps key t
            × ((i : ℕ) → within beg (beg + num) i ≡ true → is_resident (t.ate.flags i) ≡ true)
            × ((x : ℕ) → x / ps < s.ate.n_pages → view os ps key t x ≡ view os ps key s x))
          (λ _. ¬ IsReliable os)
          (vmm_swap_i os ps key false beg num s)
  vmm_swap_i-view posix beg num s pos valid coherent room =
      mono
        (vmm_swap_i-Counted posix ps key pos beg num s valid room
          (λ i h wanted. coherent.on_disk i h (ground arith)))
        (λ m t. elim [
          | inl (why, _, e) ↦ (
            subst (λ (u : State W). IsValid u.ate) (sym e) valid,
            subst (IsCoherent os ps key) (sym e) coherent,
            (λ i h. ground (arith, e, full why i)),
            λ x h. ap (λ u. view os ps key u x) e,
          )
          | inr (_, _, out) ↦ (
            out.valid,
            IsCoherent-SwappedIn valid coherent out,
            (λ i h. ground (arith, out.flags i)),
            view-SwappedIn valid coherent out,
          )
        ])
        (λ _ x. x)
    where
      full :
          (num ≡ 0) ⊎ (s.ate.l_pages ≡ s.ate.n_pages)
          → (i : ℕ) → within beg (beg + num) i ≡ true
          → is_resident (s.ate.flags i) ≡ true
      full (inl e) i h = ground arith
      full (inr e) i h =
          count_all s.ate.n_pages i is_resident s.ate.flags (ground arith)
            (omega (arith, valid.loaded))
