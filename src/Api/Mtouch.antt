-- ===== src/Api/Mtouch.antt =====
-- What a touch is charged for.
use sbma.Common.{
  ℕ, zero, suc, ◌+◌, ◌-◌, ◌*◌, ◌≤◌, ◌<◌, ◌≡◌, inl, inr, true, false, arith, if◌then◌else◌, within,
  count_congr, count_all, Ensures, returns, bind, done,
}
use sbma.Mmu.{is_resident, is_charged, loaded}
use sbma.Mmu.Valid.{IsValid, page_ok}
use sbma.Os.{Os, IsPosix, IsReliable}
use sbma.Vmm.{State}
use sbma.Vmm.SwapI.{to_read}
use sbma.Vmm.SwapI.Finished.{SwappedIn}
use sbma.Vmm.SwapI.Result.{vmm_swap_i-Counted}
use sbma.Api.{
  outer_beg, outer_end, span, vmm_to_sys, touch_count, sbma_mtouch_probe, sbma_mtouch_int,
}
use sbma.Api.Span.{count-span, span_none, span_complement, outer_nonempty, outer_fits}

module _ {W : Type 0} (os : Os W) (ps sys_page key : ℕ) where
  touch_count-span :
      (k ip c : ℕ) (s : State W)
      → ((i : ℕ) → ip ≤ i → i < ip + k → page_ok (s.ate.flags i) ≡ true)
      → touch_count os ps sys_page key k ip c s ≡ done (c + span k ip (λ f. f.chrgd) s.ate.flags) s
  unfolding touch_count span
  touch_count-span zero ip c s good = ground arith
  touch_count-span (suc k) ip c s good = ground (
    arith,
    good ip (omega arith) (omega arith),
    touch_count-span k (ip + 1) c s (λ i l h. good i (omega arith) (omega arith)),
    touch_count-span k (ip + 1) (c + 1) s (λ i l h. good i (omega arith) (omega arith)),
  )

  charged-SwappedIn :
      {s t : State W} {beg num m : ℕ}
      → IsValid s.ate
      → SwappedIn os ps key s beg num m t
      → beg + num ≤ s.ate.n_pages
      → t.ate.c_pages ≡ s.ate.c_pages + span num beg (λ f. f.chrgd) s.ate.flags
  charged-SwappedIn {s} {t} {beg} {num} valid into room = ground (
    arith,
    valid.charged,
    into.valid.charged,
    into.n_pages,
    count_congr s.ate.n_pages is_charged t.ate.flags
        (λ i. if within beg (beg + num) i then loaded (s.ate.flags i) else s.ate.flags i)
        (λ i l. into.flags i),
    count-span s.ate.n_pages num beg is_charged loaded s.ate.flags room,
    span_complement num beg (λ f. f.chrgd) s.ate.flags,
  )

  -- Nothing is to charge when all pages are resident.
  nothing_to_charge :
      (s : State W) (beg num : ℕ)
      → IsValid s.ate
      → beg + num ≤ s.ate.n_pages
      → s.ate.l_pages ≡ s.ate.n_pages
      → span num beg (λ f. f.chrgd) s.ate.flags ≡ 0
  nothing_to_charge s beg num valid room full =
      span_none num beg (λ f. f.chrgd) s.ate.flags
        (λ i l h. ground (
          arith,
          valid.pages i,
          count_all s.ate.n_pages i is_resident s.ate.flags (omega arith)
              (omega (arith, valid.loaded)),
        ))

  -- Without the eager charge, and without ghost pages, a touch of bytes of a valid entry, whose file is long
  -- enough, has a probe that returns some number of pages, converted to system pages. The operation
  -- then never aborts and returns -1 only where a call can; otherwise exactly that number of pages
  -- has been charged to the entry, and all touched pages are resident.
  pub sbma_mtouch-charged :
      (posix : IsPosix os) (addr len : ℕ) (s : State W)
      → 0 < ps
      → IsValid s.ate
      → ((i : ℕ)
          → i < s.ate.n_pages
          → to_read (s.ate.flags i) ≡ true
          → (i + 1) * ps ≤ os.size s.world key)
      → s.ate.base ≤ addr
      → 0 < len
      → addr + len ≤ s.ate.base + s.ate.n_pages * ps
      → (c : ℕ) × (sbma_mtouch_probe os ps sys_page key false addr len s
          ≡ done (vmm_to_sys ps sys_page c) s)
        × Ensures
            (λ _ t.
              (t.ate.c_pages ≡ s.ate.c_pages + c)
              × ((i : ℕ)
                  → outer_beg ps s.ate.base addr ≤ i
                  → i < outer_end ps s.ate.base addr len
                  → is_resident (t.ate.flags i) ≡ true))
            (λ _. ¬ IsReliable os)
            (sbma_mtouch_int os ps sys_page key false false addr len s)
  unfolding sbma_mtouch_probe sbma_mtouch_int
  sbma_mtouch-charged posix addr len s pos valid on_disk low some_bytes high = (
    span num beg (λ f. f.chrgd) s.ate.flags,
    ground (arith, touch_count-span num beg 0 s (λ i l h. valid.pages i (omega (arith, room)))),
    bind (vmm_swap_i-Counted posix ps key pos beg num s valid room on_disk) λ m t. elim [
      | inl (inl e, _, _) ↦ absurd (omega (arith, nonempty, e))
      | inl (inr full, _, e) ↦ returns (
          rw e (
            omega (arith, nothing_to_charge s beg num valid room full),
            λ i l h.
                count_all s.ate.n_pages i is_resident s.ate.flags (omega (arith, fits))
                  (omega (arith, valid.loaded)),
          ))
      | inr (_, _, into) ↦
          returns (charged-SwappedIn valid into room, λ i l h. ground (arith, into.flags i))
    ],
  )
    where
      beg : ℕ
      beg = outer_beg ps s.ate.base addr

      num : ℕ
      num = outer_end ps s.ate.base addr len - beg

      nonempty : beg < outer_end ps s.ate.base addr len
      nonempty = outer_nonempty ps s.ate.base addr len s.ate.n_pages pos low some_bytes high

      fits : outer_end ps s.ate.base addr len ≤ s.ate.n_pages
      fits = outer_fits ps s.ate.base addr len s.ate.n_pages pos low some_bytes high

      room : beg + num ≤ s.ate.n_pages
      room = omega (arith, fits, nonempty)
