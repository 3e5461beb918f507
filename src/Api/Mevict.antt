-- ===== src/Api/Mevict.antt =====
-- What an eviction and a clearing give back.
use sbma.Common.{
  ℕ, ◌+◌, ◌-◌, ◌*◌, ◌≤◌, ◌<◌, ◌≡◌, refl, inl, inr, Bool, true, false, arith, if◌then◌else◌, leb,
  within, count, count_congr, count_pos, count_mono, Ensures, returns, bind, mono, done, Bool-cases,
  leb→le, ap,
}
use sbma.Mmu.{Flags, is_resident, is_charged, is_dirty, evicted}
use sbma.Mmu.Valid.{FitsWrite, IsValid}
use sbma.Os.{Os, IsPosix, HasFullWrites, IsReliable}
use sbma.Vmm.{State}
use sbma.Vmm.SwapO.{vmm_swap_o}
use sbma.Vmm.SwapO.Result.{vmm_swap_o-SwappedOut}
use sbma.Vmm.SwapX.{cleared}
use sbma.Vmm.Protect.{MprotectFailed-unreliable}
use sbma.Vmm.SwapX.Result.{vmm_swap_x-Cleared}
use sbma.Api.{
  outer_beg, outer_end, inner_beg, inner_end, span, vmm_to_sys, sbma_mevict_probe, sbma_mevict_int,
  sbma_mclear_probe, sbma_mclear_int,
}
use sbma.Api.Span.{count-span, span_none, outer_nonempty, outer_fits, inner_fits}

-- A count of 0 leaves nothing to a span.
none_left :
    (n k beg : ℕ) (p : Flags → Bool) (f : ℕ → Flags)
    → beg + k ≤ n
    → count n p f ≡ 0
    → span k beg p f ≡ 0
none_left n k beg p f room empty = span_none k beg p f λ i l h. elim (Bool-cases (p (f i))) [
  | inl e ↦ absurd (omega (arith, empty, count_pos n i p f (omega arith) e))
  | inr e ↦ e
]

-- What a change that no page passes afterwards takes from a count.
taken :
    (n num beg before after : ℕ) (p : Flags → Bool) (e : Flags → Flags) (f g : ℕ → Flags)
    → beg + num ≤ n
    → ((x : Flags) → p (e x) ≡ false)
    → ((i : ℕ) → g i ≡ (if within beg (beg + num) i then e (f i) else f i))
    → count n p f ≡ before
    → count n p g ≡ after
    → after + span num beg p f ≡ before
taken n num beg before after p e f g room never flags was is = omega (
  arith,
  was,
  is,
  count-span n num beg p e f room,
  span_none num beg (λ x. p (e x)) f (λ i l h. never (f i)),
  count_congr n p g (λ i. if within beg (beg + num) i then e (f i) else f i) (λ i l. flags i),
)

module _ {W : Type 0} (os : Os W) (ps sys_page key : ℕ) where
  -- No page is dirty when none is resident.
  pub nothing_dirty : (s : State W) → IsValid s.ate → s.ate.l_pages ≡ 0 → s.ate.d_pages ≡ 0
  nothing_dirty s valid e = omega (
    arith,
    valid.loaded,
    valid.dirtied,
    count_mono s.ate.n_pages is_dirty is_resident s.ate.flags
        (λ i h d. ground (arith, valid.pages i h)),
  )

  -- On an entry that charges no page unless one is resident, the probe of an eviction returns some numbers of
  -- pages, converted to system pages. The operation then returns -1 only where a call can;
  -- otherwise exactly those numbers have been taken from the entry's charged and dirty pages.
  pub sbma_mevict-discharged :
      (posix : IsPosix os) (full : HasFullWrites os) (mlock : Bool) (addr len : ℕ) (s : State W)
      → 0 < ps
      → IsValid s.ate
      → FitsWrite ps s.ate
      → (s.ate.l_pages ≡ 0 → s.ate.c_pages ≡ 0)
      → s.ate.base ≤ addr
      → 0 < len
      → addr + len ≤ s.ate.base + s.ate.n_pages * ps
      → (c d : ℕ) × (sbma_mevict_probe os ps sys_page key addr len s
          ≡ done (vmm_to_sys ps sys_page c, vmm_to_sys ps sys_page d) s)
        × Ensures
            (λ _ t. (t.ate.c_pages + c ≡ s.ate.c_pages) × (t.ate.d_pages + d ≡ s.ate.d_pages))
            (λ _. ¬ IsReliable os)
            (sbma_mevict_int os ps sys_page key mlock addr len s)
  unfolding sbma_mevict_probe sbma_mevict_int
  sbma_mevict-discharged posix full mlock addr len s pos valid fits lazy low some_bytes high = (
    span num beg is_charged s.ate.flags,
    span num beg is_dirty s.ate.flags,
    refl,
    bind (vmm_swap_o-SwappedOut posix full ps key mlock pos beg num s valid room fits) λ m t. elim [
      | inl (inl e, _, _) ↦ absurd (omega (arith, nonempty, e))
      | inl (inr empty, _, e) ↦ returns (
          rw e (
            omega (
              arith,
              none_left s.ate.n_pages num beg is_charged s.ate.flags room
                  (omega (arith, valid.charged, lazy empty)),
            ),
            omega (
              arith,
              none_left s.ate.n_pages num beg is_dirty s.ate.flags room
                  (omega (arith, valid.dirtied, nothing_dirty s valid empty)),
            ),
          ))
      | inr out ↦ returns (
        taken s.ate.n_pages num beg s.ate.c_pages t.ate.c_pages is_charged evicted s.ate.flags
            t.ate.flags room (λ x. refl) out.flags valid.charged
            (rw out.n_pages at out.valid.charged),
        taken s.ate.n_pages num beg s.ate.d_pages t.ate.d_pages is_dirty evicted s.ate.flags
            t.ate.flags room (λ x. refl) out.flags valid.dirtied
            (rw out.n_pages at out.valid.dirtied),
      )
    ],
  )
    where
      beg : ℕ
      beg = outer_beg ps s.ate.base addr

      num : ℕ
      num = outer_end ps s.ate.base addr len - beg

      nonempty : beg < outer_end ps s.ate.base addr len
      nonempty = outer_nonempty ps s.ate.base addr len s.ate.n_pages pos low some_bytes high

      room : beg + num ≤ s.ate.n_pages
      room =
          omega (
            arith,
            nonempty,
            outer_fits ps s.ate.base addr len s.ate.n_pages pos low some_bytes high,
          )

  -- The probe of a clearing returns some number of pages, converted to system pages. The operation then
  -- returns -1 only where a call can; otherwise exactly that number has been taken from the entry's
  -- dirty pages, and the charged ones are as before.
  pub sbma_mclear-undirtied :
      (posix : IsPosix os) (addr len : ℕ) (s : State W)
      → 0 < ps
      → IsValid s.ate
      → s.ate.base ≤ addr
      → 0 < len
      → addr + len ≤ s.ate.base + s.ate.n_pages * ps
      → (d : ℕ) × (sbma_mclear_probe os ps sys_page key addr len s
          ≡ done (vmm_to_sys ps sys_page d) s)
        × Ensures
            (λ _ t. (t.ate.d_pages + d ≡ s.ate.d_pages) × (t.ate.c_pages ≡ s.ate.c_pages))
            (λ _. ¬ IsReliable os)
            (sbma_mclear_int os ps sys_page key addr len s)
  unfolding sbma_mclear_probe sbma_mclear_int
  sbma_mclear-undirtied posix addr len s pos valid low some_bytes high = (
    span num beg is_dirty s.ate.flags,
    refl,
    elim (Bool-cases (leb beg end)) [
      | inl e ↦ rw e (
          mono (vmm_swap_x-Cleared posix ps pos beg num s valid (room e))
            (λ _ t c. (
              taken s.ate.n_pages num beg s.ate.d_pages t.ate.d_pages is_dirty cleared s.ate.flags
                  t.ate.flags (room e) (λ x. refl) c.flags valid.dirtied
                  (rw c.n_pages at c.valid.dirtied),
              c.c_pages,
            ))
            (λ _ f. MprotectFailed-unreliable os f))
      | inr e ↦ rw e (returns (ground (arith, empty e), refl))
    ],
  )
    where
      beg : ℕ
      beg = inner_beg ps s.ate.base addr

      end : ℕ
      end = inner_end ps s.ate.base addr len

      num : ℕ
      num = end - beg

      fits : end ≤ s.ate.n_pages
      fits = inner_fits ps s.ate.base addr len s.ate.n_pages pos low some_bytes high

      room : leb beg end ≡ true → beg + num ≤ s.ate.n_pages
      room e = omega (arith, fits, ordered)
        where
          ordered : beg ≤ end
          ordered = leb→le beg end e

      empty : leb beg end ≡ false → span num beg is_dirty s.ate.flags ≡ 0
      empty e = span_none num beg is_dirty s.ate.flags (λ i l h. absurd (ground arith))

  -- With no page resident, the probe counts the charged pages of the range, which the eviction leaves charged.
  pub probe_lost :
      (mlock : Bool) (addr len : ℕ) (s : State W)
      → 0 < ps
      → IsValid s.ate
      → s.ate.l_pages ≡ 0
      → s.ate.base ≤ addr
      → 0 < len
      → addr + len ≤ s.ate.base + s.ate.n_pages * ps
      → (c : ℕ) × (c
          ≡ span
              (outer_end ps s.ate.base addr len - outer_beg ps s.ate.base addr)
              (outer_beg ps s.ate.base addr)
              is_charged
              s.ate.flags)
        × (c ≤ s.ate.c_pages)
        × (sbma_mevict_probe os ps sys_page key addr len s
            ≡ done (vmm_to_sys ps sys_page c, vmm_to_sys ps sys_page 0) s)
        × (sbma_mevict_int os ps sys_page key mlock addr len s ≡ done (vmm_to_sys ps sys_page 0) s)
  unfolding sbma_mevict_probe sbma_mevict_int vmm_swap_o
  probe_lost mlock addr len s pos valid empty low some_bytes high = (
    span num beg is_charged s.ate.flags,
    refl,
    omega (
      arith,
      valid.charged,
      count-span s.ate.n_pages num beg is_charged evicted s.ate.flags room,
      span_none num beg (λ x. is_charged (evicted x)) s.ate.flags (λ i l h. refl),
    ),
    ap
        (λ n.
          done
            (vmm_to_sys ps sys_page (span num beg is_charged s.ate.flags), vmm_to_sys ps sys_page n)
            s)
        clean,
    ground (arith, empty, nonempty, room),
  )
    where
      beg : ℕ
      beg = outer_beg ps s.ate.base addr

      num : ℕ
      num = outer_end ps s.ate.base addr len - beg

      nonempty : beg < outer_end ps s.ate.base addr len
      nonempty = outer_nonempty ps s.ate.base addr len s.ate.n_pages pos low some_bytes high

      room : beg + num ≤ s.ate.n_pages
      room =
          omega (
            arith,
            nonempty,
            outer_fits ps s.ate.base addr len s.ate.n_pages pos low some_bytes high,
          )

      clean : span num beg is_dirty s.ate.flags ≡ 0
      clean =
          none_left s.ate.n_pages num beg is_dirty s.ate.flags room
            (omega (arith, valid.dirtied, nothing_dirty s valid empty))
