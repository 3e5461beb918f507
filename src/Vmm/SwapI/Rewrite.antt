-- ===== src/Vmm/SwapI/Rewrite.antt =====
-- What follows the loop of `vmm_swap_i` without ghost pages: the protection of the pages.
use sbma.Common.{
  ℕ, zero, suc, ◌+◌, ◌*◌, ◌≤◌, ◌<◌, ◌≡◌, refl, inl, inr, arith, Bool-cases, Ensures, returns, bind,
  mono, ◌∙◌, subst,
}
use sbma.Mmu.{Ate}
use sbma.Os.{Os, IsPosix, IsReliable, prot_rw}
use sbma.Vmm.{State}
use sbma.Vmm.SwapI.{rewrite_dirty}
use sbma.Vmm.Protect.{Reprotected, set_if, one_page, Reprotected-one_page, Reprotected-no_page}
use sbma.Vmm.SwapI.Loop.{run_place}

module _ {W : Type 0} {os : Os W} (posix : IsPosix os) (ps key : ℕ) (ps_pos : 0 < ps) where
  module _ (base beg : ℕ) where
    pub rewrite_dirty-Reprotected :
        (k ip : ℕ) (s : State W)
        → beg ≤ ip
        → Ensures
            (λ _ t.
              Reprotected os ps base ip
                (ip + k)
                (set_if posix ps ps_pos base prot_rw (λ i. (s.ate.flags i).dirty))
                s.world
                t.world
              × (t.ate ≡ s.ate))
            (λ _. ¬ IsReliable os)
            (rewrite_dirty os ps key k (base + beg * ps) beg ip s)
    unfolding rewrite_dirty
    rewrite_dirty-Reprotected zero ip s low = returns (
      record { mem = λ x. refl; prot = λ x. ground arith; file = λ j x. refl; size = λ j. refl },
      refl,
    )
    rewrite_dirty-Reprotected (suc k) ip s low = elim (Bool-cases (s.ate.flags ip).dirty) [
      | inl e ↦
          rw (e, run_place ps beg ip base low)
            (bind (one_page posix ps ps_pos base prot_rw ip s) λ _ t (now, same).
              mono (rewrite_dirty-Reprotected k (ip + 1) t (omega arith))
                (λ _ u (rest, same'). (
                  Reprotected-one_page posix ps ps_pos base prot_rw k ip
                      (λ i. (s.ate.flags i).dirty) e now
                      (subst
                        (λ (a : Ate).
                          Reprotected os ps base (ip + 1) (ip + 1 + k)
                            (set_if posix ps ps_pos base prot_rw (λ i. (a.flags i).dirty)) t.world
                            u.world)
                        same rest),
                  same' ∙ same,
                ))
                (λ _ x. x))
      | inr e ↦ rw e (
          mono (rewrite_dirty-Reprotected k (ip + 1) s (omega arith))
            (λ _ u (rest, same'). (
              Reprotected-no_page posix ps ps_pos base prot_rw k ip (λ i. (s.ate.flags i).dirty) e
                  rest,
              same',
            ))
            (λ _ x. x))
    ]
