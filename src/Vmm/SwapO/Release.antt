-- ===== src/Vmm/SwapO/Release.antt =====
-- The end of `vmm_swap_o`: munlock(2), mprotect(2) and madvise(2) on its pages.
use sbma.Common.{
  ℕ, ◌+◌, ◌*◌, ◌/◌, ◌<◌, ◌≡◌, refl, inl, inr, Bool, if◌then◌else◌, arith, Bool-cases, pure, within,
  within-pages, Ensures, ◌∙◌, checked, checked-Ensures, returns, bind,
}
use sbma.Os.{Os, prot_none, Same, Protected, Dropped, IsPosix, HasFullWrites, IsReliable}
use sbma.Vmm.{State, lift-Ensures}
use sbma.Vmm.SwapO.{release_pages}

module _ {W : Type 0} {os : Os W} (posix : IsPosix os) (full : HasFullWrites os) (ps key : ℕ)
    (mlock : Bool) (ps_pos : 0 < ps) where
  -- What the calls behind the loop leave of memory, protection and file.
  pub record Released (base beg num : ℕ) (v w : W) : Type 0 where
    pub mem :
        (x : ℕ)
        → os.mem w (base + x) ≡ (if within beg (beg + num) (x / ps) then 0 else os.mem v (base + x))
    pub prot :
        (x : ℕ)
        → os.prot w (base + x)
          ≡ (if within beg (beg + num) (x / ps) then prot_none else os.prot v (base + x))
    pub file : (x : ℕ) → os.file w key x ≡ os.file v key x
    pub size : os.size w key ≡ os.size v key

  -- A range of pages, as the range of their addresses.
  within_base :
      (base beg num x : ℕ)
      → within (base + beg * ps) (base + beg * ps + num * ps) (base + x)
        ≡ within beg (beg + num) (x / ps)
  within_base base beg num x = ground (arith, within-pages ps x ps_pos beg num)

  unlock-Same :
      (a n : ℕ) (w : W)
      → Ensures
          (λ _ u. Same os w u)
          (λ _. ¬ IsReliable os)
          ((if mlock then checked (os.munlock a n) else pure tt) w)
  unlock-Same a n w = elim (Bool-cases mlock) [
    | inl e ↦ rw e (
        checked-Ensures (os.munlock a n) w (λ _. posix.munlock_same a n w)
          (λ e r. ground (arith, r.munlock_true a n w)))
    | inr e ↦ rw e (
        returns
          (record { mem = λ x. refl; prot = λ x. refl; file = λ k x. refl; size = λ k. refl }))
  ]

  Released-Dropped :
      (base beg num : ℕ) {u v w z : W}
      → Same os u v
      → Protected os (base + beg * ps) (num * ps) prot_none v w
      → Dropped os (base + beg * ps) (num * ps) w z
      → Released base beg num u z
  Released-Dropped base beg num same protected dropped = record {
    mem = λ x. ground (
      arith,
      within_base base beg num x,
      dropped.mem (base + x),
      protected.mem (base + x),
      same.mem (base + x),
    );
    prot = λ x. ground (
      arith,
      within_base base beg num x,
      dropped.prot (base + x),
      protected.prot (base + x),
      same.prot (base + x),
    );
    file = λ x. dropped.file key x ∙ (protected.file key x ∙ same.file key x);
    size = dropped.size key ∙ (protected.size key ∙ same.size key);
  }

  pub release_pages-Released :
      (beg num : ℕ) (s : State W)
      → Ensures
          (λ _ t. Released s.ate.base beg num s.world t.world × (t.ate ≡ s.ate))
          (λ _. ¬ IsReliable os)
          (release_pages os ps mlock key beg num s)
  unfolding release_pages
  release_pages-Released beg num s =
      let a = s.ate.base + beg * ps in
      let n = num * ps in
      lift-Ensures s (
        bind (unlock-Same a n s.world) λ _ u same.
          bind
            (checked-Ensures {P = λ _ v. Protected os a n prot_none u v} (os.mprotect a n prot_none)
              u (λ e. posix.mprotect_done a n prot_none u e)
              (λ e r. ground (arith, r.mprotect_true a n prot_none u)))
            λ _ v protected.
              checked-Ensures (os.dontneed a n) v
                (λ e.
                  Released-Dropped s.ate.base beg num same protected (posix.dontneed_done a n v e))
                (λ e r. ground (arith, r.dontneed_true a n v)))
