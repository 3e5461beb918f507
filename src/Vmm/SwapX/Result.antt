-- ===== src/Vmm/SwapX/Result.antt =====
-- What `vmm_swap_x` does to the entry and the protection of its pages.
use sbma.Common.{
  ℕ, zero, suc, ◌+◌, ◌-◌, ◌*◌, ◌/◌, ◌≤◌, ◌<◌, ◌≡◌, refl, inl, inr, true, false, arith, bit,
  count-update, count_pos, update, within, Bool-cases, if◌then◌else◌, Ensures, returns, bind, mono,
  subst, done, ◌∙◌, checked, and_then, ap,
}
use sbma.Mmu.{Ate, is_resident, is_charged, is_dirty}
use sbma.Mmu.Valid.{IsValid}
use sbma.Os.{Os, prot_read, IsPosix}
use sbma.Vmm.{State, on_world}
use sbma.Vmm.Protect.{Reprotected, MprotectFailed, one_page_or_failed}
use sbma.Vmm.SwapX.{cleared, swap_x_page, swap_x_loop, vmm_swap_x}

-- The entry with the page `ip` neither dirty nor on disk.
abbrev clear_at : {W : Type 0} → ℕ → State W → State W
clear_at ip s = record s {
  ate = record s.ate {
    d_pages = s.ate.d_pages - bit (is_dirty (s.ate.flags ip));
    flags = update s.ate.flags ip (cleared (s.ate.flags ip));
  };
}

module _ {W : Type 0} (os : Os W) (page_size : ℕ) where
  -- The pages `[beg, j)` are cleared.
  pub record Cleared (s₀ : State W) (beg j : ℕ) (s : State W) : Type 0 where
    pub n_pages : s.ate.n_pages ≡ s₀.ate.n_pages
    pub l_pages : s.ate.l_pages ≡ s₀.ate.l_pages
    pub c_pages : s.ate.c_pages ≡ s₀.ate.c_pages
    pub base : s.ate.base ≡ s₀.ate.base
    pub flags :
        (i : ℕ)
        → s.ate.flags i ≡ (if within beg j i then cleared (s₀.ate.flags i) else s₀.ate.flags i)
    pub valid : IsValid s.ate
    pub mem : (x : ℕ) → os.mem s.world x ≡ os.mem s₀.world x
    pub file : (k x : ℕ) → os.file s.world k x ≡ os.file s₀.world k x
    pub size : (k : ℕ) → os.size s.world k ≡ os.size s₀.world k
    pub prot :
        (x : ℕ)
        → os.prot s.world (s₀.ate.base + x) ≡ (
            if within beg j (x / page_size)
            then (if (s₀.ate.flags (x / page_size)).dirty
                then prot_read
                else os.prot s₀.world (s₀.ate.base + x))
            else os.prot s₀.world (s₀.ate.base + x))

module _ {W : Type 0} {os : Os W} (posix : IsPosix os) (ps : ℕ) (ps_pos : 0 < ps) where
  clear_at-IsValid :
      (ip : ℕ) (s : State W) → IsValid s.ate → ip < s.ate.n_pages → IsValid (clear_at ip s).ate
  clear_at-IsValid ip s valid high = record {
    loaded = ground (
      arith,
      valid.loaded,
      count-update s.ate.n_pages ip is_resident s.ate.flags (cleared (s.ate.flags ip)) high,
    );
    charged = ground (
      arith,
      valid.charged,
      count-update s.ate.n_pages ip is_charged s.ate.flags (cleared (s.ate.flags ip)) high,
    );
    dirtied = ground (
      arith,
      valid.dirtied,
      count-update s.ate.n_pages ip is_dirty s.ate.flags (cleared (s.ate.flags ip)) high,
    );
    pages = λ i h. ground (arith, valid.pages i h);
  }

  clean_page :
      (ip : ℕ) (s : State W)
      → (s.ate.flags ip).dirty ≡ false
      → swap_x_page os ps ip s ≡ done tt (clear_at ip s)
  unfolding swap_x_page
  clean_page ip s e = ground arith

  dirty_page :
      (ip : ℕ) (s : State W)
      → (s.ate.flags ip).dirty ≡ true
      → 0 < s.ate.d_pages
      → swap_x_page os ps ip s
        ≡ and_then
            (on_world (checked (os.mprotect (s.ate.base + ip * ps) ps prot_read)) s)
            (λ _ t. done tt (clear_at ip t))
  unfolding swap_x_page
  dirty_page ip s e pos = ground arith

  Cleared-clear_at :
      {s₀ s t : State W} (beg ip : ℕ)
      → Cleared os ps s₀ beg ip s
      → beg ≤ ip
      → ip < s₀.ate.n_pages
      → Reprotected os ps s₀.ate.base ip
          (ip + 1)
          (λ i p. if (s.ate.flags i).dirty then prot_read else p)
          s.world
          t.world
      → t.ate ≡ (clear_at ip s).ate
      → Cleared os ps s₀ beg (ip + 1) t
  Cleared-clear_at {s₀} {s} {t} beg ip c low high now e = record {
    n_pages = rw e c.n_pages;
    l_pages = rw e c.l_pages;
    c_pages = rw e c.c_pages;
    base = rw e c.base;
    flags = rw e (λ i. ground (arith, c.flags i, c.flags ip));
    valid = rw e (clear_at-IsValid ip s c.valid (omega (arith, c.n_pages)));
    mem = λ x. now.mem x ∙ c.mem x;
    file = λ k x. now.file k x ∙ c.file k x;
    size = λ k. now.size k ∙ c.size k;
    prot = λ x. ground (arith, now.prot x, c.prot x, c.flags ip, c.flags (x / ps));
  }

  swap_x_page-Cleared :
      {s₀ s : State W} (beg ip : ℕ)
      → Cleared os ps s₀ beg ip s
      → beg ≤ ip
      → ip < s₀.ate.n_pages
      → Ensures
          (λ _ t. Cleared os ps s₀ beg (ip + 1) t)
          (λ t. MprotectFailed os t.world)
          (swap_x_page os ps ip s)
  unfolding swap_x_page
  swap_x_page-Cleared {s₀} {s} beg ip c low high = elim (Bool-cases (s.ate.flags ip).dirty) [
    | inl e ↦ rw (dirty_page ip s e (omega (arith, dirty_pos e))) (
        bind (one_page_or_failed posix ps ps_pos s.ate.base prot_read ip s) λ _ t (now, same).
          returns (
            Cleared-clear_at beg ip c low high (at_base e now) (
              ap
                (λ (a : Ate). record a {
                  d_pages = a.d_pages - bit (is_dirty (a.flags ip));
                  flags = update a.flags ip (cleared (a.flags ip));
                })
                same)))
    | inr e ↦
        rw (clean_page ip s e) (returns (Cleared-clear_at beg ip c low high (untouched e) refl))
  ]
    where
      dirty_pos : (s.ate.flags ip).dirty ≡ true → 0 < s.ate.d_pages
      dirty_pos e = omega (
        arith,
        c.valid.dirtied,
        count_pos s.ate.n_pages ip is_dirty s.ate.flags (omega (arith, c.n_pages)) e,
      )

      at_base :
          {v w : W}
          → (s.ate.flags ip).dirty ≡ true
          → Reprotected os ps s.ate.base ip (ip + 1) (λ _ _. prot_read) v w
          → Reprotected os ps s₀.ate.base ip
              (ip + 1)
              (λ i p. if (s.ate.flags i).dirty then prot_read else p)
              v
              w
      at_base e now = record {
        mem = now.mem;
        prot = λ x. ground (arith, c.base, now.prot x);
        file = now.file;
        size = now.size;
      }

      untouched :
          (s.ate.flags ip).dirty ≡ false
          → Reprotected os ps s₀.ate.base ip
              (ip + 1)
              (λ i p. if (s.ate.flags i).dirty then prot_read else p)
              s.world
              s.world
      untouched e = record {
        mem = λ x. refl;
        prot = λ x. ground arith;
        file = λ k x. refl;
        size = λ k. refl;
      }

  swap_x_loop-Cleared :
      {s₀ : State W} (beg k ip : ℕ) {s : State W}
      → Cleared os ps s₀ beg ip s
      → beg ≤ ip
      → ip + k ≤ s₀.ate.n_pages
      → Ensures
          (λ _ t. Cleared os ps s₀ beg (ip + k) t)
          (λ t. MprotectFailed os t.world)
          (swap_x_loop os ps k ip s)
  unfolding swap_x_loop
  swap_x_loop-Cleared {s₀} beg zero ip {s} c low high =
      returns (subst (λ j. Cleared os ps s₀ beg j s) (omega arith) c)
  swap_x_loop-Cleared {s₀} beg (suc k) ip c low high =
      bind (swap_x_page-Cleared beg ip c low (omega arith)) λ _ t c'.
        mono (swap_x_loop-Cleared beg k (ip + 1) c' (omega arith) (omega arith))
          (λ _ u c''. subst (λ j. Cleared os ps s₀ beg j u) (omega arith) c'') (λ _ x. x)

  enters :
      (beg num : ℕ) (s : State W)
      → beg + num ≤ s.ate.n_pages
      → vmm_swap_x os ps beg num s ≡ swap_x_loop os ps num beg s
  unfolding vmm_swap_x swap_x_loop
  enters beg zero s room = ground arith
  enters beg (suc n) s room = ground arith

  -- `vmm_swap_x` on pages of a valid entry never aborts, and returns -1 only when a call of mprotect(2)
  -- has returned -1 and left the world as it then is. Otherwise the entry is valid, exactly the pages of
  -- the range are neither dirty nor on disk, the dirty ones are read-only, and what is resident and
  -- charged, the memory and the files are as before.
  pub vmm_swap_x-Cleared :
      (beg num : ℕ) (s : State W)
      → IsValid s.ate
      → beg + num ≤ s.ate.n_pages
      → Ensures
          (λ _ t. Cleared os ps s beg (beg + num) t)
          (λ t. MprotectFailed os t.world)
          (vmm_swap_x os ps beg num s)
  vmm_swap_x-Cleared beg num s valid room =
      rw (enters beg num s room) (swap_x_loop-Cleared beg num beg start (omega arith) room)
    where
      start : Cleared os ps s beg beg s
      start = record {
        n_pages = refl;
        l_pages = refl;
        c_pages = refl;
        base = refl;
        flags = λ i. ground arith;
        valid = valid;
        mem = λ x. refl;
        file = λ k x. refl;
        size = λ k. refl;
        prot = λ x. ground arith;
      }
