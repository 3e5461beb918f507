-- ===== src/Vmm/SwapO/Result.antt =====
-- What `vmm_swap_o` does to the entry, the file, the memory and its protection.
use sbma.Common.{sym, count-le}
use sbma.Common.{
  ℕ, ◌+◌, ◌-◌, ◌*◌, ◌/◌, ◌≤◌, ◌<◌, ◌≡◌, refl, ◌⊎◌, ◌≢◌, inl, inr, Bool, true, ◌&&◌, none,
  if◌then◌else◌, arith, within, done, Ensures, ◌∙◌, checked-Ensures, returns, bind, mono, subst,
}
use native.Mathlib.Decide.{ℕ_discrete}
use sbma.Mmu.{Ate, is_dirty, evicted}
use sbma.Mmu.Valid.{FitsWrite, IsValid}
use sbma.Os.{Os, Same-trans, prot_none, Same, IsPosix, HasFullWrites, IsReliable}
use sbma.Vmm.{as_int, State, lift-Ensures}
use sbma.Vmm.SwapO.{swap_o_pages, vmm_swap_o}
use sbma.Vmm.SwapO.Going.{Going}
use sbma.Vmm.SwapO.Release.{Released, release_pages-Released}
use sbma.Vmm.SwapO.Loop.{swap_o_loop-Going}

module _ {W : Type 0} (os : Os W) (page_size key : ℕ) where
  -- The pages `[beg, beg+num)` are evicted, `m` of them written.
  pub record SwappedOut (s₀ : State W) (beg num m : ℕ) (s : State W) : Type 0 where
    pub valid : IsValid s.ate
    pub n_pages : s.ate.n_pages ≡ s₀.ate.n_pages
    pub base : s.ate.base ≡ s₀.ate.base
    pub flags :
        (i : ℕ)
        → s.ate.flags i
          ≡ (if within beg (beg + num) i then evicted (s₀.ate.flags i) else s₀.ate.flags i)
    pub written : s.ate.d_pages + m ≡ s₀.ate.d_pages
    pub size : os.size s₀.world key ≤ os.size s.world key
    pub stored :
        (i : ℕ)
        → within beg (beg + num) i ≡ true
        → (s₀.ate.flags i).dirty ≡ true
        → (i + 1) * page_size ≤ os.size s.world key
    pub mem :
        (x : ℕ)
        → os.mem s.world (s₀.ate.base + x) ≡ (
            if within beg (beg + num) (x / page_size) then 0 else os.mem s₀.world (s₀.ate.base + x))
    pub prot :
        (x : ℕ)
        → os.prot s.world (s₀.ate.base + x) ≡ (
            if within beg (beg + num) (x / page_size)
            then prot_none
            else os.prot s₀.world (s₀.ate.base + x))
    pub file :
        (x : ℕ)
        → os.file s.world key x ≡ (
            if within beg (beg + num) (x / page_size) && (s₀.ate.flags (x / page_size)).dirty
            then os.mem s₀.world (s₀.ate.base + x)
            else os.file s₀.world key x)

module _ {W : Type 0} {os : Os W} (posix : IsPosix os) (full : HasFullWrites os) (ps key : ℕ)
    (mlock : Bool) (ps_pos : 0 < ps) where
  started :
      {s₀ s : State W} (beg : ℕ)
      → IsValid s₀.ate
      → Same os s₀.world s.world
      → s.ate ≡ s₀.ate
      → Going os ps key s₀ beg beg beg none 0 s
  started {s₀} beg valid same e = record {
    n_pages = ground (arith, e);
    base = ground (arith, e);
    fits = tt;
    flags = λ i. rw e (ground arith);
    loaded = rw e valid.loaded;
    charged = rw e valid.charged;
    dirtied = rw e (omega (arith, valid.dirtied));
    written = rw e (omega arith);
    run_dirty = λ i h. cc;
    size = omega (arith, same.size key);
    stored = λ i h. ground arith;
    mem = same.mem;
    prot = same.prot;
    file = λ x. ground (arith, same.file key x);
  }

  finished :
      {s₀ s t : State W} {beg num m : ℕ} {w : W}
      → IsValid s₀.ate
      → beg + num ≤ s₀.ate.n_pages
      → Going os ps key s₀ beg (beg + num) (beg + num) none m s
      → Same os s.world w
      → Released posix full ps key mlock ps_pos s.ate.base beg num w t.world
      → t.ate ≡ s.ate
      → SwappedOut os ps key s₀ beg num m t
  finished {s₀} {s} {t} {beg} {num} {m} valid room going same rel e = record {
    valid = rw e (record {
      loaded = rw going.n_pages going.loaded;
      charged = rw going.n_pages going.charged;
      dirtied = rw going.n_pages (omega (arith, going.dirtied));
      pages = λ i h. ground (arith, going.n_pages, going.flags i, valid.pages i);
    });
    n_pages = rw e going.n_pages;
    base = rw e going.base;
    flags = rw e going.flags;
    written = rw e going.written;
    size = omega (arith, going.size, same.size key, rel.size);
    stored = λ i h d. omega (arith, going.stored i (ground arith), same.size key, rel.size);
    mem = λ x.
        ground
          (arith, going.base, rel.mem x, same.mem (s.ate.base + x), going.mem (s.ate.base + x));
    prot = λ x.
        ground
          (arith, going.base, rel.prot x, same.prot (s.ate.base + x), going.prot (s.ate.base + x));
    file = λ x. ground (arith, rel.file x, same.file key x, going.file x);
  }

  -- An int holds the number of pages.
  same_count :
      (s₀ : State W) {beg num : ℕ} (m : ℕ) (t : State W)
      → IsValid s₀.ate
      → FitsWrite ps s₀.ate
      → SwappedOut os ps key s₀ beg num m t
      → as_int m ≡ m
  same_count s₀ m t valid fits out = ground (arith, few)
    where
      bound : s₀.ate.n_pages ≤ s₀.ate.n_pages * ps
      bound = grind arith

      few : m < 2147483648
      few = omega (
        arith,
        out.written,
        valid.dirtied,
        fits,
        bound,
        count-le s₀.ate.n_pages is_dirty s₀.ate.flags,
      )

  swap_o_pages-SwappedOut :
      (beg num : ℕ) (s₀ : State W)
      → IsValid s₀.ate
      → beg + num ≤ s₀.ate.n_pages
      → FitsWrite ps s₀.ate
      → Ensures
          (λ m t. SwappedOut os ps key s₀ beg num m t)
          (λ _. ¬ IsReliable os)
          (swap_o_pages os ps mlock key beg num s₀)
  unfolding swap_o_pages
  swap_o_pages-SwappedOut beg num s₀ valid room fits =
      bind
        (lift-Ensures s₀ (
          checked-Ensures {P = λ _ w. Same os s₀.world w} os.snprintf s₀.world
            (λ _. posix.snprintf_same s₀.world) (λ e r. ground (arith, r.snprintf_true s₀.world))))
        λ _ s₁ (same₁, e₁).
          bind
            (lift-Ensures s₁ (
              checked-Ensures {P = λ _ w. Same os s₁.world w} (os.open_file key) s₁.world
                (λ _. posix.open_same key s₁.world)
                (λ e r. ground (arith, r.open_true key s₁.world))))
            λ _ s₂ (same₂, e₂).
              bind
                (swap_o_loop-Going posix full ps key mlock ps_pos valid fits num beg none 0
                  (opened s₁ s₂ same₁ e₁ same₂ e₂) (omega arith) room)
                λ m s₃ going.
                  bind
                    (lift-Ensures s₃ (
                      checked-Ensures {P = λ _ w. Same os s₃.world w} (os.close key) s₃.world
                        (λ _. posix.close_same key s₃.world)
                        (λ e r. ground (arith, r.close_true key s₃.world))))
                    λ _ s₄ (same₄, e₄).
                      bind (release_pages-Released posix full ps key mlock ps_pos beg num s₄)
                        λ _ t (rel, e).
                          let out = closed s₃ s₄ t m going same₄ e₄ rel e in
                          returns (
                            subst (λ c. SwappedOut os ps key s₀ beg num c t)
                              (sym (same_count s₀ m t valid fits out)) out)
    where
      opened :
          (s₁ s₂ : State W)
          → Same os s₀.world s₁.world
          → s₁.ate ≡ s₀.ate
          → Same os s₁.world s₂.world
          → s₂.ate ≡ s₁.ate
          → Going os ps key s₀ beg beg beg none 0 s₂
      opened s₁ s₂ same₁ e₁ same₂ e₂ = started beg valid (Same-trans same₁ same₂) (e₂ ∙ e₁)

      closed :
          (s₃ s₄ t : State W) (m : ℕ)
          → Going os ps key s₀ beg (beg + num) (beg + num) none m s₃
          → Same os s₃.world s₄.world
          → s₄.ate ≡ s₃.ate
          → Released posix full ps key mlock ps_pos s₄.ate.base beg num s₄.world t.world
          → t.ate ≡ s₄.ate
          → SwappedOut os ps key s₀ beg num m t
      closed s₃ s₄ t m going same e rel e' =
          finished {t = t} valid room going same
            (subst
              (λ (a : Ate). Released posix full ps key mlock ps_pos a.base beg num s₄.world t.world)
              e rel)
            (e' ∙ e)

  skips :
      (beg num : ℕ) (s : State W)
      → num ≤ s.ate.n_pages
      → beg ≤ s.ate.n_pages - num
      → ((num ≡ 0) ⊎ (s.ate.l_pages ≡ 0))
      → vmm_swap_o os ps mlock key beg num s ≡ done 0 s
  unfolding vmm_swap_o
  skips beg num s h k q = ground arith

  works :
      (beg num : ℕ) (s : State W)
      → num ≤ s.ate.n_pages
      → beg ≤ s.ate.n_pages - num
      → num ≢ 0
      → s.ate.l_pages ≢ 0
      → vmm_swap_o os ps mlock key beg num s ≡ swap_o_pages os ps mlock key beg num s
  unfolding vmm_swap_o
  works beg num s h k q r = ground arith

  -- In a system where no write(2) of at most 0x7ffff000 bytes is short, `vmm_swap_o` on pages of a valid
  -- entry whose pages fit into one such write never aborts or loops forever. It returns -1 only in a
  -- system where a call can return -1. Otherwise it returns the number of dirty pages it wrote: it does
  -- nothing if the range is empty or no page is resident, and evicts exactly the range if not.
  pub vmm_swap_o-SwappedOut :
      (beg num : ℕ) (s₀ : State W)
      → IsValid s₀.ate
      → beg + num ≤ s₀.ate.n_pages
      → FitsWrite ps s₀.ate
      → Ensures
          (λ m t.
            (((num ≡ 0) ⊎ (s₀.ate.l_pages ≡ 0)) × (m ≡ 0) × (t ≡ s₀))
            ⊎ SwappedOut os ps key s₀ beg num m t)
          (λ _. ¬ IsReliable os)
          (vmm_swap_o os ps mlock key beg num s₀)
  vmm_swap_o-SwappedOut beg num s₀ valid room fits = elim (ℕ_discrete num 0) [
    | yes e ↦
        rw (skips beg num s₀ (omega arith) (omega arith) (inl e))
          (returns (inl (inl e, refl, refl)))
    | no ne ↦ elim (ℕ_discrete s₀.ate.l_pages 0) [
      | yes e ↦
          rw (skips beg num s₀ (omega arith) (omega arith) (inr e))
            (returns (inl (inr e, refl, refl)))
      | no ne' ↦
          rw (works beg num s₀ (omega arith) (omega arith) ne ne')
            (mono (swap_o_pages-SwappedOut beg num s₀ valid room fits) (λ m t p. inr p) (λ _ x. x))
    ]
  ]
