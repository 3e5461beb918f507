-- ===== src/Vmm/SwapO/Loop.antt =====
-- The loop of `vmm_swap_o`: writing a run, one page, and all pages.
use sbma.Common.{
  ℕ, zero, suc, ◌+◌, ◌-◌, ◌*◌, ◌/◌, ◌≤◌, ◌<◌, ◌≡◌, refl, inl, inr, Bool, true, false, Option, none,
  some, leb, arith, Bool-cases, within-pages, page_reached, or_else, in_run, done, Ensures, ◌∙◌,
  assert, returns, bind, mono, subst, sym,
}
use sbma.Mmu.Valid.{FitsWrite, IsValid}
use sbma.Os.{Os, IsPosix, HasFullWrites, IsReliable}
use sbma.Vmm.{State, lift-Ensures}
use sbma.Vmm.Io.Stored.{Stored, vmm_write-Stored}
use sbma.Vmm.SwapO.{write_run, swap_o_page, swap_o_loop}
use sbma.Vmm.SwapO.Going.{
  Going, dropped, drop_clean-eq, drop_dirty-eq, Going-clean, Going-dirty, untouched, page_ok-ip,
  loaded_pos, charged_pos,
}

module _ {W : Type 0} {os : Os W} (posix : IsPosix os) (full : HasFullWrites os) (ps key : ℕ)
    (mlock : Bool) (ps_pos : 0 < ps) where
  Going-written :
      {s₀ s t : State W} {beg j ip f m : ℕ}
      → Going os ps key s₀ beg j ip (some f) m s
      → ip ≤ j
      → Stored os key (s.ate.base + f * ps) ((ip - f) * ps) (f * ps) s.world t.world
      → t.ate ≡ s.ate
      → Going os ps key s₀ beg j j none
          (m + (ip - f))
          (record t { ate = record t.ate { d_pages = t.ate.d_pages - (ip - f) } })
  Going-written {s₀} {s} {t} {beg} {j} {ip} {f} going le stored same = record {
    n_pages = ground (arith, going.n_pages);
    base = ground (arith, going.base);
    fits = tt;
    flags = λ i. ground (arith, going.flags i);
    loaded = rw same going.loaded;
    charged = rw same going.charged;
    dirtied = rw same (omega (arith, going.dirtied));
    written = rw same (omega (arith, going.written, going.dirtied));
    run_dirty = λ i h. cc;
    size = omega (arith, going.size, stored.size);
    stored = λ i h. elim (Bool-cases (in_run (some f) ip i)) [
      | inl e ↦
          page_reached ps f ip i (os.size t.world key) (omega (arith, going.fits)) (ground arith)
            stored.reached
      | inr e ↦ omega (arith, going.stored i (ground arith), stored.size)
    ];
    mem = λ x. stored.mem x ∙ going.mem x;
    prot = λ x. stored.prot x ∙ going.prot x;
    file = λ x. ground (
      arith,
      stored.file x,
      going.file x,
      going.fits,
      going.base,
      going.run_dirty (x / ps),
      going.mem (s.ate.base + f * ps + (x - f * ps)),
      within-pages ps x ps_pos f (ip - f),
    );
  }

  write_run-Going :
      {s₀ s : State W} {beg j ip m : ℕ} (run : Option ℕ)
      → Going os ps key s₀ beg j ip run m s
      → ip ≤ j
      → j ≤ s₀.ate.n_pages
      → FitsWrite ps s₀.ate
      → Ensures
          (λ (run', m') t. (run' ≡ none) × Going os ps key s₀ beg j j none m' t)
          (λ _. ¬ IsReliable os)
          (write_run os ps mlock key ip run m s)
  unfolding write_run
  write_run-Going none going le high fits = returns (
    refl,
    record {
      n_pages = going.n_pages;
      base = going.base;
      fits = tt;
      flags = going.flags;
      loaded = going.loaded;
      charged = going.charged;
      dirtied = going.dirtied;
      written = going.written;
      run_dirty = λ i h. cc;
      size = going.size;
      stored = going.stored;
      mem = going.mem;
      prot = going.prot;
      file = going.file;
    },
  )
  write_run-Going {s₀} {s} {beg} {j} {ip} {m} (some f) going le high fits =
      bind
        (lift-Ensures s (
          vmm_write-Stored os posix full key (s.ate.base + f * ps) ((ip - f) * ps) (f * ps) s.world
            (run_pos going.fits) (few going.fits)))
        λ _ t (stored, same).
          rw (assert, enough t same) (returns (refl, Going-written going le stored same))
    where
      few : (beg ≤ f) × (f < ip) → (ip - f) * ps ≤ 2147479552
      few range = omega (arith, fits, product)
        where
          product : (ip - f) * ps ≤ s₀.ate.n_pages * ps
          product = grind arith

      run_pos : (beg ≤ f) × (f < ip) → 0 < (ip - f) * ps
      run_pos fits = grind arith

      enough : (t : State W) → t.ate ≡ s.ate → leb (ip - f) t.ate.d_pages ≡ true
      enough t same = ground (arith, going.dirtied)

  module _ {s₀ : State W} {beg : ℕ} (valid : IsValid s₀.ate) (small : FitsWrite ps s₀.ate) where
    swap_o_page-Going :
        {s : State W} (ip : ℕ) (run : Option ℕ) (m : ℕ)
        → Going os ps key s₀ beg ip ip run m s
        → beg ≤ ip
        → ip < s₀.ate.n_pages
        → Ensures
            (λ (run', m') t. Going os ps key s₀ beg (ip + 1) (ip + 1) run' m' t)
            (λ _. ¬ IsReliable os)
            (swap_o_page os ps mlock key ip run m s)
    unfolding swap_o_page
    swap_o_page-Going {s} ip run m going low high = elim (Bool-cases (s₀.ate.flags ip).dirty) [
      | inl dirty ↦ rw (paged_dirty dirty) (returns (Going-dirty valid going low high dirty))
      | inr clean ↦ rw (paged_clean clean) (
          mono
            (write_run-Going run (Going-clean valid going low high clean) (omega arith)
              (omega arith) small)
            (λ (run', m') t (e, g).
              subst (λ r. Going os ps key s₀ beg (ip + 1) (ip + 1) r m' t) (sym e) g)
            (λ _ x. x))
    ]
      where
        paged_dirty :
            (s₀.ate.flags ip).dirty ≡ true
            → swap_o_page os ps mlock key ip run m s ≡ done (or_else run ip, m) (dropped ip s)
        paged_dirty dirty = ground (
          arith,
          untouched valid going low high,
          page_ok-ip valid going low high,
          loaded_pos valid going low high,
          charged_pos valid going low high,
          drop_dirty-eq os ps mlock key ip s,
        )

        paged_clean :
            (s₀.ate.flags ip).dirty ≡ false
            → swap_o_page os ps mlock key ip run m s
              ≡ write_run os ps mlock key ip run m (dropped ip s)
        paged_clean clean = ground (
          arith,
          untouched valid going low high,
          page_ok-ip valid going low high,
          loaded_pos valid going low high,
          charged_pos valid going low high,
          drop_clean-eq os ps mlock key ip s,
        )

    pub swap_o_loop-Going :
        (k ip : ℕ) (run : Option ℕ) (m : ℕ) {s : State W}
        → Going os ps key s₀ beg ip ip run m s
        → beg ≤ ip
        → ip + k ≤ s₀.ate.n_pages
        → Ensures
            (λ m' t. Going os ps key s₀ beg (ip + k) (ip + k) none m' t)
            (λ _. ¬ IsReliable os)
            (swap_o_loop os ps mlock key k ip run m s)
    unfolding swap_o_loop
    swap_o_loop-Going zero ip run m going low high =
        bind (write_run-Going run going (omega arith) (omega arith) small) λ (run', m') t (e, g).
          returns (subst (λ j. Going os ps key s₀ beg j j none m' t) (omega arith) g)
    swap_o_loop-Going (suc k) ip run m going low high =
        bind (swap_o_page-Going ip run m going low (omega arith)) λ (run', m') t g.
          mono (swap_o_loop-Going k (ip + 1) run' m' g (omega arith) (omega arith))
            (λ m'' u h. subst (λ j. Going os ps key s₀ beg j j none m'' u) (omega arith) h)
            (λ _ x. x)
