-- ===== src/Vmm/SwapO/Going.antt =====
-- The loop of `vmm_swap_o`, page by page: what is true at its head, and that each round keeps it.
use sbma.Common.{
  ℕ, ◌+◌, ◌-◌, ◌*◌, ◌/◌, ◌≤◌, ◌<◌, ◌≡◌, Bool, true, false, not, ◌&&◌, Option, if◌then◌else◌, arith,
  bit, count, count-update, count_pos, update, within, or_else, pending, in_run, RunFits,
  RunFits-or_else, pending-or_else, in_run-or_else, done,
}
use sbma.Mmu.{is_resident, is_charged, is_dirty, evicted}
use sbma.Mmu.Valid.{IsValid, page_ok}
use sbma.Os.{Os}
use sbma.Vmm.{State}
use sbma.Vmm.SwapO.{drop_clean, drop_dirty}

-- The entry without the page `ip`.
abbrev pub dropped : {W : Type 0} → ℕ → State W → State W
dropped ip s = record s {
  ate = record s.ate {
    l_pages = s.ate.l_pages - bit (is_resident (s.ate.flags ip));
    c_pages = s.ate.c_pages - bit (is_charged (s.ate.flags ip));
    flags = update s.ate.flags ip (evicted (s.ate.flags ip));
  };
}

module _ {W : Type 0} (os : Os W) (page_size key : ℕ) where
  -- From `s₀`, the pages `[beg, j)` are done but for the file of a run that ends at `ip`.
  pub record Going (s₀ : State W) (beg j ip : ℕ) (run : Option ℕ) (m : ℕ) (s : State W)
      : Type 0 where
    pub n_pages : s.ate.n_pages ≡ s₀.ate.n_pages
    pub base : s.ate.base ≡ s₀.ate.base
    pub fits : RunFits run beg ip
    pub flags :
        (i : ℕ)
        → s.ate.flags i ≡ (if within beg j i then evicted (s₀.ate.flags i) else s₀.ate.flags i)
    pub loaded : count s₀.ate.n_pages is_resident s.ate.flags ≡ s.ate.l_pages
    pub charged : count s₀.ate.n_pages is_charged s.ate.flags ≡ s.ate.c_pages
    pub dirtied : count s₀.ate.n_pages is_dirty s.ate.flags + pending run ip ≡ s.ate.d_pages
    pub written : s.ate.d_pages + m ≡ s₀.ate.d_pages
    pub run_dirty : (i : ℕ) → in_run run ip i ≡ true → (s₀.ate.flags i).dirty ≡ true
    pub size : os.size s₀.world key ≤ os.size s.world key
    pub stored :
        (i : ℕ)
        → (within beg j i && (s₀.ate.flags i).dirty && not (in_run run ip i)) ≡ true
        → (i + 1) * page_size ≤ os.size s.world key
    pub mem : (x : ℕ) → os.mem s.world x ≡ os.mem s₀.world x
    pub prot : (x : ℕ) → os.prot s.world x ≡ os.prot s₀.world x
    pub file :
        (x : ℕ)
        → os.file s.world key x ≡ (
            if within beg j (x / page_size)
              && (s₀.ate.flags (x / page_size)).dirty
              && not (in_run run ip (x / page_size))
            then os.mem s₀.world (s₀.ate.base + x)
            else os.file s₀.world key x)

module _ {W : Type 0} (os : Os W) (page_size : ℕ) (mlock : Bool) (key : ℕ) where
  pub drop_clean-eq :
      (ip : ℕ) (s : State W)
      → page_ok (s.ate.flags ip) ≡ true
      → (is_resident (s.ate.flags ip) ≡ true → 0 < s.ate.l_pages)
      → (is_charged (s.ate.flags ip) ≡ true → 0 < s.ate.c_pages)
      → (s.ate.flags ip).dirty ≡ false
      → drop_clean os page_size mlock key ip s ≡ done tt (dropped ip s)
  unfolding drop_clean
  drop_clean-eq ip s good hl hc clean = ground arith

  pub drop_dirty-eq :
      (ip : ℕ) (s : State W)
      → page_ok (s.ate.flags ip) ≡ true
      → 0 < s.ate.l_pages
      → 0 < s.ate.c_pages
      → (s.ate.flags ip).dirty ≡ true
      → drop_dirty os page_size mlock key ip s ≡ done tt (dropped ip s)
  unfolding drop_dirty
  drop_dirty-eq ip s good hl hc dirty = ground arith

module _ {W : Type 0} {os : Os W} {page_size key : ℕ} {s₀ s : State W} {beg ip m : ℕ}
    {run : Option ℕ} (valid : IsValid s₀.ate) (going : Going os page_size key s₀ beg ip ip run m s)
    (low : beg ≤ ip) (high : ip < s₀.ate.n_pages) where
  pub untouched : s.ate.flags ip ≡ s₀.ate.flags ip
  untouched = ground (arith, going.flags ip)

  pub loaded_pos : is_resident (s.ate.flags ip) ≡ true → 0 < s.ate.l_pages
  loaded_pos h =
      omega (arith, going.loaded, count_pos s₀.ate.n_pages ip is_resident s.ate.flags high h)

  pub charged_pos : is_charged (s.ate.flags ip) ≡ true → 0 < s.ate.c_pages
  charged_pos h =
      omega (arith, going.charged, count_pos s₀.ate.n_pages ip is_charged s.ate.flags high h)

  pub page_ok-ip : page_ok (s.ate.flags ip) ≡ true
  page_ok-ip = ground (arith, untouched, valid.pages ip high)

  pub Going-clean :
      (s₀.ate.flags ip).dirty ≡ false
      → Going os page_size key s₀ beg (ip + 1) ip run m (dropped ip s)
  Going-clean clean = record {
    n_pages = going.n_pages;
    base = going.base;
    fits = going.fits;
    flags = λ i. ground (arith, going.flags i, going.flags ip);
    loaded = ground (
      arith,
      going.loaded,
      count-update s₀.ate.n_pages ip is_resident s.ate.flags (evicted (s.ate.flags ip)) high,
    );
    charged = ground (
      arith,
      going.charged,
      count-update s₀.ate.n_pages ip is_charged s.ate.flags (evicted (s.ate.flags ip)) high,
    );
    dirtied = ground (
      arith,
      going.dirtied,
      untouched,
      count-update s₀.ate.n_pages ip is_dirty s.ate.flags (evicted (s.ate.flags ip)) high,
    );
    written = going.written;
    run_dirty = going.run_dirty;
    size = going.size;
    stored = λ i h. ground (arith, going.stored i);
    mem = going.mem;
    prot = going.prot;
    file = λ x. ground (arith, going.file x);
  }

  pub Going-dirty :
      (s₀.ate.flags ip).dirty ≡ true
      → Going os page_size key s₀ beg (ip + 1) (ip + 1) (or_else run ip) m (dropped ip s)
  Going-dirty dirty = record {
    n_pages = going.n_pages;
    base = going.base;
    fits = RunFits-or_else run beg ip going.fits low;
    flags = λ i. ground (arith, going.flags i, going.flags ip);
    loaded = ground (
      arith,
      going.loaded,
      count-update s₀.ate.n_pages ip is_resident s.ate.flags (evicted (s.ate.flags ip)) high,
    );
    charged = ground (
      arith,
      going.charged,
      count-update s₀.ate.n_pages ip is_charged s.ate.flags (evicted (s.ate.flags ip)) high,
    );
    dirtied = ground (
      arith,
      going.dirtied,
      untouched,
      pending-or_else run beg ip going.fits,
      count-update s₀.ate.n_pages ip is_dirty s.ate.flags (evicted (s.ate.flags ip)) high,
    );
    written = going.written;
    run_dirty = λ i h. ground (arith, in_run-or_else run beg ip i going.fits, going.run_dirty i);
    size = going.size;
    stored = λ i h. ground (arith, in_run-or_else run beg ip i going.fits, going.stored i);
    mem = going.mem;
    prot = going.prot;
    file = λ x. ground (arith, going.file x, in_run-or_else run beg ip (x / page_size) going.fits);
  }
