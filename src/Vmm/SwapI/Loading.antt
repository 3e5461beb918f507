-- ===== src/Vmm/SwapI/Loading.antt =====
-- The loop of `vmm_swap_i` without ghost pages: what is true at its head, and a page's flags.
use sbma.Common.{
  ℕ, ◌+◌, ◌/◌, ◌≤◌, ◌<◌, ◌≡◌, true, false, not, ◌&&◌, Option, none, if◌then◌else◌, arith, bit,
  count, count-update, count-lt, update, within, or_else, pending, in_run, RunFits, RunFits-or_else,
  pending-or_else, in_run-or_else, done,
}
use sbma.Mmu.{is_resident, is_charged, is_dirty, loaded}
use sbma.Mmu.Valid.{IsValid, page_ok}
use sbma.Os.{Os}
use sbma.Vmm.{State}
use sbma.Vmm.SwapI.{to_read, load_page}

-- The entry with the page `ip` resident.
abbrev pub brought : {W : Type 0} → ℕ → State W → State W
brought ip s = record s {
  ate = record s.ate {
    l_pages = s.ate.l_pages + bit (not (is_resident (s.ate.flags ip)));
    c_pages = s.ate.c_pages + bit (not (is_charged (s.ate.flags ip)));
    flags =
        if is_resident (s.ate.flags ip)
        then s.ate.flags
        else update s.ate.flags ip (loaded (s.ate.flags ip));
  };
}

module _ {W : Type 0} (os : Os W) (page_size key : ℕ) where
  -- From `s₀`, the pages `[beg, j)` are loaded but for the bytes of a run that ends at `ip`.
  pub record Loading (s₀ : State W) (beg j ip : ℕ) (run : Option ℕ) (m : ℕ) (s : State W)
      : Type 0 where
    pub n_pages : s.ate.n_pages ≡ s₀.ate.n_pages
    pub base : s.ate.base ≡ s₀.ate.base
    pub d_pages : s.ate.d_pages ≡ s₀.ate.d_pages
    pub fits : RunFits run beg ip
    pub flags :
        (i : ℕ)
        → s.ate.flags i ≡ (if within beg j i then loaded (s₀.ate.flags i) else s₀.ate.flags i)
    pub resident : count s₀.ate.n_pages is_resident s.ate.flags ≡ s.ate.l_pages
    pub charged : count s₀.ate.n_pages is_charged s.ate.flags ≡ s.ate.c_pages
    pub dirtied : count s₀.ate.n_pages is_dirty s.ate.flags ≡ s.ate.d_pages
    pub read :
        count s₀.ate.n_pages to_read s.ate.flags + pending run ip + m
        ≡ count s₀.ate.n_pages to_read s₀.ate.flags
    pub run_read : (i : ℕ) → in_run run ip i ≡ true → to_read (s₀.ate.flags i) ≡ true
    pub mem :
        (x : ℕ)
        → os.mem s.world (s₀.ate.base + x) ≡ (
            if within beg j (x / page_size)
              && to_read (s₀.ate.flags (x / page_size))
              && not (in_run run ip (x / page_size))
            then os.file s₀.world key x
            else os.mem s₀.world (s₀.ate.base + x))
    pub prot : (x : ℕ) → os.prot s.world x ≡ os.prot s₀.world x
    pub file : (x : ℕ) → os.file s.world key x ≡ os.file s₀.world key x
    pub size : os.size s.world key ≡ os.size s₀.world key

module _ {W : Type 0} (os : Os W) (page_size key : ℕ) where
  load_page-eq :
      (ip : ℕ) (s : State W)
      → page_ok (s.ate.flags ip) ≡ true
      → (is_resident (s.ate.flags ip) ≡ false → s.ate.l_pages < s.ate.n_pages)
      → (is_charged (s.ate.flags ip) ≡ false → s.ate.c_pages < s.ate.n_pages)
      → load_page os page_size key ip s ≡ done tt (brought ip s)
  unfolding load_page
  load_page-eq ip s good hl hc = ground arith

module _ {W : Type 0} {os : Os W} {page_size key : ℕ} {s₀ s : State W} {beg ip m : ℕ}
    {run : Option ℕ} (valid : IsValid s₀.ate)
    (loading : Loading os page_size key s₀ beg ip ip run m s) (low : beg ≤ ip)
    (high : ip < s₀.ate.n_pages) where
  -- The flags of `ip` are the original ones until its round.
  pub unread : s.ate.flags ip ≡ s₀.ate.flags ip
  unread = ground (arith, loading.flags ip)

  pub loaded_page : load_page os page_size key ip s ≡ done tt (brought ip s)
  loaded_page =
      load_page-eq os page_size key ip s (ground (arith, unread, valid.pages ip))
        (λ r. omega (
          arith,
          loading.resident,
          loading.n_pages,
          count-lt s₀.ate.n_pages ip is_resident s.ate.flags high r,
        ))
        (λ r. omega (
          arith,
          loading.charged,
          loading.n_pages,
          count-lt s₀.ate.n_pages ip is_charged s.ate.flags high r,
        ))

  -- The page joins the run.
  pub Loading-read :
      to_read (s₀.ate.flags ip) ≡ true
      → Loading os page_size key s₀ beg (ip + 1) (ip + 1) (or_else run ip) m (brought ip s)
  Loading-read wanted = record {
    n_pages = loading.n_pages;
    base = loading.base;
    d_pages = loading.d_pages;
    fits = RunFits-or_else run beg ip loading.fits low;
    flags = λ i. ground (arith, loading.flags i, unread, valid.pages ip);
    resident = ground (
      arith,
      loading.resident,
      count-update s₀.ate.n_pages ip is_resident s.ate.flags (loaded (s.ate.flags ip)) high,
    );
    charged = ground (
      arith,
      loading.charged,
      unread,
      valid.pages ip,
      count-update s₀.ate.n_pages ip is_charged s.ate.flags (loaded (s.ate.flags ip)) high,
    );
    dirtied = ground (
      arith,
      loading.dirtied,
      count-update s₀.ate.n_pages ip is_dirty s.ate.flags (loaded (s.ate.flags ip)) high,
    );
    read = ground (
      arith,
      loading.read,
      unread,
      pending-or_else run beg ip loading.fits,
      count-update s₀.ate.n_pages ip to_read s.ate.flags (loaded (s.ate.flags ip)) high,
    );
    run_read = λ i h. ground (arith, in_run-or_else run beg ip i loading.fits, loading.run_read i);
    mem =
        λ x. ground (arith, loading.mem x, in_run-or_else run beg ip (x / page_size) loading.fits);
    prot = loading.prot;
    file = loading.file;
    size = loading.size;
  }

module _ {W : Type 0} {os : Os W} {page_size key : ℕ} {s₀ s : State W} {beg ip m : ℕ}
    (valid : IsValid s₀.ate) (loading : Loading os page_size key s₀ beg ip ip none m s)
    (low : beg ≤ ip) (high : ip < s₀.ate.n_pages) where
  -- The page is not read, and no run is left.
  pub Loading-skip :
      to_read (s₀.ate.flags ip) ≡ false
      → Loading os page_size key s₀ beg (ip + 1) (ip + 1) none m (brought ip s)
  Loading-skip unwanted = record {
    n_pages = loading.n_pages;
    base = loading.base;
    d_pages = loading.d_pages;
    fits = tt;
    flags = λ i. ground (arith, loading.flags i, loading.flags ip, valid.pages ip);
    resident = ground (
      arith,
      loading.resident,
      count-update s₀.ate.n_pages ip is_resident s.ate.flags (loaded (s.ate.flags ip)) high,
    );
    charged = ground (
      arith,
      loading.charged,
      loading.flags ip,
      valid.pages ip,
      count-update s₀.ate.n_pages ip is_charged s.ate.flags (loaded (s.ate.flags ip)) high,
    );
    dirtied = ground (
      arith,
      loading.dirtied,
      count-update s₀.ate.n_pages ip is_dirty s.ate.flags (loaded (s.ate.flags ip)) high,
    );
    read = ground (
      arith,
      loading.read,
      loading.flags ip,
      count-update s₀.ate.n_pages ip to_read s.ate.flags (loaded (s.ate.flags ip)) high,
    );
    run_read = λ i h. cc;
    mem = λ x. ground (arith, loading.mem x);
    prot = loading.prot;
    file = loading.file;
    size = loading.size;
  }
