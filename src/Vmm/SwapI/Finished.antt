-- ===== src/Vmm/SwapI/Finished.antt =====
-- What `vmm_swap_i` without ghost pages leaves behind, from what its loop and its last calls do.
use sbma.Common.{
  ℕ, ◌+◌, ◌/◌, ◌<◌, ◌≡◌, refl, true, ◌&&◌, none, arith, count, within, if◌then◌else◌, ◌∙◌,
}
use sbma.Mmu.{loaded}
use sbma.Mmu.Valid.{IsValid}
use sbma.Os.{Os, Same, prot_read, prot_write, prot_rw, IsPosix}
use sbma.Vmm.{State}
use sbma.Vmm.SwapI.{to_read}
use sbma.Vmm.SwapI.Loading.{Loading}
use sbma.Vmm.Protect.{Reprotected}

module _ {W : Type 0} (os : Os W) (page_size key : ℕ) where
  -- The pages `[beg, beg+num)` are resident, `m` of them read from the file.
  pub record SwappedIn (s₀ : State W) (beg num m : ℕ) (s : State W) : Type 0 where
    pub valid : IsValid s.ate
    pub n_pages : s.ate.n_pages ≡ s₀.ate.n_pages
    pub base : s.ate.base ≡ s₀.ate.base
    pub d_pages : s.ate.d_pages ≡ s₀.ate.d_pages
    pub flags :
        (i : ℕ)
        → s.ate.flags i
          ≡ (if within beg (beg + num) i then loaded (s₀.ate.flags i) else s₀.ate.flags i)
    pub read :
        count s₀.ate.n_pages to_read s.ate.flags + m ≡ count s₀.ate.n_pages to_read s₀.ate.flags
    pub mem :
        (x : ℕ)
        → os.mem s.world (s₀.ate.base + x) ≡ (
            if within beg (beg + num) (x / page_size) && to_read (s₀.ate.flags (x / page_size))
            then os.file s₀.world key x
            else os.mem s₀.world (s₀.ate.base + x))
    pub prot :
        (x : ℕ)
        → os.prot s.world (s₀.ate.base + x) ≡ (
            if within beg (beg + num) (x / page_size)
            then (if (s₀.ate.flags (x / page_size)).dirty then prot_rw else prot_read)
            else os.prot s₀.world (s₀.ate.base + x))
    pub file : (x : ℕ) → os.file s.world key x ≡ os.file s₀.world key x
    pub size : os.size s.world key ≡ os.size s₀.world key

module _ {W : Type 0} {os : Os W} (posix : IsPosix os) (ps key : ℕ) (ps_pos : 0 < ps) where
  pub started :
      (s₀ s : State W) (beg : ℕ)
      → IsValid s₀.ate
      → s.ate ≡ s₀.ate
      → Loading os ps key (record s { ate = s₀.ate }) beg beg beg none 0 s
  started s₀ s beg valid e = record {
    n_pages = rw e refl;
    base = rw e refl;
    d_pages = rw e refl;
    fits = tt;
    flags = λ i. rw e (ground arith);
    resident = rw e valid.loaded;
    charged = rw e valid.charged;
    dirtied = rw e valid.dirtied;
    read = rw e (omega arith);
    run_read = λ i h. cc;
    mem = λ x. ground arith;
    prot = λ x. refl;
    file = λ x. refl;
    size = refl;
  }

  -- The loop runs from the system `w₁` to `s`.
  pub finished :
      (t : State W) {s₀ s : State W} {beg num m : ℕ} {u w₁ v w : W}
      → IsValid s₀.ate
      → Reprotected os ps s₀.ate.base beg (beg + num) (λ _ _. prot_write) s₀.world u
      → Same os u w₁
      → Loading os ps key (record { ate = s₀.ate; world = w₁ }) beg (beg + num) (beg + num) none m s
      → Same os s.world v
      → Reprotected os ps s₀.ate.base beg (beg + num) (λ _ _. prot_read) v w
      → Reprotected os ps s₀.ate.base beg
          (beg + num)
          (λ i p. if (s.ate.flags i).dirty then prot_rw else p)
          w
          t.world
      → t.ate ≡ s.ate
      → SwappedIn os ps key s₀ beg num m t
  finished t {s₀} {s} {beg} {num} {m} {u} {w₁} {v} {w} valid writable same loading same' readable
        again e =
      record {
        valid = rw e (record {
          loaded = rw loading.n_pages loading.resident;
          charged = rw loading.n_pages loading.charged;
          dirtied = rw loading.n_pages loading.dirtied;
          pages = λ i h. ground (arith, loading.n_pages, loading.flags i, valid.pages i);
        });
        n_pages = rw e loading.n_pages;
        base = rw e loading.base;
        d_pages = rw e loading.d_pages;
        flags = rw e loading.flags;
        read = rw e (omega (arith, loading.read));
        mem = λ x.
            again.mem (s₀.ate.base + x)
            ∙ (readable.mem (s₀.ate.base + x)
                ∙ (same'.mem (s₀.ate.base + x) ∙ (loading.mem x ∙ unchanged x)));
        prot = λ x. reprotected x;
        file = λ x.
            again.file key x
            ∙ (readable.file key x
                ∙ (same'.file key x ∙ (loading.file x ∙ (same.file key x ∙ writable.file key x))));
        size =
            again.size key
            ∙ (readable.size key
                ∙ (same'.size key ∙ (loading.size ∙ (same.size key ∙ writable.size key))));
      }
    where
      unchanged :
          (x : ℕ)
          → (if within beg (beg + num) (x / ps) && to_read (s₀.ate.flags (x / ps)) && true
              then os.file w₁ key x
              else os.mem w₁ (s₀.ate.base + x))
            ≡ (if within beg (beg + num) (x / ps) && to_read (s₀.ate.flags (x / ps))
                then os.file s₀.world key x
                else os.mem s₀.world (s₀.ate.base + x))
      unchanged x = ground (
        arith,
        same.file key x,
        writable.file key x,
        same.mem (s₀.ate.base + x),
        writable.mem (s₀.ate.base + x),
      )

      reprotected :
          (x : ℕ)
          → os.prot t.world (s₀.ate.base + x) ≡ (
              if within beg (beg + num) (x / ps)
              then (if (s₀.ate.flags (x / ps)).dirty then prot_rw else prot_read)
              else os.prot s₀.world (s₀.ate.base + x))
      reprotected x = ground (
        arith,
        again.prot x,
        readable.prot x,
        same'.prot (s₀.ate.base + x),
        loading.prot (s₀.ate.base + x),
        same.prot (s₀.ate.base + x),
        writable.prot x,
        loading.flags (x / ps),
      )
