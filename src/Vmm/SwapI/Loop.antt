-- ===== src/Vmm/SwapI/Loop.antt =====
-- The loop of `vmm_swap_i` without ghost pages: reading a run, one page, and all pages.
use sbma.Common.{
  ℕ, zero, suc, ◌+◌, ◌-◌, ◌*◌, ◌/◌, ◌≤◌, ◌<◌, ◌≡◌, refl, inl, inr, Bool, true, false, Option, none,
  some, arith, Bool-cases, within, within-pages, or_else, done, Ensures, returns, bind, mono, subst,
  sym, ◌∙◌, ap, and_then, ◌&&◌, not, if◌then◌else◌,
}
use native.Mathlib.Nat.{add-mul}
use sbma.Mmu.Valid.{IsValid}
use sbma.Os.{Os, IsPosix, IsReliable}
use sbma.Vmm.{State, lift-Ensures}
use sbma.Vmm.Io.Loaded.{Loaded, vmm_read-Loaded}
use sbma.Vmm.SwapI.{to_read, read_run, load_page, swap_i_page, swap_i_loop}
use sbma.Vmm.SwapI.Loading.{Loading, brought, unread, loaded_page, Loading-read, Loading-skip}

-- The end of the pages `[f, ip)`, and where they stand behind the page `beg`.
run_end : (ps f ip : ℕ) → f ≤ ip → f * ps + (ip - f) * ps ≡ ip * ps
run_end ps f ip le = sym (add-mul f (ip - f) ps) ∙ ap (λ (n : ℕ). n * ps) (omega arith)

pub run_place : (ps beg f a : ℕ) → beg ≤ f → a + beg * ps + (f - beg) * ps ≡ a + f * ps
run_place ps beg f a le = omega (arith, run_end ps beg f le)

-- One byte of a run that is read.
read_byte :
    (ps beg f ip j base x before mid after : ℕ) (wanted : Bool) (file : ℕ → ℕ)
    → 0 < ps
    → beg ≤ f
    → ip ≤ j
    → (within f ip (x / ps) ≡ true → wanted ≡ true)
    → mid
      ≡ (if within beg j (x / ps) && wanted && not (within f ip (x / ps)) then file x else before)
    → after ≡ (
        if within (base + f * ps) (base + f * ps + (ip - f) * ps) (base + x)
        then file (f * ps + (base + x - (base + f * ps)))
        else mid)
    → f < ip
    → after ≡ (if within beg j (x / ps) && wanted && not false then file x else before)
read_byte ps beg f ip j base x before mid after wanted file pos low high rd was got lt =
    elim (Bool-cases (within f ip (x / ps))) [
      | inl e ↦ ground (arith, rd e, inside e, ap file (back e))
      | inr e ↦ ground (arith, outside)
    ]
  where
    outside :
        within (base + f * ps) (base + f * ps + (ip - f) * ps) (base + x) ≡ within f ip (x / ps)
    outside = ground (arith, within-pages ps x pos f (ip - f))

    inside :
        within f ip (x / ps) ≡ true
        → within (base + f * ps) (base + f * ps + (ip - f) * ps) (base + x) ≡ true
    inside e = outside ∙ e

    back : within f ip (x / ps) ≡ true → f * ps + (base + x - (base + f * ps)) ≡ x
    back e = ground (arith, inside e)

module _ {W : Type 0} {os : Os W} (ps key : ℕ) (ps_pos : 0 < ps) {s₀ : State W} {beg : ℕ} where
  Loading-Loaded :
      {s t : State W} {j ip f m : ℕ}
      → Loading os ps key s₀ beg j ip (some f) m s
      → ip ≤ j
      → Loaded os key (s₀.ate.base + f * ps) ((ip - f) * ps) (f * ps) s.world t.world
      → t.ate ≡ s.ate
      → Loading os ps key s₀ beg j j none (m + (ip - f)) t
  Loading-Loaded {s} {t} {j} {ip} {f} loading le got same = record {
    n_pages = rw same loading.n_pages;
    base = rw same loading.base;
    d_pages = rw same loading.d_pages;
    fits = tt;
    flags = rw same loading.flags;
    resident = rw same loading.resident;
    charged = rw same loading.charged;
    dirtied = rw same loading.dirtied;
    read = rw same (omega (arith, loading.read));
    run_read = λ i h. cc;
    mem = λ x.
        read_byte ps beg f ip j s₀.ate.base x (os.mem s₀.world (s₀.ate.base + x))
          (os.mem s.world (s₀.ate.base + x)) (os.mem t.world (s₀.ate.base + x))
          (to_read (s₀.ate.flags (x / ps))) (os.file s₀.world key) ps_pos loading.fits.0 le
          (loading.run_read (x / ps)) (loading.mem x)
          (got.mem (s₀.ate.base + x)
            ∙ ap
                (λ (n : ℕ).
                  if within (s₀.ate.base + f * ps) (s₀.ate.base + f * ps + (ip - f) * ps)
                    (s₀.ate.base + x)
                  then n
                  else os.mem s.world (s₀.ate.base + x))
                (loading.file (f * ps + (s₀.ate.base + x - (s₀.ate.base + f * ps)))))
          loading.fits.1;
    prot = λ x. got.prot x ∙ loading.prot x;
    file = λ x. got.file key x ∙ loading.file x;
    size = got.size key ∙ loading.size;
  }

module _ {W : Type 0} {os : Os W} (posix : IsPosix os) (ps key : ℕ) (ps_pos : 0 < ps) {s₀ : State W}
    {beg : ℕ} (valid : IsValid s₀.ate)
    (on_disk : (i : ℕ)
      → i < s₀.ate.n_pages
      → to_read (s₀.ate.flags i) ≡ true
      → (i + 1) * ps ≤ os.size s₀.world key) where
  read_run-Loading :
      {s : State W} {j ip m : ℕ} (run : Option ℕ)
      → Loading os ps key s₀ beg j ip run m s
      → ip ≤ j
      → ip ≤ s₀.ate.n_pages
      → Ensures
          (λ (run', m') t. (run' ≡ none) × Loading os ps key s₀ beg j j none m' t)
          (λ _. ¬ IsReliable os)
          (read_run os ps key false (s₀.ate.base + beg * ps) beg ip run m s)
  unfolding read_run
  read_run-Loading {s} none loading le high = returns (
    refl,
    record {
      n_pages = loading.n_pages;
      base = loading.base;
      d_pages = loading.d_pages;
      fits = tt;
      flags = loading.flags;
      resident = loading.resident;
      charged = loading.charged;
      dirtied = loading.dirtied;
      read = loading.read;
      run_read = λ i h. cc;
      mem = loading.mem;
      prot = loading.prot;
      file = loading.file;
      size = loading.size;
    },
  )
  read_run-Loading {s} {j} {ip} {m} (some f) loading le high =
      rw (run_place ps beg f s₀.ate.base loading.fits.0) (
        bind
          (lift-Ensures s (
            vmm_read-Loaded os posix key (s₀.ate.base + f * ps) ((ip - f) * ps) (f * ps) s.world
              (run_pos loading.fits) (room loading.fits)))
          λ _ t (got, same). returns (refl, Loading-Loaded ps key ps_pos loading le got same))
    where
      run_pos : (beg ≤ f) × (f < ip) → 0 < (ip - f) * ps
      run_pos fits = grind arith

      last : (beg ≤ f) × (f < ip) → to_read (s₀.ate.flags (ip - 1)) ≡ true
      last fits = loading.run_read (ip - 1) (ground arith)

      room : (beg ≤ f) × (f < ip) → f * ps + (ip - f) * ps ≤ os.size s.world key
      room fits = omega (
        arith,
        loading.size,
        run_end ps f ip (omega arith),
        ap (λ (n : ℕ). n * ps) (whole fits),
        on_disk (ip - 1) (omega arith) (last fits),
      )
        where
          whole : (beg ≤ f) × (f < ip) → ip - 1 + 1 ≡ ip
          whole fits = omega arith

  swap_i_page-Loading :
      {s : State W} (ip : ℕ) (run : Option ℕ) (m : ℕ)
      → Loading os ps key s₀ beg ip ip run m s
      → beg ≤ ip
      → ip < s₀.ate.n_pages
      → Ensures
          (λ (run', m') t. Loading os ps key s₀ beg (ip + 1) (ip + 1) run' m' t)
          (λ _. ¬ IsReliable os)
          (swap_i_page os ps key false (s₀.ate.base + beg * ps) beg ip run m s)
  unfolding swap_i_page
  swap_i_page-Loading {s} ip run m loading low high =
      elim (Bool-cases (to_read (s₀.ate.flags ip))) [
        | inl wanted ↦ rw (joined wanted) (returns (Loading-read valid loading low high wanted))
        | inr unwanted ↦ rw (flushed unwanted) (
            bind (read_run-Loading run loading (omega arith) (omega arith)) λ (run', m') t (e, l).
              rw (loaded_page valid (here run' m' t e l) low high) (
                returns (
                  subst (λ r. Loading os ps key s₀ beg (ip + 1) (ip + 1) r m' (brought ip t))
                    (sym e) (Loading-skip valid l low high unwanted))))
      ]
    where
      joined :
          to_read (s₀.ate.flags ip) ≡ true
          → swap_i_page os ps key false (s₀.ate.base + beg * ps) beg ip run m s
            ≡ done (or_else run ip, m) (brought ip s)
      joined wanted =
          ground (arith, unread valid loading low high, loaded_page valid loading low high)

      flushed :
          to_read (s₀.ate.flags ip) ≡ false
          → swap_i_page os ps key false (s₀.ate.base + beg * ps) beg ip run m s
            ≡ and_then
                (read_run os ps key false (s₀.ate.base + beg * ps) beg ip run m s)
                (λ (run', m') u. and_then (load_page os ps key ip u) (λ _. done (run', m')))
      flushed unwanted = ground (arith, unread valid loading low high)

      here :
          (run' : Option ℕ) (m' : ℕ) (t : State W)
          → run' ≡ none
          → Loading os ps key s₀ beg ip ip none m' t
          → Loading os ps key s₀ beg ip ip run' m' t
      here run' m' t e l = subst (λ r. Loading os ps key s₀ beg ip ip r m' t) (sym e) l

  pub swap_i_loop-Loading :
      (k ip : ℕ) (run : Option ℕ) (m : ℕ) {s : State W}
      → Loading os ps key s₀ beg ip ip run m s
      → beg ≤ ip
      → ip + k ≤ s₀.ate.n_pages
      → Ensures
          (λ m' t. Loading os ps key s₀ beg (ip + k) (ip + k) none m' t)
          (λ _. ¬ IsReliable os)
          (swap_i_loop os ps key k false (s₀.ate.base + beg * ps) beg ip run m s)
  unfolding swap_i_loop
  swap_i_loop-Loading zero ip run m loading low high =
      bind (read_run-Loading run loading (omega arith) (omega arith)) λ (run', m') t (e, g).
        returns (subst (λ j. Loading os ps key s₀ beg j j none m' t) (omega arith) g)
  swap_i_loop-Loading (suc k) ip run m loading low high =
      bind (swap_i_page-Loading ip run m loading low (omega arith)) λ (run', m') t g.
        mono (swap_i_loop-Loading k (ip + 1) run' m' g (omega arith) (omega arith))
          (λ m'' u h. subst (λ j. Loading os ps key s₀ beg j j none m'' u) (omega arith) h)
          (λ _ x. x)
