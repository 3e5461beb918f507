-- ===== src/Vmm/Protect.antt =====
-- mprotect(2) on whole pages of an allocation.
use sbma.Common.{
  ℕ, suc, ◌+◌, ◌*◌, ◌/◌, ◌<◌, ◌≡◌, Bool, true, false, arith, within, within-pages, if◌then◌else◌,
  Ensures, checked-Ensures, checked, mono, ap, ◌∙◌, subst,
}
use sbma.Os.{Os, Protected, IsPosix, IsReliable, Prot}
use sbma.Vmm.{State, on_world, lift-Ensures}

module _ {W : Type 0} (os : Os W) where
  -- The world is what a call of mprotect(2) left that returned -1.
  pub record MprotectFailed (w : W) : Type 0 where
    pub addr : ℕ
    pub len : ℕ
    pub prot : Prot
    pub before : W
    pub failed : os.mprotect addr len prot before ≡ (false, w)

  pub MprotectFailed-unreliable : {w : W} → MprotectFailed w → ¬ IsReliable os
  MprotectFailed-unreliable f r = absurd (
      ground
        (arith, ap (λ (y : Bool × W). y.0) f.failed, r.mprotect_true f.addr f.len f.prot f.before))

module _ {W : Type 0} (os : Os W) (ps : ℕ) where
  -- Only the protection of the pages `[lo, hi)` changes, as `f` says.
  pub record Reprotected (base lo hi : ℕ) (f : ℕ → Prot → Prot) (v w : W) : Type 0 where
    pub mem : (x : ℕ) → os.mem w x ≡ os.mem v x
    pub prot :
        (x : ℕ)
        → os.prot w (base + x) ≡ (
            if within lo hi (x / ps)
            then f (x / ps) (os.prot v (base + x))
            else os.prot v (base + x))
    pub file : (k x : ℕ) → os.file w k x ≡ os.file v k x
    pub size : (k : ℕ) → os.size w k ≡ os.size v k

module _ {W : Type 0} {os : Os W} (posix : IsPosix os) (ps : ℕ) (ps_pos : 0 < ps) where
  pub within_base :
      (base beg num x : ℕ)
      → within (base + beg * ps) (base + beg * ps + num * ps) (base + x)
        ≡ within beg (beg + num) (x / ps)
  within_base base beg num x = ground (arith, within-pages ps x ps_pos beg num)

  Reprotected-Protected :
      {v w : W} (base beg num : ℕ) (p : Prot)
      → Protected os (base + beg * ps) (num * ps) p v w
      → Reprotected os ps base beg (beg + num) (λ _ _. p) v w
  Reprotected-Protected base beg num p protected = record {
    mem = protected.mem;
    prot = λ x. ground (arith, protected.prot (base + x), within_base base beg num x);
    file = protected.file;
    size = protected.size;
  }

  pub reprotect_or_failed :
      (base beg num : ℕ) (p : Prot) (s : State W)
      → Ensures
          (λ _ t.
            Reprotected os ps base beg (beg + num) (λ _ _. p) s.world t.world × (t.ate ≡ s.ate))
          (λ t. MprotectFailed os t.world)
          (on_world (checked (os.mprotect (base + beg * ps) (num * ps) p)) s)
  reprotect_or_failed base beg num p s = lift-Ensures s (
      checked-Ensures {E = MprotectFailed os} (os.mprotect (base + beg * ps) (num * ps) p) s.world
        (λ e. Reprotected-Protected base beg num p (posix.mprotect_done _ _ p s.world e))
        (λ e. record {
          addr = base + beg * ps;
          len = num * ps;
          prot = p;
          before = s.world;
          failed = ap (λ b. (b, (os.mprotect (base + beg * ps) (num * ps) p s.world).1)) e;
        }))

  pub reprotect :
      (base beg num : ℕ) (p : Prot) (s : State W)
      → Ensures
          (λ _ t.
            Reprotected os ps base beg (beg + num) (λ _ _. p) s.world t.world × (t.ate ≡ s.ate))
          (λ _. ¬ IsReliable os)
          (on_world (checked (os.mprotect (base + beg * ps) (num * ps) p)) s)
  reprotect base beg num p s =
      mono (reprotect_or_failed base beg num p s) (λ _ t x. x)
        (λ t f. MprotectFailed-unreliable os f)

  module _ (base : ℕ) (q : Prot) where
    abbrev pub set_if : (ℕ → Bool) → ℕ → Prot → Prot
    set_if dirty i p = if dirty i then q else p

    pub Reprotected-one_page :
        {u v w : W} (k ip : ℕ) (dirty : ℕ → Bool)
        → dirty ip ≡ true
        → Reprotected os ps base ip (ip + 1) (λ _ _. q) u v
        → Reprotected os ps base (ip + 1) (ip + 1 + k) (set_if dirty) v w
        → Reprotected os ps base ip (ip + suc k) (set_if dirty) u w
    Reprotected-one_page k ip dirty d now rest = record {
      mem = λ x. rest.mem x ∙ now.mem x;
      prot = λ x. ground (arith, rest.prot x, now.prot x, d);
      file = λ j x. rest.file j x ∙ now.file j x;
      size = λ j. rest.size j ∙ now.size j;
    }

    pub Reprotected-no_page :
        {u w : W} (k ip : ℕ) (dirty : ℕ → Bool)
        → dirty ip ≡ false
        → Reprotected os ps base (ip + 1) (ip + 1 + k) (set_if dirty) u w
        → Reprotected os ps base ip (ip + suc k) (set_if dirty) u w
    Reprotected-no_page k ip dirty d rest = record {
      mem = rest.mem;
      prot = λ x. ground (arith, rest.prot x, d);
      file = rest.file;
      size = rest.size;
    }

    pub one_page_or_failed :
        (ip : ℕ) (s : State W)
        → Ensures
            (λ _ t. Reprotected os ps base ip (ip + 1) (λ _ _. q) s.world t.world × (t.ate ≡ s.ate))
            (λ t. MprotectFailed os t.world)
            (on_world (checked (os.mprotect (base + ip * ps) ps q)) s)
    one_page_or_failed ip s =
        subst
          (λ n.
            Ensures
              (λ _ t.
                Reprotected os ps base ip (ip + 1) (λ _ _. q) s.world t.world × (t.ate ≡ s.ate))
              (λ t. MprotectFailed os t.world)
              (on_world (checked (os.mprotect (base + ip * ps) n q)) s))
          one_mul (reprotect_or_failed base ip 1 q s)
      where
        one_mul : 1 * ps ≡ ps
        one_mul = omega arith

    pub one_page :
        (ip : ℕ) (s : State W)
        → Ensures
            (λ _ t. Reprotected os ps base ip (ip + 1) (λ _ _. q) s.world t.world × (t.ate ≡ s.ate))
            (λ _. ¬ IsReliable os)
            (on_world (checked (os.mprotect (base + ip * ps) ps q)) s)
    one_page ip s =
        mono (one_page_or_failed ip s) (λ _ t x. x) (λ t f. MprotectFailed-unreliable os f)
