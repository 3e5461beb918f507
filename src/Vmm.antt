-- ===== src/Vmm.antt =====
-- src/vmm/: moving the pages of one allocation between memory and its swap file.
pub mod Io
pub mod View
pub mod Protect
pub mod SwapX
pub mod SwapO
pub mod SwapI
pub mod Examples
use sbma.Common.{
  ℕ, ◌+◌, ◌%◌, ltb, ◌-◌, Bool, if◌then◌else◌, leb, Run, done, failed, aborted, diverged, Cmd,
  assert, modify, ◌>>◌, ◌>>=◌, update, Ensures, returns, fails, ◌≡◌, refl,
}
use sbma.Mmu.{Ate, Flags}

-- What a swap function reads and writes: the entry `*ate`, and the system.
pub record State (W : Type 0) : Type 0 where
  pub ate : Ate
  pub world : W

-- A count that is stored in an int, and returned as ssize_t.
abbrev pub as_int : ℕ → ℕ
as_int n =
    if ltb (n % 4294967296) 2147483648
    then n % 4294967296
    else n % 4294967296 + 18446744069414584320

module _ {W : Type 0} where
  abbrev pub lift : {A : Type 0} → State W → Run W A → Run (State W) A
  lift s (done a w) = done a (record s { world = w })
  lift s (failed w) = failed (record s { world = w })
  lift s aborted = aborted
  lift s diverged = diverged

  -- A call that leaves the entry alone.
  abbrev pub on_world : {A : Type 0} → Cmd W A → Cmd (State W) A
  on_world call s = lift s (call s.world)

  abbrev pub with_ate : (Ate → Ate) → Cmd (State W) (Unit {0})
  with_ate f = modify (λ s. record s { ate = f s.ate })

  -- flags[ip] = f(flags[ip])
  abbrev pub with_flags : ℕ → (Flags → Flags) → Cmd (State W) (Unit {0})
  with_flags ip f = with_ate (λ a. record a { flags = update a.flags ip (f (a.flags ip)) })

  abbrev pub when : (State W → Bool) → Cmd (State W) (Unit {0}) → Cmd (State W) (Unit {0})
  when test c s = if test s then c s else done tt s

  -- ASSERT(num <= ate->n_pages); ASSERT(beg <= ate->n_pages-num)
  abbrev pub assert_range : ℕ → ℕ → Cmd (State W) (Unit {0})
  assert_range beg num = do
    assert (λ s. leb num s.ate.n_pages)
    assert (λ s. leb beg (s.ate.n_pages - num))

  pub lift-Ensures :
      {A : Type 0} {P : A → W → Type 0} {F : W → Type 0} {r : Run W A} (s : State W)
      → Ensures P F r
      → Ensures (λ a t. P a t.world × (t.ate ≡ s.ate)) (λ t. F t.world) (lift s r)
  lift-Ensures s (returns p) = returns (p, refl)
  lift-Ensures s (fails e) = fails e
