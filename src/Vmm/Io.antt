-- ===== src/Vmm/Io.antt =====
-- `vmm_read` and `vmm_write` of src/vmm/swap_i.c and src/vmm/swap_o.c, as they are built by default, with
-- lseek(2), read(2) and write(2). Both loops have one round more of fuel than bytes.
pub mod Loaded
pub mod Stored
use sbma.Common.{
  ℕ, zero, suc, ◌+◌, ◌-◌, ◌≤◌, ◌<◌, ◌≡◌, refl, Bool, true, false, not, Option, none, some, arith,
  ltb, ◌==◌, if◌then◌else◌, within, Run, done, failed, aborted, diverged, Cmd, and_then, ◌>>=◌,
  ◌>>◌, pure, assert, checked, counted, Ensures, returns, fails, bind,
}
use sbma.Os.{Os, Same, Wrote, Read, IsPosix, HasFullWrites}

module _ {W : Type 0} (os : Os W) where
  read_rounds : ℕ → ℕ → ℕ → ℕ → Cmd W (Unit {0})
  read_rounds zero fd buf len = λ _. diverged
  read_rounds (suc k) fd buf len = do
    n ← counted (os.read fd buf len)
    assert (λ _. not (n == 0))
    if ltb 0 (len - n) then read_rounds k fd (buf + n) (len - n) else pure tt

  unfoldable pub vmm_read : ℕ → ℕ → ℕ → ℕ → Cmd W (Unit {0})
  unfolding read_rounds
  vmm_read fd buf len off = do checked (os.lseek fd off); read_rounds (suc len) fd buf len

  write_rounds : ℕ → ℕ → ℕ → ℕ → Cmd W (Unit {0})
  write_rounds zero fd buf len = λ _. diverged
  write_rounds (suc k) fd buf len = do
    n ← counted (os.write fd buf len)
    assert (λ _. not (n == 0))
    if ltb 0 (len - len) then write_rounds k fd (buf + n) (len - len) else pure tt

  unfoldable pub vmm_write : ℕ → ℕ → ℕ → ℕ → Cmd W (Unit {0})
  unfolding write_rounds
  vmm_write fd buf len off = do checked (os.lseek fd off); write_rounds (suc len) fd buf len
