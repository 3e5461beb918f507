-- ===== src/Common/Runs.antt =====
-- Runs of consecutive pages, as the swap loops collect them before one transfer.
use Prim.Native.Nat.{ℕ, ◌+◌, ◌-◌, ◌≤◌, ◌<◌}
use mathlib.Core.Path.{◌≡◌}
use mathlib.Core.Bool.{Bool, false, ◌||◌}
use mathlib.Core.Option.{Option, none, some}
use native.Mathlib.Omega.{arith}
use sbma.Common.Tests.{◌==◌}
use sbma.Common.Pages.{within}

-- `ipfirst`: the first page of the run that is being collected, or -1.
abbrev pub or_else : Option ℕ → ℕ → Option ℕ
or_else none ip = some ip
or_else (some f) ip = some f

-- The pages that wait in the run `ipfirst`, which ends at `ip`.
abbrev pub pending : Option ℕ → ℕ → ℕ
pending none ip = 0
pending (some f) ip = ip - f

abbrev pub in_run : Option ℕ → ℕ → ℕ → Bool
in_run none ip i = false
in_run (some f) ip i = within f ip i

abbrev pub RunFits : Option ℕ → ℕ → ℕ → Type 0
RunFits none beg ip = Unit {0}
RunFits (some f) beg ip = (beg ≤ f) × (f < ip)

pub RunFits-or_else :
    (run : Option ℕ) (beg ip : ℕ)
    → RunFits run beg ip
    → beg ≤ ip
    → RunFits (or_else run ip) beg (ip + 1)
RunFits-or_else none beg ip h le = (le, omega arith)
RunFits-or_else (some f) beg ip h le = (h.0, omega arith)

pub pending-or_else :
    (run : Option ℕ) (beg ip : ℕ)
    → RunFits run beg ip
    → pending (or_else run ip) (ip + 1) ≡ pending run ip + 1
pending-or_else none beg ip h = omega arith
pending-or_else (some f) beg ip h = omega arith

pub in_run-or_else :
    (run : Option ℕ) (beg ip i : ℕ)
    → RunFits run beg ip
    → in_run (or_else run ip) (ip + 1) i ≡ (in_run run ip i || (i == ip))
in_run-or_else none beg ip i h = ground arith
in_run-or_else (some f) beg ip i h = ground arith
