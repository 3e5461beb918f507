-- ===== src/Common/Pages.antt =====
-- Bytes and the pages that hold them: byte `x` lies on page `x / page_size`.
use Prim.Native.Nat.{ℕ, ◌+◌, ◌-◌, ◌*◌, ◌/◌, ◌≤◌, ◌<◌}
use mathlib.Core.Path.{◌≡◌, ap}
use mathlib.Core.Bool.{Bool, ◌&&◌}
use native.Mathlib.Omega.{arith}
use native.Mathlib.Nat.{add-mul}
use sbma.Common.Tests.{ltb, leb}

-- `lo ≤ x < hi`.
abbrev pub within : ℕ → ℕ → ℕ → Bool
within lo hi x = leb lo x && ltb x hi

module _ (ps x : ℕ) (pos : 0 < ps) where
  pub le-mul_iff_le-div : (a : ℕ) → leb (a * ps) x ≡ leb a (x / ps)
  le-mul_iff_le-div a = grind arith

  pub lt-mul_iff_div-lt : (b : ℕ) → ltb x (b * ps) ≡ ltb (x / ps) b
  lt-mul_iff_div-lt b = grind arith

  pub within-pages : (f n : ℕ) → within (f * ps) (f * ps + n * ps) x ≡ within f (f + n) (x / ps)
  within-pages f n = ground (arith, le-mul_iff_le-div f, lt-mul_iff_div-lt (f + n), add-mul f n ps)

-- What reaches the end of the pages `[f, ip)` reaches the end of each of them.
pub page_reached :
    (ps f ip i size : ℕ) → f ≤ ip → i < ip → f * ps + (ip - f) * ps ≤ size → (i + 1) * ps ≤ size
page_reached ps f ip i size le lt h =
    omega (arith, ordered, add-mul f (ip - f) ps, ap (λ (n : ℕ). n * ps) whole)
  where
    ordered : (i + 1) * ps ≤ ip * ps
    ordered = grind arith

    whole : f + (ip - f) ≡ ip
    whole = omega arith
