-- ===== src/Klmalloc/Log2.antt =====
-- The base 2 logarithm of src/klmalloc/klmalloc.c.
use sbma.Common.{
  ℕ, zero, suc, ◌+◌, ◌*◌, ◌/◌, ◌^◌, ◌≤◌, ◌<◌, ◌≡◌, arith, true, ap, inl, inr, Bool-cases, ◌==◌,
}
use native.Mathlib.Nat.{pow-suc, one-le-pow, pow-le-pow_right}
use sbma.Klmalloc.{highest_bit, kllog2}

pow_double : (i : ℕ) → 2 ^ (i + 1) ≡ 2 * 2 ^ i
pow_double i = omega (arith, pow-suc 2 i, suc_eq)
  where
    suc_eq : 2 ^ (i + 1) ≡ 2 ^ suc i
    suc_eq = ap (λ n. 2 ^ n) (omega arith)

pow_pos : (i : ℕ) → 0 < 2 ^ i
pow_pos i = one-le-pow i 2 (omega arith)

pow_mono : (i j : ℕ) → i ≤ j → 2 ^ i ≤ 2 ^ j
pow_mono i j le = pow-le-pow_right (omega arith) le

div_one : (v p : ℕ) → 0 < p → p ≤ v → v < 2 * p → v / p ≡ 1
div_one v p pos le lt = grind arith

div_zero : (v p : ℕ) → 0 < p → v < p → v / p ≡ 0
div_zero v p pos lt = grind arith

highest_bit_lem : (n l v : ℕ) → l < n → 2 ^ l ≤ v → v < 2 ^ (l + 1) → highest_bit n v ≡ l
unfolding highest_bit
highest_bit_lem zero l v h low high = absurd (omega arith)
highest_bit_lem (suc i) l v h low high = elim (Bool-cases (i == l)) [
  | inl e ↦ ground (
    arith,
    div_one v (2 ^ i) (pow_pos i) (rw (same e) low)
        (rw (same e) (omega (arith, high, pow_double l))),
  )
  | inr e ↦ ground (
    arith,
    div_zero v (2 ^ i) (pow_pos i) (omega (arith, high, pow_mono (l + 1) i (ground arith))),
    highest_bit_lem i l v (ground arith) low high,
  )
]
  where
    same : (i == l) ≡ true → i ≡ l
    same e = ground arith

-- KLLOG2 is the logarithm, of the numbers that a size_t holds.
pub kllog2_lem : (l v : ℕ) → l < 64 → 2 ^ l ≤ v → v < 2 ^ (l + 1) → kllog2 v ≡ l
kllog2_lem l v h low high = omega (arith, highest_bit_lem 64 l v h low high)
