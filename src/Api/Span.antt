-- ===== src/Api/Span.antt =====
-- Counting a range against counting all pages.
use sbma.Common.{
  ℕ, zero, suc, ◌+◌, ◌-◌, ◌*◌, ◌/◌, ◌≤◌, ◌<◌, ◌≡◌, refl, Bool, true, false, arith, if◌then◌else◌,
  within, count, count_congr, count-update, update, not, lt-mul_iff_div-lt,
}
use sbma.Mmu.{Flags}
use sbma.Api.{less, outer_beg, outer_end, inner_end, span}

-- All flags of the pages `[beg, beg+k)` changed by `e`.
pub count-span :
    (n k beg : ℕ) (p : Flags → Bool) (e : Flags → Flags) (f : ℕ → Flags)
    → beg + k ≤ n
    → count n p (λ i. if within beg (beg + k) i then e (f i) else f i) + span k beg p f
      ≡ count n p f + span k beg (λ x. p (e x)) f
unfolding span
count-span n zero beg p e f h = ground (
  arith,
  count_congr n p (λ i. if within beg (beg + 0) i then e (f i) else f i) f (λ i l. ground arith),
)
count-span n (suc k) beg p e f h = ground (
  arith,
  count-span n k (beg + 1) p e f (omega arith),
  count_congr n p (λ i. if within beg (beg + suc k) i then e (f i) else f i)
      (update (λ i. if within (beg + 1) (beg + 1 + k) i then e (f i) else f i) beg (e (f beg)))
      (λ i l. ground arith),
  count-update n beg p (λ i. if within (beg + 1) (beg + 1 + k) i then e (f i) else f i) (e (f beg))
      (omega arith),
)

pub span_none :
    (k beg : ℕ) (p : Flags → Bool) (f : ℕ → Flags)
    → ((i : ℕ) → beg ≤ i → i < beg + k → p (f i) ≡ false)
    → span k beg p f ≡ 0
unfolding span
span_none zero beg p f h = refl
span_none (suc k) beg p f h = ground (
  arith,
  h beg (omega arith) (omega arith),
  span_none k (beg + 1) p f (λ i l r. h i (omega arith) (omega arith)),
)

pub span_pos :
    (k beg : ℕ) (p : Flags → Bool) (f : ℕ → Flags) → 0 < k → p (f beg) ≡ true → 0 < span k beg p f
unfolding span
span_pos zero beg p f h e = absurd (omega arith)
span_pos (suc k) beg p f h e = ground (arith, e)

pub span_complement :
    (k beg : ℕ) (p : Flags → Bool) (f : ℕ → Flags)
    → span k beg p f + span k beg (λ x. not (p x)) f ≡ span k beg (λ x. true) f
unfolding span
span_complement zero beg p f = refl
span_complement (suc k) beg p f = ground (arith, span_complement k (beg + 1) p f)

module _ (ps base addr len n : ℕ) (pos : 0 < ps) (low : base ≤ addr) (some_bytes : 0 < len)
    (high : addr + len ≤ base + n * ps) where
  last_byte : less (less (addr + len) base) 1 ≡ addr + len - base - 1
  last_byte = ground arith

  first_byte : less addr base ≡ addr - base
  first_byte = ground arith

  div_mono : (a b : ℕ) → a ≤ b → a / ps ≤ b / ps
  div_mono a b le = grind arith

  -- The range is not empty, and lies within the allocation.
  pub outer_nonempty : outer_beg ps base addr < outer_end ps base addr len
  outer_nonempty =
      ground
        (arith, first_byte, last_byte, div_mono (addr - base) (addr + len - base - 1) (omega arith))

  pub outer_fits : outer_end ps base addr len ≤ n
  outer_fits = ground (arith, last_byte, lt-mul_iff_div-lt ps (addr + len - base - 1) pos n)

  end_byte : less (addr + len) base ≡ addr + len - base
  end_byte = ground arith

  pub inner_fits : inner_end ps base addr len ≤ n
  inner_fits =
      ground (arith, end_byte, lt-mul_iff_div-lt ps (addr + len - base) pos (n + 1), le_div)
    where
      le_div : (addr + len - base) / ps ≤ n
      le_div = grind arith

  -- The page of each byte of the range is in the range of pages.
  pub outer_covers :
      (x : ℕ)
      → addr ≤ base + x
      → base + x < addr + len
      → (outer_beg ps base addr ≤ x / ps) × (x / ps < outer_end ps base addr len)
  outer_covers x ge lt = (
    ground (arith, first_byte, div_mono (addr - base) x (omega arith)),
    ground (arith, last_byte, div_mono x (addr + len - base - 1) (omega arith)),
  )
