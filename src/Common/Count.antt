-- ===== src/Common/Count.antt =====
-- Arrays as functions of the index: writing one entry, and counting the entries that pass a test.
use Prim.Native.Nat.{ℕ, zero, suc, ◌+◌, ◌≤◌, ◌<◌}
use mathlib.Core.Path.{◌≡◌, refl}
use mathlib.Core.Bool.{Bool, true, false}
use native.Mathlib.Omega.{arith}
use mathlib.Core.Logic.{inl, inr, ◌≢◌}
use sbma.Common.Tests.{◌==◌, if◌then◌else◌, bit, Bool-cases}

module _ {A : Type 0} where
  abbrev pub update : (ℕ → A) → ℕ → A → ℕ → A
  update f i v j = if j == i then v else f j

  -- The number of the first `n` entries that pass.
  unfoldable pub count : ℕ → (A → Bool) → (ℕ → A) → ℕ
  count zero p f = 0
  count (suc n) p f = bit (p (f n)) + count n p f

  pub count-le : (n : ℕ) (p : A → Bool) (f : ℕ → A) → count n p f ≤ n
  unfolding count
  count-le zero p f = omega arith
  count-le (suc n) p f = ground (arith, count-le n p f)

  pub count_congr :
      (n : ℕ) (p : A → Bool) (f g : ℕ → A)
      → ((i : ℕ) → i < n → f i ≡ g i)
      → count n p f ≡ count n p g
  unfolding count
  count_congr zero p f g h = refl
  count_congr (suc n) p f g h =
      ground (arith, h n (omega arith), count_congr n p f g (λ i l. h i (omega arith)))

  pub count-update :
      (n i : ℕ) (p : A → Bool) (f : ℕ → A) (v : A)
      → i < n
      → count n p (update f i v) + bit (p (f i)) ≡ count n p f + bit (p v)
  unfolding count
  count-update zero i p f v h = absurd (omega arith)
  count-update (suc n) i p f v h = elim (Bool-cases (n == i)) [
    | inl e ↦ ground (arith, count_congr n p (update f i v) f (λ j l. ground arith))
    | inr e ↦ ground (arith, count-update n i p f v (ground arith))
  ]

  pub update_out : (f : ℕ → A) (i j : ℕ) (v : A) → j ≢ i → update f i v j ≡ f j
  update_out f i j v h = ground arith

  pub update_self : (f : ℕ → A) (i : ℕ) (v : A) → update f i v i ≡ v
  update_self f i v = ground arith

  -- An entry that passes makes the count positive.
  pub count_pos : (n i : ℕ) (p : A → Bool) (f : ℕ → A) → i < n → p (f i) ≡ true → 0 < count n p f
  unfolding count
  count_pos zero i p f h e = absurd (omega arith)
  count_pos (suc n) i p f h e = elim (Bool-cases (n == i)) [
    | inl q ↦ ground arith
    | inr q ↦ ground (arith, count_pos n i p f (ground arith) e)
  ]

  -- An entry that does not pass keeps the count below the length.
  pub count-lt : (n i : ℕ) (p : A → Bool) (f : ℕ → A) → i < n → p (f i) ≡ false → count n p f < n
  unfolding count
  count-lt zero i p f h e = absurd (omega arith)
  count-lt (suc n) i p f h e = elim (Bool-cases (n == i)) [
    | inl q ↦ ground (arith, count-le n p f)
    | inr q ↦ ground (arith, count-lt n i p f (ground arith) e)
  ]

  -- A test that every passing entry passes counts no less.
  pub count_mono :
      (n : ℕ) (p q : A → Bool) (f : ℕ → A)
      → ((i : ℕ) → i < n → p (f i) ≡ true → q (f i) ≡ true)
      → count n p f ≤ count n q f
  unfolding count
  count_mono zero p q f h = omega arith
  count_mono (suc n) p q f h =
      ground (arith, h n (omega arith), count_mono n p q f (λ i l. h i (omega arith)))

  -- A full count lets no entry fail.
  pub count_all : (n i : ℕ) (p : A → Bool) (f : ℕ → A) → i < n → n ≤ count n p f → p (f i) ≡ true
  count_all n i p f h full = elim (Bool-cases (p (f i))) [
    | inl e ↦ e
    | inr e ↦ absurd (omega (arith, count-lt n i p f h e))
  ]

  -- Nothing is counted when no entry passes.
  pub count_none :
      (n : ℕ) (p : A → Bool) (f : ℕ → A) → ((i : ℕ) → i < n → p (f i) ≡ false) → count n p f ≡ 0
  unfolding count
  count_none zero p f h = refl
  count_none (suc n) p f h =
      ground (arith, h n (omega arith), count_none n p f (λ i l. h i (omega arith)))

  -- Every entry is counted when all pass.
  pub count_full : (n : ℕ) (p : A → Bool) (v : A) → p v ≡ true → count n p (λ i. v) ≡ n
  unfolding count
  count_full zero p v h = refl
  count_full (suc n) p v h = ground (arith, h, count_full n p v h)
