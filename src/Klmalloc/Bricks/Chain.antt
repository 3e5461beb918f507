-- ===== src/Klmalloc/Bricks/Chain.antt =====
-- The free bricks of a block of src/klmalloc/klmalloc.c, in the order in which they are handed out.
use sbma.Common.{ℕ, ◌+◌, ◌≤◌, ◌<◌, ◌≡◌, ◌⊎◌, List, [], ◌∷◌, arith, inl, inr, subst, sym, ◌∙◌}

-- The brick at `x` shares no byte with those of the list.
abbrev pub Apart : ℕ → ℕ → List ℕ → Type 0
Apart sz x [] = Unit {0}
Apart sz x (y ∷ ys) = ((x + sz ≤ y) ⊎ (y + sz ≤ x)) × Apart sz x ys

-- Bricks that have never been used follow one another from `a` on.
abbrev pub Unused : ℕ → ℕ → ℕ → List ℕ → Type 0
Unused blk sz a [] = Unit {0}
Unused blk sz a (x ∷ xs) = (a ≡ x) × (x + sz ≤ blk + 262120) × Unused blk sz (x + sz) xs

-- The free bricks from `a` on: a brick that has been used names its block and the next one, and the header of one
-- that has not is 0.
abbrev pub Chain : (ℕ → ℕ) → ℕ → ℕ → ℕ → List ℕ → Type 0
Chain w blk sz a [] = Unit {0}
Chain w blk sz a (x ∷ xs) =
    (a ≡ x)
    × (blk + 8 ≤ x)
    × (x + sz ≤ blk + 262120)
    × Apart sz x xs
    × (((w x ≡ blk + 1) × Chain w blk sz (w (x + 8)) xs) ⊎ ((w x ≡ 0) × Unused blk sz (x + sz) xs))

abbrev pub InBlock : ℕ → ℕ → List ℕ → Type 0
InBlock blk sz [] = Unit {0}
InBlock blk sz (x ∷ xs) = (blk + 8 ≤ x) × (x + sz ≤ blk + 262120) × InBlock blk sz xs

module _ (blk sz : ℕ) where
  Unused-InBlock : (a : ℕ) (xs : List ℕ) → blk + 8 ≤ a → Unused blk sz a xs → InBlock blk sz xs
  Unused-InBlock a [] low u = tt
  Unused-InBlock a (x ∷ xs) low (e, high, u) =
      (omega arith, high, Unused-InBlock (x + sz) xs (omega arith) u)

  pub Chain-InBlock : (w : ℕ → ℕ) (a : ℕ) (xs : List ℕ) → Chain w blk sz a xs → InBlock blk sz xs
  Chain-InBlock w a [] c = tt
  Chain-InBlock w a (x ∷ xs) (e, low, high, apart, inl (used, rest)) =
      (low, high, Chain-InBlock w (w (x + 8)) xs rest)
  Chain-InBlock w a (x ∷ xs) (e, low, high, apart, inr (new, rest)) =
      (low, high, Unused-InBlock (x + sz) xs (omega arith) rest)

  Unused-Apart : (x a : ℕ) (xs : List ℕ) → x + sz ≤ a → Unused blk sz a xs → Apart sz x xs
  Unused-Apart x a [] le u = tt
  Unused-Apart x a (y ∷ ys) le (e, high, u) =
      (inl (omega arith), Unused-Apart x (y + sz) ys (omega arith) u)

  -- The next one of bricks that have not been used, once its header is 0.
  pub Chain-Unused :
      (w : ℕ → ℕ) (x : ℕ) (xs : List ℕ)
      → blk + 8 ≤ x
      → w x ≡ 0
      → Unused blk sz x xs
      → Chain w blk sz x xs
  Chain-Unused w x [] low e u = tt
  Chain-Unused w x (y ∷ ys) low e (same, high, u) = (
    same,
    omega arith,
    high,
    Unused-Apart y (y + sz) ys (omega arith) u,
    inr (subst (λ z. w z ≡ 0) same e, u),
  )

-- The two words of each brick are the same.
abbrev pub Same : (ℕ → ℕ) → (ℕ → ℕ) → List ℕ → Type 0
Same w w' [] = Unit {0}
Same w w' (x ∷ xs) = (w' x ≡ w x) × (w' (x + 8) ≡ w (x + 8)) × Same w w' xs

module _ (w w' : ℕ → ℕ) (blk sz : ℕ) where
  pub Chain-Same : (a : ℕ) (xs : List ℕ) → Chain w blk sz a xs → Same w w' xs → Chain w' blk sz a xs
  Chain-Same a [] c s = tt
  Chain-Same a (x ∷ xs) (e, low, high, apart, inl (used, rest)) (same, same', others) = (
    e,
    low,
    high,
    apart,
    inl (
      same ∙ used,
      subst (λ y. Chain w' blk sz y xs) (sym same') (Chain-Same (w (x + 8)) xs rest others),
    ),
  )
  Chain-Same a (x ∷ xs) (e, low, high, apart, inr (new, rest)) (same, same', others) =
      (e, low, high, apart, inr (same ∙ new, rest))

  -- Only words of the brick at `x`, or outside the bricks, change.
  pub Same-Apart :
      (x : ℕ) (xs : List ℕ)
      → 16 ≤ sz
      → ((y : ℕ) → blk + 8 ≤ y → y < blk + 262120 → (x + sz ≤ y) ⊎ (y < x) → w' y ≡ w y)
      → Apart sz x xs
      → InBlock blk sz xs
      → Same w w' xs
  Same-Apart x [] large same apart range = tt
  Same-Apart x (y ∷ ys) large same (inl before, apart) (low, high, range) = (
    same y low (omega arith) (inl before),
    same (y + 8) (omega arith) (omega arith) (inl (omega arith)),
    Same-Apart x ys large same apart range,
  )
  Same-Apart x (y ∷ ys) large same (inr behind, apart) (low, high, range) = (
    same y low (omega arith) (inr (omega arith)),
    same (y + 8) (omega arith) (omega arith) (inr (omega arith)),
    Same-Apart x ys large same apart range,
  )
