-- ===== src/Klmalloc/Bricks/Returned.antt =====
-- KL_malloc of src/klmalloc/klmalloc.c for a brick, and KL_free of what it returns.
use sbma.Common.{
  ℕ, ◌+◌, ◌≡◌, refl, ap, true, ◌==◌, if◌then◌else◌, List, [], ◌∷◌, some, arith, inl, inr,
  Bool-cases, done, update, ◌∙◌,
}
use sbma.Klmalloc.Heap.{Sys, Heap, write, length, unlink, kl_g_count}
use sbma.Klmalloc.Bricks.{set_bricks, set_next, drop_block, first_use, take_brick}
use sbma.Klmalloc.Bricks.Chain.{Chain}
use sbma.Klmalloc.Bricks.Get.{
  brick_bytes, low, high, IsBrickBlock, counted, count, bin, handed_out, IsBrickBlock-handed_out,
  again, fresh, take_brick_lem, use_again, use_last, use_first,
}

-- The brick `x` of the block `blk` has been handed out, and `xs` are free.
pub record IsHandedOut {W : Type 0} (h : Heap W) (bidx blk x : ℕ) (xs rest : List ℕ) (h' : Heap W)
    : Type 0 where
  pub block : IsBrickBlock h' bidx blk xs
  pub named : h'.words x ≡ blk + 1
  pub bricks : h'.brick_bin ≡ (if length xs == 0 then update h.brick_bin bidx rest else h.brick_bin)
  pub enabled : h'.enabled ≡ h.enabled

no-Chain : (w : ℕ → ℕ) (blk sz a : ℕ) (xs : List ℕ) → (length xs == 0) ≡ true → Chain w blk sz a xs
no-Chain w blk sz a [] e = tt
no-Chain w blk sz a (x ∷ xs) e = absurd (ground arith)

module _ {W : Type 0} (sys : Sys W) (bidx blk x : ℕ) (rest : List ℕ) (h : Heap W)
    (listed : h.brick_bin bidx ≡ blk ∷ rest) where
  dropped :
      (g : Heap W)
      → g.brick_bin ≡ h.brick_bin
      → drop_block bidx blk g ≡ done tt (set_bricks bidx rest g)
  unfolding drop_block unlink
  dropped g e = ground (arith, ap (λ (f : ℕ → List ℕ). f bidx) e, listed)

  module _ (xs : List ℕ) (i : IsBrickBlock h bidx blk (x ∷ xs)) where
    -- What is done with the block after the count: the last brick takes it out of its list.
    after : Heap W
    after = if length xs == 0 then set_bricks bidx rest (counted blk h) else counted blk h

    step :
        (if kl_g_count (counted blk h).words blk == 0
          then drop_block bidx blk (counted blk h)
          else done tt (counted blk h))
        ≡ done tt after
    unfolding after
    step = elim (Bool-cases (length xs == 0)) [
      | inl e ↦ ground (arith, e, count sys bidx blk x xs h i, dropped (counted blk h) refl)
      | inr e ↦ ground (arith, e, count sys bidx blk x xs h i)
    ]

    run : take_brick sys bidx blk h ≡ done (some x) (handed_out blk x (first_use sys blk x after))
    run = take_brick_lem sys bidx blk x h after i.chain.0 step

    words : after.words ≡ (counted blk h).words
    unfolding after
    words = ground arith

    header : (a : ℕ) → after.words a ≡ (counted blk h).words a
    header a = ap (λ (w : ℕ → ℕ). w a) words

    bricks :
        after.brick_bin ≡ (if length xs == 0 then update h.brick_bin bidx rest else h.brick_bin)
    unfolding after
    bricks = ground arith

    enabled : after.enabled ≡ h.enabled
    unfolding after
    enabled = ground arith

    -- What the first use of the brick makes of the heap.
    finish :
        (g : Heap W)
        → first_use sys blk x after ≡ g
        → g.brick_bin ≡ after.brick_bin
        → g.enabled ≡ after.enabled
        → IsBrickBlock (handed_out blk x g) bidx blk xs
        → (handed_out blk x g).words x ≡ blk + 1
        → (h' : Heap W) × (take_brick sys bidx blk h ≡ done (some x) h')
          × IsHandedOut h bidx blk x xs rest h'
    finish g e same same' block named = (
      handed_out blk x g,
      run ∙ ap (λ (y : Heap W). done (some x) (handed_out blk x y)) e,
      record { block = block; named = named; bricks = same ∙ bricks; enabled = same' ∙ enabled },
    )

    zero_of : h.words x ≡ 0 → after.words x ≡ 0
    zero_of new = ground (arith, header x, low sys bidx blk x xs h i)

    pub take_brick-IsHandedOut :
        (h' : Heap W) × (take_brick sys bidx blk h ≡ done (some x) h')
        × IsHandedOut h bidx blk x xs rest h'
    unfolding set_next
    take_brick-IsHandedOut = elim i.chain.4 [
      | inl (used, tail) ↦
          let (block, named) = again sys bidx blk x xs h i used tail after words in
          finish after
            (use_again sys blk x after (ground (arith, header x, low sys bidx blk x xs h i, used)))
            refl refl block named
      | inr (new, tail) ↦ elim (Bool-cases (length xs == 0)) [
        | inl e ↦
            finish (write x (blk + 1) after)
              (use_last sys blk x after (zero_of new)
                (ground (arith, header blk, count sys bidx blk x xs h i, e)))
              refl refl
              (IsBrickBlock-handed_out sys bidx blk x xs h i (write x (blk + 1) after)
                (ground (arith, header blk, low sys bidx blk x xs h i))
                (no-Chain _ blk (brick_bytes bidx) _ xs e))
              (ground (arith, high sys bidx blk x xs h i, i.some_bytes))
        | inr e ↦
            let (block, named) = fresh sys bidx blk x xs h i new tail after words in
            finish (set_next x (x + brick_bytes bidx) (write x (blk + 1) after))
              (use_first sys bidx blk x after (zero_of new)
                (λ z. ground (arith, header blk, count sys bidx blk x xs h i, e, z)) i.even
                (λ z. omega (arith, z, low sys bidx blk x xs h i))
                (ground (arith, header blk, bin sys bidx blk x xs h i)))
              refl refl block named
      ]
    ]
