-- ===== src/Klmalloc/Bricks/Get.antt =====
-- `kl_brick_get` of src/klmalloc/klmalloc.c on a block that has a free brick.
use sbma.Common.{
  ℕ, ◌+◌, ◌-◌, ◌*◌, ◌%◌, ◌≤◌, ◌<◌, ◌≡◌, ◌≢◌, ◌⊎◌, refl, ap, ◌==◌, if◌then◌else◌, List, [], ◌∷◌,
  some, arith, inl, inr, done, subst, sym, ◌∙◌,
}
use sbma.Klmalloc.Heap.{Sys, Heap, write, length, kl_g_count, kl_g_bidx, kl_g_size}
use sbma.Klmalloc.Bricks.{head_of, set_next, drop_block, first_use, take_brick}
use sbma.Klmalloc.Bricks.Chain.{Unused, Chain, Chain-Same, Same-Apart, Chain-InBlock, Chain-Unused}

-- The bytes of a brick of the bin.
abbrev pub brick_bytes : ℕ → ℕ
brick_bytes bidx = (bidx + 1) * 8

-- A block of bricks whose free ones are `xs`, the first to be handed out first.
pub record IsBrickBlock {W : Type 0} (h : Heap W) (bidx blk : ℕ) (xs : List ℕ) : Type 0 where
  pub even : blk % 2 ≡ 0
  pub some_bytes : 1 ≤ bidx
  pub small : bidx ≤ 4
  pub few : length xs < 72057594037927936
  pub header : h.words blk ≡ bidx * 72057594037927936 + length xs
  pub chain : Chain h.words blk (brick_bytes bidx) (h.words (head_of blk)) xs

-- The count of the free bricks is decremented.
abbrev pub counted : {W : Type 0} → ℕ → Heap W → Heap W
counted blk h = write blk (h.words blk - 1) h

-- The brick is the first no more.
abbrev pub handed_out : {W : Type 0} → ℕ → ℕ → Heap W → Heap W
handed_out blk x g = write (x + 8) 0 (write (head_of blk) (g.words (x + 8)) g)

module _ {W : Type 0} (sys : Sys W) where
  -- The steps of take_brick.
  pub take_brick_lem :
      (bidx blk x : ℕ) (h h' : Heap W)
      → h.words (head_of blk) ≡ x
      → (if kl_g_count (counted blk h).words blk == 0
          then drop_block bidx blk (counted blk h)
          else done tt (counted blk h))
        ≡ done tt h'
      → take_brick sys bidx blk h ≡ done (some x) (handed_out blk x (first_use sys blk x h'))
  unfolding take_brick
  take_brick_lem bidx blk x h h' e run = rw (e, run) refl

  -- A brick that has been used before.
  pub use_again : (blk x : ℕ) (h : Heap W) → h.words x ≡ blk + 1 → first_use sys blk x h ≡ h
  unfolding first_use
  use_again blk x h e = ground (arith, e)

  -- The last brick, which has not been used before.
  pub use_last :
      (blk x : ℕ) (h : Heap W)
      → h.words x ≡ 0
      → kl_g_count h.words blk ≡ 0
      → first_use sys blk x h ≡ write x (blk + 1) h
  unfolding first_use
  use_last blk x h e e' = ground (arith, e, e')

  -- Another one that has not been used before.
  pub use_first :
      (bidx blk x : ℕ) (h : Heap W)
      → h.words x ≡ 0
      → kl_g_count h.words blk ≢ 0
      → blk % 2 ≡ 0
      → x ≢ blk
      → kl_g_bidx h.words blk ≡ bidx
      → first_use sys blk x h ≡ set_next x (x + brick_bytes bidx) (write x (blk + 1) h)
  unfolding first_use
  use_first bidx blk x h e more even out e' = ground (arith, e, more, own)
    where
      own : kl_g_size (write x (blk + 1) h).words x ≡ brick_bytes bidx
      own = ground (arith, back, e')
        where
          back : blk + 1 - 1 ≡ blk
          back = omega arith

  module _ (bidx blk x : ℕ) (xs : List ℕ) (h : Heap W) (i : IsBrickBlock h bidx blk (x ∷ xs)) where
    pub count : kl_g_count (counted blk h).words blk ≡ length xs
    count = ground (arith, i.header, i.few)

    pub bin : kl_g_bidx (counted blk h).words blk ≡ bidx
    bin = ground (arith, i.header, i.few)

    pub low : blk + 8 ≤ x
    low = i.chain.1

    pub high : x + brick_bytes bidx ≤ blk + 262120
    high = i.chain.2

    -- What is needed of the words at the end.
    pub IsBrickBlock-handed_out :
        (g : Heap W)
        → g.words blk ≡ h.words blk - 1
        → Chain (handed_out blk x g).words blk (brick_bytes bidx) (g.words (x + 8)) xs
        → IsBrickBlock (handed_out blk x g) bidx blk xs
    IsBrickBlock-handed_out g e chain = record {
      even = i.even;
      some_bytes = i.some_bytes;
      small = i.small;
      few = omega (arith, i.few);
      header = ground (arith, e, i.header, low, high, i.some_bytes);
      chain =
          subst (λ a. Chain (handed_out blk x g).words blk (brick_bytes bidx) a xs) (sym first)
            chain;
    }
      where
        first : (handed_out blk x g).words (head_of blk) ≡ g.words (x + 8)
        first = ground (arith, high, i.some_bytes)

    pub again :
        h.words x ≡ blk + 1
        → Chain h.words blk (brick_bytes bidx) (h.words (x + 8)) xs
        → (g : Heap W) → g.words ≡ (counted blk h).words
        → IsBrickBlock (handed_out blk x g) bidx blk xs × ((handed_out blk x g).words x ≡ blk + 1)
    again used rest g e = (
      IsBrickBlock-handed_out g (same blk ∙ ground arith) (
          subst (λ a. Chain (handed_out blk x g).words blk (brick_bytes bidx) a xs) (sym next)
            (Chain-Same h.words (handed_out blk x g).words blk (brick_bytes bidx) (h.words (x + 8))
              xs rest
              (Same-Apart h.words (handed_out blk x g).words blk (brick_bytes bidx) x xs
                (omega (arith, i.some_bytes)) kept i.chain.3
                (Chain-InBlock blk (brick_bytes bidx) h.words (h.words (x + 8)) xs rest)))),
      ground (arith, same x, low, high, i.some_bytes, used),
    )
      where
        same : (a : ℕ) → g.words a ≡ (counted blk h).words a
        same a = ap (λ (w : ℕ → ℕ). w a) e

        next : g.words (x + 8) ≡ h.words (x + 8)
        next = ground (arith, same (x + 8), low)

        kept :
            (y : ℕ)
            → blk + 8 ≤ y
            → y < blk + 262120
            → (x + brick_bytes bidx ≤ y) ⊎ (y < x)
            → (handed_out blk x g).words y ≡ h.words y
        kept y from to (inl le) = ground (arith, same y, i.some_bytes)
        kept y from to (inr lt) = ground (arith, same y, i.some_bytes)

    pub fresh :
        h.words x ≡ 0
        → Unused blk (brick_bytes bidx) (x + brick_bytes bidx) xs
        → (g : Heap W) → g.words ≡ (counted blk h).words
        → IsBrickBlock
            (handed_out blk x (set_next x (x + brick_bytes bidx) (write x (blk + 1) g)))
            bidx
            blk
            xs
          × ((handed_out blk x (set_next x (x + brick_bytes bidx) (write x (blk + 1) g))).words x
              ≡ blk + 1)
    unfolding set_next
    fresh new rest g e = (
      IsBrickBlock-handed_out linked (ground (arith, same blk, low)) (
          subst (λ a. Chain (handed_out blk x linked).words blk (brick_bytes bidx) a xs) (sym next)
            (chain xs rest)),
      ground (arith, low, high, i.some_bytes),
    )
      where
        linked : Heap W
        linked = set_next x (x + brick_bytes bidx) (write x (blk + 1) g)

        same : (a : ℕ) → g.words a ≡ (counted blk h).words a
        same a = ap (λ (w : ℕ → ℕ). w a) e

        next : linked.words (x + 8) ≡ x + brick_bytes bidx
        next = ground (arith, i.some_bytes)

        chain :
            (ys : List ℕ)
            → Unused blk (brick_bytes bidx) (x + brick_bytes bidx) ys
            → Chain (handed_out blk x linked).words blk (brick_bytes bidx) (x + brick_bytes bidx) ys
        chain [] u = tt
        chain (y ∷ ys) (at, fits, u) =
            Chain-Unused blk (brick_bytes bidx) (handed_out blk x linked).words
              (x + brick_bytes bidx) (y ∷ ys) (omega (arith, low))
              (ground (arith, i.some_bytes, at, fits, high)) (at, fits, u)
