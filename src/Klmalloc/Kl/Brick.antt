-- ===== src/Klmalloc/Kl/Brick.antt =====
-- KL_malloc of src/klmalloc/klmalloc.c for a brick, and KL_free of what it returns.
use sbma.Common.{
  ℕ, ◌+◌, ◌-◌, ◌*◌, ◌≤◌, ◌<◌, ◌≡◌, ◌≢◌, ap, true, false, ◌==◌, if◌then◌else◌, List, ◌∷◌, some,
  arith, inl, inr, Bool-cases, done, ◌∙◌,
}
use sbma.Klmalloc.Heap.{Sys, Heap, on, length, is_brick, kl_brick_size, kl_g_bidx, kl_g_size}
use sbma.Klmalloc.Bricks.{
  take_brick, head_block, kl_brick_get, kl_brick_put, kl_g_brickbin, is_listed, brick_count,
}
use sbma.Klmalloc.Bricks.Get.{IsBrickBlock}
use sbma.Klmalloc.Bricks.Returned.{IsHandedOut, take_brick-IsHandedOut}
use sbma.Klmalloc.Bricks.Put.{put, put_run, put-IsBrickBlock, put-bricks}
use sbma.Klmalloc.Kl.{Libc, kl_malloc, kl_free, try_brick, ptr_of}
use sbma.Klmalloc.Kl.Refused.{malloc_brick}

module _ {W : Type 0} (sys : Sys W) (libc : Libc W) (size blk x : ℕ) (xs rest : List ℕ) (h : Heap W)
    (low : 0 < size) (small : size ≤ 31) (i : IsBrickBlock h (kl_g_brickbin size) blk (x ∷ xs))
    (listed : h.brick_bin (kl_g_brickbin size) ≡ blk ∷ rest) where
  abbrev bidx : ℕ
  bidx = kl_g_brickbin size

  found : head_block sys bidx h ≡ some blk
  unfolding head_block
  found = ground (arith, listed, i.chain.0, i.chain.1)

  get_run :
      (h' : Heap W)
      → take_brick sys bidx blk h ≡ done (some x) h'
      → kl_brick_get sys size h ≡ done (some x) h'
  unfolding kl_brick_get
  get_run h' run = ground (arith, found, run)

  module _ (h' : Heap W) (o : IsHandedOut h bidx blk x xs rest h') where
    typed : is_brick h'.words x ≡ true
    typed = ground (arith, o.named, o.block.even)

    sized : kl_g_size h'.words x ≡ kl_brick_size size
    sized = ground (arith, typed, own, wide)
      where
        place : h'.words x - 1 ≡ blk
        place = omega (arith, o.named)

        own : kl_g_bidx h'.words (h'.words x - 1) ≡ kl_g_brickbin size
        own = ground (arith, place, o.block.header, o.block.few)

        wide : (kl_g_brickbin size + 1) * 8 ≡ kl_brick_size size
        wide = omega arith

    malloc_run :
        take_brick sys bidx blk h ≡ done (some x) h'
        → try_brick sys size h ≡ done (some (ptr_of x)) h'
    unfolding try_brick
    malloc_run run = ground (arith, get_run h' run, typed, sized, positive, here)
      where
        positive : 0 < kl_brick_size size
        positive = omega arith

        here : x + 8 - 8 ≡ x
        here = omega arith

    free_run :
        (h'' : Heap W)
        → h'.enabled ≡ on
        → kl_brick_put sys x h' ≡ done tt h''
        → kl_free sys libc (ptr_of x) h' ≡ done tt h''
    unfolding kl_free
    free_run h'' e run = ground (arith, e, run, typed, here)
      where
        here : x + 8 - 8 ≡ x
        here = omega arith

    -- After the free the block is in its list once more, as the first.
    relisted :
        is_listed blk rest ≡ false
        → (few : length xs + 1 < 72057594037927936)
        → (put sys bidx blk x xs h' o.block o.named i.chain.1 i.chain.2 i.chain.3 few).brick_bin
            bidx
          ≡ blk ∷ rest
    unfolding is_listed
    relisted once few = elim (Bool-cases (length xs == 0)) [
      | inl e ↦ ground (arith, pushed, at, once, e)
      | inr e ↦ ground (arith, pushed, at, e)
    ]
      where
        at : h'.brick_bin bidx ≡ (if length xs == 0 then rest else blk ∷ rest)
        at = ground (arith, ap (λ (f : ℕ → List ℕ). f bidx) o.bricks, listed)

        pushed :
            (put sys bidx blk x xs h' o.block o.named i.chain.1 i.chain.2 i.chain.3 few).brick_bin
              bidx
            ≡ (if is_listed blk (h'.brick_bin bidx)
                then h'.brick_bin bidx
                else blk ∷ h'.brick_bin bidx)
        pushed = ground (
          arith,
          ap (λ (f : ℕ → List ℕ). f bidx)
              (put-bricks sys bidx blk x xs h' o.block o.named i.chain.1 i.chain.2 i.chain.3 few),
        )

  -- For 1 to 31 bytes, when the first block of the bin for this size has a free brick and one in use, KL_malloc
  -- returns the address behind the header of the brick that was freed last, and KL_free of this address
  -- returns; neither aborts. In between this brick names its block, the others are free in the order of
  -- before, and the block stands in the list of its bin only if there are any. After both the free bricks
  -- and the list are as before.
  pub kl_free-kl_malloc_brick :
      h.enabled ≡ on
      → is_listed blk rest ≡ false
      → length xs + 1 ≢ brick_count (kl_g_brickbin size)
      → (h' : Heap W) × (h'' : Heap W) × (kl_malloc sys libc size h ≡ done (some (x + 8)) h')
        × IsHandedOut h (kl_g_brickbin size) blk x xs rest h'
        × (kl_free sys libc (x + 8) h' ≡ done tt h'')
        × IsBrickBlock h'' (kl_g_brickbin size) blk (x ∷ xs)
        × (h''.brick_bin (kl_g_brickbin size) ≡ blk ∷ rest)
  kl_free-kl_malloc_brick e once some_used =
      let (h', run, o) = take_brick-IsHandedOut sys bidx blk x rest h listed xs i in
      let few : length xs + 1 < 72057594037927936 = omega (arith, i.few) in
      (
        h',
        put sys bidx blk x xs h' o.block o.named i.chain.1 i.chain.2 i.chain.3 few,
        malloc_brick sys libc size h e (omega arith) ∙ malloc_run h' o run,
        o,
        free_run h' o _ (o.enabled ∙ e) (
            put_run sys bidx blk x xs h' o.block o.named i.chain.1 i.chain.2 i.chain.3 few
              some_used),
        put-IsBrickBlock sys bidx blk x xs h' o.block o.named i.chain.1 i.chain.2 i.chain.3 few,
        relisted h' o once few,
      )
