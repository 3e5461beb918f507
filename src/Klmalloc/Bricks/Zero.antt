-- ===== src/Klmalloc/Bricks/Zero.antt =====
-- `kl_brick_get` of src/klmalloc/klmalloc.c for 0 bytes.
use sbma.Common.{ℕ, ◌+◌, ◌%◌, ◌≡◌, refl, ap, ◌==◌, if◌then◌else◌, ◌∷◌, some, none, arith, done, ◌∙◌}
use sbma.Klmalloc.Heap.{Sys, Heap, write, kl_g_count, some_block}
use sbma.Klmalloc.Bricks.{set_next, first_use, take_brick, designate, head_block, kl_brick_get}
use sbma.Klmalloc.Bricks.Get.{counted, handed_out, take_brick_lem, use_first}

module _ {W : Type 0} (sys : Sys W) (h h0 : Heap W) (blk : ℕ) (even : blk % 2 ≡ 0) where
  start : Heap W
  start = designate sys 0 blk h0

  first : Heap W
  first = set_next (blk + 8) (blk + 8 + 8) (write (blk + 8) (blk + 1) (counted blk start))

  start_words :
      (a : ℕ)
      → start.words a ≡ (
          if a == blk + 8
          then 0
          else if a == blk + 262120
          then blk + 8
          else if a == blk
          then 32764
          else h0.words a)
  unfolding start designate
  start_words a = ground arith

  count : kl_g_count (counted blk start).words blk ≡ 32763
  count = ground (arith, start_words blk)

  used : first_use sys (blk) (blk + 8) (counted blk start) ≡ first
  unfolding first
  used =
      use_first sys 0 blk (blk + 8) (counted blk start) (ground (arith, start_words (blk + 8)))
        (λ e. ground (arith, count, e)) even (λ e. omega (arith, e))
        (ground (arith, start_words blk))

  taken : take_brick sys 0 blk start ≡ done (some (blk + 8)) (handed_out blk (blk + 8) first)
  taken =
      take_brick_lem sys 0 blk (blk + 8) start (counted blk start)
        (ground (arith, start_words (blk + 262120))) (ground (arith, count))
      ∙ ap (λ (g : Heap W). done (some (blk + 8)) (handed_out blk (blk + 8) g)) used

  start_bin : start.brick_bin 0 ≡ blk ∷ h0.brick_bin 0
  unfolding start designate
  start_bin = refl

  get_run :
      head_block sys 0 h ≡ none
      → some_block sys h ≡ (some blk, h0)
      → kl_brick_get sys 0 h ≡ done (some (blk + 8)) (handed_out blk (blk + 8) first)
  unfolding kl_brick_get start
  get_run none_free found = ground (arith, none_free, found, taken)

  counted_free : kl_g_count (handed_out blk (blk + 8) first).words blk ≡ 32763
  unfolding first set_next
  counted_free = ground (arith, start_words blk)

  no_head : head_block sys 0 (handed_out blk (blk + 8) first) ≡ none
  unfolding head_block first set_next
  no_head = ground (arith, start_bin)

  -- When no block of the bin has a brick of 8 bytes, KL_malloc's request for 0 bytes sets a block up for 32764
  -- of them. The brick after the first is where the first one names the next, and its header is set to 0
  -- last: so the block is left with no first brick though 32763 are counted as free, and the next request
  -- finds none in the bin again, and takes another block.
  pub kl_brick_get_zero :
      head_block sys 0 h ≡ none
      → some_block sys h ≡ (some blk, h0)
      → (h' : Heap W) × (kl_brick_get sys 0 h ≡ done (some (blk + 8)) h')
        × (kl_g_count h'.words blk ≡ 32763)
        × (head_block sys 0 h' ≡ none)
  kl_brick_get_zero none_free found =
      (handed_out blk (blk + 8) first, get_run none_free found, counted_free, no_head)
