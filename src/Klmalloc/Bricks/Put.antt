-- ===== src/Klmalloc/Bricks/Put.antt =====
-- `kl_brick_put` of src/klmalloc/klmalloc.c for a block that does not become empty.
use sbma.Common.{
  ℕ, ◌+◌, ◌-◌, ◌≤◌, ◌<◌, ◌≡◌, ◌≢◌, ◌⊎◌, ◌==◌, if◌then◌else◌, List, ◌∷◌, arith, inl, inr, done,
  update, subst, sym,
}
use sbma.Klmalloc.Heap.{Sys, Heap, write, length, kl_g_count, kl_g_bidx}
use sbma.Klmalloc.Bricks.{head_of, push_brick, kl_brick_put, is_listed, brick_count}
use sbma.Klmalloc.Bricks.Chain.{Apart, Chain, Chain-Same, Same-Apart, Chain-InBlock}
use sbma.Klmalloc.Bricks.Get.{brick_bytes, IsBrickBlock}

module _ {W : Type 0} (sys : Sys W) (bidx blk x : ℕ) (xs : List ℕ) (h : Heap W)
    (i : IsBrickBlock h bidx blk xs) (named : h.words x ≡ blk + 1) (low : blk + 8 ≤ x)
    (high : x + brick_bytes bidx ≤ blk + 262120) (apart : Apart (brick_bytes bidx) x xs)
    (few : length xs + 1 < 72057594037927936) where
  incremented : Heap W
  incremented = write blk (h.words blk + 1) h

  pub put : Heap W
  put = push_brick bidx blk x incremented

  pub put_run : length xs + 1 ≢ brick_count bidx → kl_brick_put sys x h ≡ done tt put
  unfolding kl_brick_put put incremented
  put_run some_used = ground (arith, bin, count, bin', some_used)
    where
      place : h.words x - 1 ≡ blk
      place = omega (arith, named)

      bin : kl_g_bidx h.words (h.words x - 1) ≡ bidx
      bin = ground (arith, place, i.header, i.few)

      bin' : kl_g_bidx h.words blk ≡ bidx
      bin' = ground (arith, i.header, i.few)

      count : kl_g_count incremented.words blk ≡ length xs + 1
      count = ground (arith, i.header, few)

  pushed_words :
      (a : ℕ)
      → put.words a ≡ (
          if a == head_of blk
          then x
          else if a == x + 8
          then incremented.words (head_of blk)
          else incremented.words a)
  unfolding put push_brick
  pushed_words a = ground arith

  pub put-IsBrickBlock : IsBrickBlock put bidx blk (x ∷ xs)
  unfolding incremented
  put-IsBrickBlock = record {
    even = i.even;
    some_bytes = i.some_bytes;
    small = i.small;
    few = omega (arith, few);
    header = ground (arith, pushed_words blk, i.header, low);
    chain = (
      ground (arith, pushed_words (head_of blk)),
      low,
      high,
      apart,
      inl (
        ground (arith, pushed_words x, high, i.some_bytes, low, named),
        subst (λ a. Chain put.words blk (brick_bytes bidx) a xs) (sym next)
            (Chain-Same h.words put.words blk (brick_bytes bidx) (h.words (head_of blk)) xs i.chain
              (Same-Apart h.words put.words blk (brick_bytes bidx) x xs
                (omega (arith, i.some_bytes)) kept apart
                (Chain-InBlock blk (brick_bytes bidx) h.words (h.words (head_of blk)) xs i.chain))),
      ),
    );
  }
    where
      next : put.words (x + 8) ≡ h.words (head_of blk)
      next = ground (arith, pushed_words (x + 8), high, i.some_bytes)

      kept :
          (y : ℕ)
          → blk + 8 ≤ y
          → y < blk + 262120
          → (x + brick_bytes bidx ≤ y) ⊎ (y < x)
          → put.words y ≡ h.words y
      kept y from to (inl le) = ground (arith, pushed_words y, i.some_bytes)
      kept y from to (inr lt) = ground (arith, pushed_words y, i.some_bytes)

  pub put-bricks : put.brick_bin ≡ (
      if is_listed blk (h.brick_bin bidx)
      then h.brick_bin
      else update h.brick_bin bidx (blk ∷ h.brick_bin bidx))
  unfolding put push_brick incremented
  put-bricks = ground arith
