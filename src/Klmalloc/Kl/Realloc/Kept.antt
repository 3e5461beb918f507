-- ===== src/Klmalloc/Kl/Realloc/Kept.antt =====
-- KL_realloc of src/klmalloc/klmalloc.c for an allocation that it leaves where it is.
use sbma.Common.{ℕ, ◌+◌, ◌-◌, ◌%◌, ◌≤◌, ◌<◌, ◌≡◌, ◌≢◌, true, false, update, some, arith, done}
use sbma.Klmalloc.Heap.{Sys, Heap, on, kl_g_size, kl_chunk_size, kl_isinuse}
use sbma.Klmalloc.Kl.{Libc}
use sbma.Klmalloc.Kl.Realloc.{Resize, kl_realloc}

module _ {W : Type 0} (sys : Sys W) (libc : Libc W) (resize : Resize W) (ptr size osize : ℕ)
    (h : Heap W) where
  -- KL_realloc of a chunk of `osize` bytes that is in use, for which the wanted size of a chunk is 8 bytes more,
  -- returns the same address, with the heap as it is. But then the footer of the chunk, which tells that it
  -- is in use, starts among the `size` bytes that it is for: when any number but 0 is stored in that word,
  -- the chunk is no more in use.
  pub kl_realloc_overlap :
      (v : ℕ)
      → h.enabled ≡ on
      → 8 ≤ ptr
      → 32 ≤ osize
      → h.words (ptr - 8) ≡ osize
      → osize % 8 ≡ 0
      → kl_isinuse h.words (ptr - 8) ≡ true
      → size < 18446744073709551584
      → kl_chunk_size size ≡ osize + 8
      → v ≢ 0
      → (kl_realloc sys libc resize ptr size h ≡ done (some ptr) h)
        × (ptr + osize - 16 < ptr + size)
        × (kl_isinuse (update h.words (ptr + osize - 16) v) (ptr - 8) ≡ false)
  unfolding kl_realloc
  kl_realloc_overlap v e low large header aligned used fits wanted other =
      (ground (arith, e, own), omega arith, ground (arith, place, header, apart))
    where
      own : kl_g_size h.words (ptr - 8) ≡ osize
      own = ground arith

      place : ptr - 8 + osize - 8 ≡ ptr + osize - 16
      place = omega arith

      apart : ptr - 8 ≢ ptr + osize - 16
      apart = λ e'. omega (arith, e')
