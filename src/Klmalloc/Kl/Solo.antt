-- ===== src/Klmalloc/Kl/Solo.antt =====
-- KL_malloc of src/klmalloc/klmalloc.c for a chunk that is a block of its own, and KL_free of what it returns.
use sbma.Common.{
  ℕ, ◌+◌, ◌-◌, ◌%◌, ◌≤◌, ◌<◌, ◌≡◌, refl, true, false, if◌then◌else◌, ltb, leb, some, arith, done,
  subst, ◌∙◌,
}
use sbma.Api.{less}
use sbma.Klmalloc.Heap.{
  Sys, Heap, on, is_brick, kl_g_size, kl_chunk_size, kl_block_size, kl_block_alloc, kl_chunk_put,
  kl_isfirst, kl_islast, put_away, release,
}
use sbma.Klmalloc.Heap.Prev.{prev_first}
use sbma.Klmalloc.Heap.Next.{next_last}
use sbma.Klmalloc.Heap.Put.{put_run}
use sbma.Klmalloc.Kl.{Libc, kl_malloc, kl_free, try_solo}
use sbma.Klmalloc.Kl.Served.{free_run}
use sbma.Klmalloc.Kl.Refused.{malloc_solo, kl_chunk_solo_lem, solo_heap, solo_size}

module _ {W : Type 0} (sys : Sys W) (g : Heap W) (block n : ℕ) (header : g.words block ≡ 8)
    (size : g.words (block + 8) ≡ n) (footer : g.words (block + 8 + n) ≡ 8) (aligned : n % 8 ≡ 0)
    (large : 262112 < n) (bound : n ≤ 18446744073709551576) where
  given_back : Heap W
  given_back = record g {
    mem_total = less g.mem_total (kl_block_size n);
    world = sys.free block (kl_block_size n) g.world;
  }

  chunk_size : kl_g_size g.words (block + 8) ≡ n
  chunk_size = ground arith

  first : kl_isfirst g.words (block + 8) ≡ true
  first = ground (arith, here)
    where
      here : block + 8 - 8 ≡ block
      here = omega arith

  last : kl_islast g.words (block + 8) ≡ true
  last = ground (arith, chunk_size, footer)

  release_solo : release sys (block + 8) g ≡ given_back
  unfolding release given_back
  release_solo = ground (arith, chunk_size, place)
    where
      place : block + 8 - g.words (block + 8 - 8) ≡ block
      place = ground (arith, here)
        where
          here : block + 8 - 8 ≡ block
          here = omega arith

  put_solo : put_away sys (block + 8) g ≡ done tt given_back
  unfolding put_away
  put_solo = ground (arith, first, last, release_solo)

  kl_chunk_put_solo : kl_chunk_put sys (block + 8) g ≡ done tt given_back
  kl_chunk_put_solo =
      put_run sys 0 0 g g g (block + 8) (block + 8) valid
        (prev_first g (block + 8) (subst (λ x. g.words x ≡ 8) (omega arith) header))
        (next_last g (block + 8) n (block + 8 + n) size aligned refl footer) valid
      ∙ put_solo
    where
      valid : leb 32 (kl_g_size g.words (block + 8)) ≡ true
      valid = ground (arith, chunk_size)

module _ {W : Type 0} (sys : Sys W) (libc : Libc W) (size block : ℕ) (h : Heap W) (w : W) where
  bytes : ℕ
  bytes = kl_block_size (kl_chunk_size size)

  -- The counters and the system after the block has been allocated.
  counted : Heap W
  counted =
      let total = (h.mem_total + bytes) % 18446744073709551616 in
      record h {
        mem_total = total;
        mem_max = if ltb h.mem_max total then total else h.mem_max;
        sys_ctr = (h.sys_ctr + 1) % 18446744073709551616;
        world = w;
      }

  block_alloc :
      sys.alloc bytes h.world ≡ (some block, w) → kl_block_alloc sys bytes h ≡ (some block, counted)
  unfolding kl_block_alloc counted
  block_alloc found = ground (arith, found)

  served : Heap W
  served = solo_heap block (kl_chunk_size size) bytes counted

  solo_run :
      262112 < size
      → size ≤ 18446744073709551546
      → sys.alloc bytes h.world ≡ (some block, w)
      → try_solo sys size h ≡ done (some (block + 8 + 8)) served
  unfolding try_solo bytes served
  solo_run large fits found = ground (
    arith,
    kl_chunk_solo_lem sys libc size h counted block (omega arith) fits (block_alloc found),
    own,
    here,
  )
    where
      own :
          kl_g_size (solo_heap block (kl_chunk_size size) bytes counted).words (block + 8)
          ≡ kl_chunk_size size
      own = solo_size block (kl_chunk_size size) bytes counted (omega arith) (omega arith)

      here : block + 8 + 8 - 8 ≡ block + 8
      here = omega arith

  n : ℕ
  n = kl_chunk_size size

  -- For more than 262112 bytes, when the system has a block for them, KL_malloc returns the address behind the
  -- header of a chunk of exactly the wanted size that is in use, and KL_free of this address gives the block,
  -- with the size that it was asked for, back to the system; neither aborts. The counter of memory, and the
  -- lists of chunks, of bricks and of undesignated blocks are then as before both.
  pub kl_free-kl_malloc_solo :
      h.enabled ≡ on
      → 262112 < size
      → size ≤ 18446744073709551546
      → h.mem_total + kl_block_size (kl_chunk_size size) < 18446744073709551616
      → sys.alloc (kl_block_size (kl_chunk_size size)) h.world ≡ (some block, w)
      → (h' : Heap W) × (h'' : Heap W) × (kl_malloc sys libc size h ≡ done (some (block + 16)) h')
        × (kl_free sys libc (block + 16) h' ≡ done tt h'')
        × (kl_g_size h'.words (block + 8) ≡ kl_chunk_size size)
        × (h'.words (block + 8 + kl_chunk_size size - 8) ≡ 0)
        × (h''.world ≡ sys.free block (kl_block_size (kl_chunk_size size)) w)
        × (h''.mem_total ≡ h.mem_total)
        × (h''.chunk_bin ≡ h.chunk_bin)
        × (h''.brick_bin ≡ h.brick_bin)
        × (h''.undes_bin ≡ h.undes_bin)
  unfolding bytes served counted given_back n
  kl_free-kl_malloc_solo e large fits room found = (
    served,
    given_back sys served block n at_block at_chunk at_end aligned above bounded,
    subst (λ x. kl_malloc sys libc size h ≡ done (some x) served) place
        (malloc_solo sys libc size h e (omega arith) (omega arith) ∙ solo_run large fits found),
    freed,
    solo_size block n bytes counted (omega arith) (omega arith),
    ground arith,
    refl,
    ground arith,
    refl,
    refl,
    refl,
  )
    where
      place : block + 8 + 8 ≡ block + 16
      place = omega arith

      aligned : n % 8 ≡ 0
      aligned = omega arith

      above : 262112 < n
      above = omega arith

      bounded : n ≤ 18446744073709551576
      bounded = omega arith

      end : block + bytes - 24 ≡ block + 8 + n
      end = omega arith

      at_block : served.words block ≡ 8
      at_block = ground (arith, above)

      at_chunk : served.words (block + 8) ≡ n
      at_chunk = ground (arith, above)

      at_end : served.words (block + 8 + n) ≡ 8
      at_end = ground (arith, above, end)

      not_brick : is_brick served.words (block + 8) ≡ false
      not_brick = ground (arith, at_chunk, aligned)

      freed :
          kl_free sys libc (block + 16) served
          ≡ done tt (given_back sys served block n at_block at_chunk at_end aligned above bounded)
      freed =
          subst
            (λ x.
              kl_free sys libc x served
              ≡ done tt
                  (given_back sys served block n at_block at_chunk at_end aligned above bounded))
            place
            (free_run sys libc served _ (block + 8) e not_brick
              (kl_chunk_put_solo sys served block n at_block at_chunk at_end aligned above bounded))
