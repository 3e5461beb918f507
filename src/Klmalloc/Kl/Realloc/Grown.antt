-- ===== src/Klmalloc/Kl/Realloc/Grown.antt =====
-- KL_realloc of src/klmalloc/klmalloc.c for a chunk that is a block of its own.
use sbma.Common.{
  ℕ, ◌+◌, ◌-◌, ◌%◌, ◌≤◌, ◌<◌, ◌≡◌, true, false, ltb, if◌then◌else◌, some, arith, done,
}
use sbma.Api.{less}
use sbma.Klmalloc.Heap.{
  Sys, Heap, on, is_brick, kl_g_size, kl_block_size, kl_chunk_size, kl_brick_size,
}
use sbma.Klmalloc.Kl.{Libc, kl_chunk_hdr}
use sbma.Klmalloc.Kl.Refused.{solo_heap, solo_size, kl_chunk_hdr_lem}
use sbma.Klmalloc.Kl.Realloc.{Resize, hand_on, kl_block_realloc, regrow, kl_realloc}

module _ {W : Type 0} (sys : Sys W) (libc : Libc W) (resize : Resize W) (block size osize : ℕ)
    (h : Heap W) (nblock : ℕ) (words : ℕ → ℕ) (w : W) where
  abbrev old_bytes : ℕ
  old_bytes = kl_block_size osize

  abbrev new_bytes : ℕ
  new_bytes = kl_block_size (kl_chunk_size size)

  -- The system has moved the block.
  abbrev moved : Heap W
  moved =
      let total = (h.mem_total + less new_bytes old_bytes) % 18446744073709551616 in
      record h {
        words = words;
        world = w;
        mem_total = total;
        mem_max = if ltb h.mem_max total then total else h.mem_max;
        sys_ctr = (h.sys_ctr + 1) % 18446744073709551616;
      }

  abbrev grown : Heap W
  grown = solo_heap nblock (kl_chunk_size size) new_bytes moved

  block_run :
      resize.realloc block new_bytes h.words h.world ≡ (some nblock, words, w)
      → kl_block_realloc sys libc resize block old_bytes new_bytes h ≡ (some nblock, moved)
  unfolding kl_block_realloc
  block_run found = ground (arith, found)

  module _ (e : h.enabled ≡ on) (large : 262112 < osize) (aligned : osize % 8 ≡ 0)
      (fits : size ≤ 18446744073709551546) (more : osize < kl_chunk_size size)
      (more' : osize < kl_brick_size size) (bounded : osize ≤ 18446744073709551576)
      (header : h.words block ≡ 8) (chunk : h.words (block + 8) ≡ osize)
      (footer : h.words (block + 8 + osize) ≡ 8)
      (found : resize.realloc block (kl_block_size (kl_chunk_size size)) h.words h.world
        ≡ (some nblock, words, w)) where
    wanted : 262096 < size
    wanted = omega arith

    own : kl_g_size h.words (block + 8) ≡ osize
    own = ground arith

    grown_size : kl_g_size grown.words (nblock + 8) ≡ kl_chunk_size size
    grown_size = solo_size nblock (kl_chunk_size size) new_bytes moved (omega arith) (omega arith)

    grown_word : grown.words (nblock + 8) ≡ kl_chunk_size size
    grown_word = ground (arith, wanted)

    hdr_run : kl_chunk_hdr nblock size moved ≡ done (nblock + 8) grown
    hdr_run = kl_chunk_hdr_lem nblock size moved wanted fits

    regrow_run : regrow sys libc resize (block + 16) osize size h ≡ done (some (nblock + 16)) grown
    unfolding regrow hand_on
    regrow_run = ground (
      arith,
      prev,
      behind,
      header,
      footer,
      above,
      block_run found,
      hdr_run,
      grown_size,
      not_brick,
      place,
      back,
      wanted,
    )
      where
        prev : block + 16 - 8 - h.words (block + 16 - 8 - 8) ≡ block
        prev = ground (arith, here)
          where
            here : block + 16 - 8 - 8 ≡ block
            here = omega arith

        behind : block + kl_block_size osize - 24 ≡ block + 8 + osize
        behind = omega arith

        above : ltb 262144 (kl_block_size (kl_chunk_size size)) ≡ true
        above = ground arith

        not_brick : is_brick grown.words (nblock + 8) ≡ false
        not_brick = ground (arith, grown_word)

        place : nblock + 8 + 8 ≡ nblock + 16
        place = omega arith

        back : nblock + 16 - 8 ≡ nblock + 8
        back = omega arith

    realloc_run : kl_realloc sys libc resize (block + 16) size h ≡ done (some (nblock + 16)) grown
    unfolding kl_realloc
    realloc_run = ground (arith, e, own, here, regrow_run)
      where
        here : block + 16 - 8 ≡ block + 8
        here = omega arith

    wide : new_bytes ≡ kl_chunk_size size + 32
    wide = omega arith

    kept :
        ((x : ℕ) → x < kl_block_size osize → words (nblock + x) ≡ h.words (block + x))
        → (k : ℕ) → k + 24 ≤ osize
        → grown.words (nblock + 16 + k) ≡ h.words (block + 16 + k)
    kept moves k inside = ground (arith, moves (16 + k) (omega arith), place, place', more, wide)
      where
        place : nblock + (16 + k) ≡ nblock + 16 + k
        place = omega arith

        place' : block + (16 + k) ≡ block + 16 + k
        place' = omega arith

    -- For a chunk that is all of its block, when the wanted size of a chunk, and that of a brick, is larger than
    -- the chunk, and the system has a larger block for it, with the bytes of the old one, KL_realloc never
    -- aborts and returns the address behind the header of a chunk in the new block, which has exactly the
    -- wanted size and is in use. The bytes of the caller are those of the old chunk. The counter of memory
    -- grows by as much as the block, if it fits.
    pub kl_realloc_grown :
        ((x : ℕ) → x < kl_block_size osize → words (nblock + x) ≡ h.words (block + x))
        → h.mem_total + kl_block_size (kl_chunk_size size)
          < 18446744073709551616 + kl_block_size osize
        → (h' : Heap W) × (kl_realloc sys libc resize (block + 16) size h
            ≡ done (some (nblock + 16)) h')
          × (kl_g_size h'.words (nblock + 8) ≡ kl_chunk_size size)
          × (h'.words (nblock + 8 + kl_chunk_size size - 8) ≡ 0)
          × ((k : ℕ) → k + 24 ≤ osize → h'.words (nblock + 16 + k) ≡ h.words (block + 16 + k))
          × (h'.mem_total + kl_block_size osize ≡ h.mem_total + kl_block_size (kl_chunk_size size))
    kl_realloc_grown moves room =
        (grown, realloc_run, grown_size, ground arith, kept moves, counted)
      where
        wide' : old_bytes ≡ osize + 32
        wide' = omega arith

        difference : less new_bytes old_bytes ≡ new_bytes - old_bytes
        difference = ground (arith, wide, wide', more)

        counted :
            (h.mem_total + less new_bytes old_bytes) % 18446744073709551616 + old_bytes
            ≡ h.mem_total + new_bytes
        counted = omega (arith, more, wide, wide', room, difference)
