-- ===== src/Klmalloc/Heap/Fresh.antt =====
-- `kl_chunk_get` of src/klmalloc/klmalloc.c when no chunk is free: the first chunk of a block.
use sbma.Common.{ℕ, ◌+◌, ◌≤◌, ◌<◌, ◌≡◌, refl, ap, [], Option, some, none, arith, done, ◌∙◌}
use sbma.Klmalloc.{take_chunk}
use sbma.Klmalloc.Heap.{Sys, Heap, kl_chunk_size, split, kl_chunk_get, some_block, whole}
use sbma.Klmalloc.Heap.Lists.{occurs, listed_before, listed_after}
use sbma.Klmalloc.Heap.Loose.{Loose, SameOutside}
use sbma.Klmalloc.Heap.Obtained.{
  IsElsewhere, Obtained, some_block-Obtained, Obtained-same, whole-IsElsewhere,
}
use sbma.Klmalloc.Heap.Split.{IsSplit, whole as unsplit, parts, split-IsSplit}
use sbma.Klmalloc.Heap.Get.{IsGot, entire, divided, facts, not_large, small}

module _ {W : Type 0} (block : ℕ) (h : Heap W) where
  -- No chunk of the block is in a list.
  abbrev pub Unlisted : Type 0
  Unlisted = (x b : ℕ) → block + 8 ≤ x → x < block + 262120 → occurs x (h.chunk_bin b) ≡ 0

  whole-Loose :
      Unlisted
      → Loose (block + 8) (block + 262120) (whole block h) [] (block + 8) 262112 (block + 262120) []
  unfolding listed_before listed_after
  whole-Loose unlisted = record {
    base = omega arith;
    fits = omega arith;
    header = ground arith;
    footer = ground arith;
    before = refl;
    size = ground arith;
    large = omega arith;
    aligned = refl;
    ends = omega arith;
    after = refl;
    listed = λ x b low high. unlisted x b low high;
  }

module _ {W : Type 0} (sys : Sys W) (size : ℕ) (low : 8 < size) (high : size ≤ 262096) where
  fresh_run :
      (h h0 : Heap W) (block : ℕ)
      → take_chunk (kl_chunk_size size) h.chunk_bin ≡ none
      → some_block sys h ≡ (some block, h0)
      → kl_chunk_get sys size h ≡ split sys (kl_chunk_size size) (block + 8) (whole block h0)
  unfolding kl_chunk_get
  fresh_run h h0 block e found =
      rw
        (
          not_large sys size low high,
          small sys size low high,
          e,
          ap (λ (y : Option ℕ × Heap W). y.0) found,
        )
        (ap
          (λ (y : Option ℕ × Heap W). split sys (kl_chunk_size size) (block + 8) (whole block y.1))
          found)

  -- For 9 to 262096 bytes, when the search finds no chunk and there is a block, new or undesignated, no part of
  -- which is in a list, `kl_chunk_get` never aborts and returns the first chunk of the block. The block then
  -- has the headers and footers of its chunks: this one, which is in use, and, if at least CHUNK_MIN_SIZE is
  -- left, a free one behind it, which stands once in the list for its size. Every word outside the block,
  -- the place of every address outside it in the lists of chunks, and the lists of bricks are as before
  -- the call. Either the block has left the undesignated stack and all counters are as before, or that
  -- stack was empty and the block came from the system and was added to the memory that is held.
  pub kl_chunk_get-whole :
      (h h0 : Heap W) (block : ℕ)
      → take_chunk (kl_chunk_size size) h.chunk_bin ≡ none
      → some_block sys h ≡ (some block, h0)
      → Unlisted block h
      → (h' : Heap W) × (kl_chunk_get sys size h ≡ done (some (block + 8)) h')
        × IsGot
            (block + 8)
            (block + 262120)
            (kl_chunk_size size)
            (whole block h0)
            []
            (block + 8)
            262112
            []
            h'
        × IsElsewhere block h h'
        × Obtained sys block h h'
  kl_chunk_get-whole h h0 block e found unlisted =
      let (held, obtained) = some_block-Obtained sys h h0 block found in
      let (h', run, is_split) =
        split-IsSplit sys (block + 8) (block + 262120) (kl_chunk_size size) (whole block h0) []
          (block + 8) 262112 (block + 262120) []
          (whole-Loose block h0 (λ x b low high. rw held.chunk_bin (unlisted x b low high)))
          (facts sys size low high).0 (facts sys size low high).1 tt in
      let (is_got, same) = got h' is_split in
      (
        h',
        fresh_run h h0 block e found ∙ run,
        is_got,
        whole-IsElsewhere block h h0 h' held same,
        Obtained-same sys block h h0 h' obtained same,
      )
    where
      got :
          (h' : Heap W)
          → IsSplit
              (block + 8)
              (block + 262120)
              (kl_chunk_size size)
              (whole block h0)
              []
              (block + 8)
              262112
              []
              h'
          → IsGot
              (block + 8)
              (block + 262120)
              (kl_chunk_size size)
              (whole block h0)
              []
              (block + 8)
              262112
              []
              h'
            × SameOutside (block + 8) (block + 262120) (whole block h0) h'
      got h' (unsplit few i same) =
          (entire (facts sys size low high).2 few i (tt, tt, λ e. cc) same, same)
      got h' (parts fits i same) = (divided fits i (tt, ((λ e. tt), tt), λ e. cc) same, same)
