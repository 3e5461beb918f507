-- ===== src/Klmalloc/Kl/Zeroed.antt =====
-- KL_calloc of src/klmalloc/klmalloc.c for a chunk of a shared block.
use sbma.Common.{
  ℕ, ◌+◌, ◌-◌, ◌*◌, ◌%◌, ◌≤◌, ◌<◌, ◌≡◌, ◌⊎◌, refl, false, List, ◌∷◌, some, arith, inl, inr, done,
  ◌∙◌,
}
use sbma.Klmalloc.{Bins, take_chunk}
use sbma.Klmalloc.Heap.{Sys, Heap, on, is_brick, kl_g_size, kl_chunk_size}
use sbma.Klmalloc.Heap.Tiles.{Chunk, EndAt-same, StartAt-same, EndAt-le, StartAt-le}
use sbma.Klmalloc.Heap.Loose.{SameOutside, SameOutside-trans}
use sbma.Klmalloc.Heap.Filed.{IsBlock, free_chunk, used_chunk}
use sbma.Klmalloc.Heap.Put.{IsCoalesced}
use sbma.Klmalloc.Heap.Get.{IsGot, entire, divided}
use sbma.Klmalloc.Kl.Served.{got-HasHeader, kl_free-kl_malloc}
use sbma.Klmalloc.Kl.{Libc, kl_malloc, kl_calloc, zero_bytes}

module _ {W : Type 0} (beg end : ℕ) (h : Heap W) (bs : List Chunk) (p k bytes : ℕ) (cs : List Chunk)
    (room : bytes + 16 ≤ k) (i : IsBlock beg end h bs p (used_chunk k) cs) where
  zeroed : Heap W
  zeroed = zero_bytes (p + 8) bytes h

  from : beg ≤ p
  from = EndAt-le h.words beg bs p i.before

  to_end : p + k ≤ end
  to_end = StartAt-le h.words end cs (p + k) i.after

  other : (x : ℕ) → (x < p + 8) ⊎ (p + k ≤ x + 8) → zeroed.words x ≡ h.words x
  unfolding zeroed
  other x (inl lt) = ground arith
  other x (inr ge) = ground arith

  -- The bytes of the caller of a chunk are no header and no footer.
  zeroed-IsBlock : IsBlock beg end zeroed bs p (used_chunk k) cs
  unfolding zeroed
  zeroed-IsBlock = record {
    base = i.base;
    fits = i.fits;
    header = other (beg - 8) (inl (omega (arith, from))) ∙ i.header;
    footer = other end (inr (omega (arith, to_end))) ∙ i.footer;
    before =
        EndAt-same h.words zeroed.words beg bs p i.before
          (λ x low high. other x (inl (omega arith)));
    chunk = record {
      large = i.chunk.large;
      aligned = i.chunk.aligned;
      header = other p (inl (omega arith)) ∙ i.chunk.header;
      footer = other (p + k - 8) (inr (omega (arith, room))) ∙ i.chunk.footer;
    };
    after =
        StartAt-same h.words zeroed.words end cs (p + k) i.after
          (λ x low high. other x (inr (omega arith)));
    listed = λ x b low high. i.listed x b low high;
  }

  zeroed-SameOutside : SameOutside beg end h zeroed
  unfolding zeroed
  zeroed-SameOutside = record {
    words = λ x o. other x (ground (arith, from, to_end));
    lists = λ x b o. refl;
    brick_bin = refl;
    undes_bin = refl;
    mem_total = refl;
    mem_max = refl;
    sys_ctr = refl;
    enabled = refl;
    world = refl;
  }

module _ {W : Type 0} (sys : Sys W) (libc : Libc W) (num size : ℕ) (low : 31 < num * size)
    (high : num * size ≤ 262096) where
  abbrev bytes : ℕ
  bytes = num * size

  padded : bytes + 16 ≤ kl_chunk_size bytes
  padded = omega (arith, high)

  IsGot-zeroed :
      (beg end : ℕ) (h h' : Heap W) (bs : List Chunk) (p n : ℕ) (cs : List Chunk)
      → IsGot beg end (kl_chunk_size bytes) h bs p n cs h'
      → IsGot beg end (kl_chunk_size bytes) h bs p n cs (zero_bytes (p + 8) bytes h')
  unfolding zeroed
  IsGot-zeroed beg end h h' bs p n cs (entire enough few i c same) =
      let room : bytes + 16 ≤ n = omega (arith, enough, padded) in
      entire enough few (zeroed-IsBlock beg end h' bs p n bytes cs room i) c
        (SameOutside-trans beg end same (zeroed-SameOutside beg end h' bs p n bytes cs room i))
  IsGot-zeroed beg end h h' bs p n cs (divided fits i c same) =
      divided fits
        (zeroed-IsBlock beg end h' bs p (kl_chunk_size bytes) bytes
          (free_chunk (n - kl_chunk_size bytes) ∷ cs) padded i)
        c
        (SameOutside-trans beg end same (
          zeroed-SameOutside beg end h' bs p (kl_chunk_size bytes) bytes
            (free_chunk (n - kl_chunk_size bytes) ∷ cs) padded i))

  calloc_run :
      (h h' : Heap W) (p : ℕ)
      → h.enabled ≡ on
      → kl_malloc sys libc bytes h ≡ done (some (p + 8)) h'
      → is_brick h'.words p ≡ false
      → 0 < kl_g_size h'.words p
      → kl_calloc sys libc num size h ≡ done (some (p + 8)) (zero_bytes (p + 8) bytes h')
  unfolding kl_calloc
  calloc_run h h' p e run is_chunk some_bytes =
      ground (arith, e, no_wrap, run, header, is_chunk, some_bytes, here)
    where
      no_wrap : num * size % 18446744073709551616 ≡ bytes
      no_wrap = omega (arith, high)

      header : (zero_bytes (p + 8) bytes h').words p ≡ h'.words p
      header = ground arith

      here : p + 8 - 8 ≡ p
      here = omega arith

  -- For 32 to 262096 bytes in all, when the search finds a chunk, which stands free in a block whose chunks have
  -- their headers and footers, whose free ones stand once each in the list for their size, and no two of them
  -- side by side, KL_calloc never aborts and returns the address behind the header of this chunk. Each word
  -- that lies within the `num * size` bytes there is 0. The headers and footers of the block and the lists
  -- are what KL_malloc leaves: the chunk is in use and large enough, and what was left of it is free.
  pub kl_calloc-IsGot :
      (beg end : ℕ) (h : Heap W) (bs : List Chunk) (p n : ℕ) (cs : List Chunk) (bins : Bins)
      → h.enabled ≡ on
      → IsBlock beg end h bs p (free_chunk n) cs
      → IsCoalesced bs (free_chunk n) cs
      → take_chunk (kl_chunk_size (num * size)) h.chunk_bin ≡ some (p, bins)
      → (h' : Heap W) × (kl_calloc sys libc num size h ≡ done (some (p + 8)) h')
        × IsGot beg end (kl_chunk_size (num * size)) h bs p n cs h'
        × ((a : ℕ) → p + 8 ≤ a → a + 8 ≤ p + 8 + num * size → h'.words a ≡ 0)
  kl_calloc-IsGot beg end h bs p n cs bins e i c taken =
      let (h', h'', run, got, _, _) =
        kl_free-kl_malloc sys libc bytes low high beg end h bs p n cs bins e i c taken in
      let has = got-HasHeader beg end (kl_chunk_size bytes) h h' bs p n cs got in
      (
        zero_bytes (p + 8) bytes h',
        calloc_run h h' p e run has.is_chunk (omega (arith, has.enough, padded)),
        IsGot-zeroed beg end h h' bs p n cs got,
        λ a ge le. ground (arith, ge, le),
      )
