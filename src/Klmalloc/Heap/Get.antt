-- ===== src/Klmalloc/Heap/Get.antt =====
-- `kl_chunk_get` of src/klmalloc/klmalloc.c: a free chunk is taken and split, and `kl_chunk_put` of what it
-- returns.
use sbma.Common.{
  ℕ, ◌+◌, ◌-◌, ◌%◌, ◌≤◌, ◌<◌, ◌≡◌, refl, ap, true, false, ltb, List, ◌∷◌, some, arith, done, subst,
  sym, ◌∙◌,
}
use sbma.Klmalloc.{placed, Bins, kl_size2bin, take_chunk}
use sbma.Klmalloc.Bins.{kl_size2bin-IsFirst}
use sbma.Klmalloc.Search.{fits_in}
use sbma.Klmalloc.Heap.{Sys, Heap, kl_chunk_put, kl_chunk_size, split, kl_chunk_get}
use sbma.Klmalloc.Heap.Tiles.{Chunk, EndAt-le, StartAt-le, put_bin-class}
use sbma.Klmalloc.Heap.Loose.{gap, back, Loose, SameOutside, SameOutside-trans}
use sbma.Klmalloc.Heap.Filed.{IsBlock, free_chunk, used_chunk}
use sbma.Klmalloc.Heap.Put.{IsCoalesced, IsFreed, kl_chunk_put-IsFreed}
use sbma.Klmalloc.Heap.Alone.{IsFreed-alone, IsFreed-before}
use sbma.Klmalloc.Heap.Split.{IsSplit, whole as unsplit, parts, split-IsSplit}
use sbma.Klmalloc.Heap.Head.{IsHead, take_chunk-IsHead, bin-class, taken-Loose, taken-outside}

-- The chunk of `n` bytes at `p` has been taken for `want` bytes.
pub data IsGot {W : Type 0} (beg end want : ℕ) (h : Heap W) (bs : List Chunk) (p n : ℕ)
    (cs : List Chunk) (h' : Heap W) : Type 0 where
  entire :
      want ≤ n
      → n < want + 32
      → IsBlock beg end h' bs p (used_chunk n) cs
      → IsCoalesced bs (used_chunk n) cs
      → SameOutside beg end h h'
      → IsGot beg end want h bs p n cs h'
  divided :
      want + 32 ≤ n
      → IsBlock beg end h' bs p (used_chunk want) (free_chunk (n - want) ∷ cs)
      → IsCoalesced bs (used_chunk want) (free_chunk (n - want) ∷ cs)
      → SameOutside beg end h h'
      → IsGot beg end want h bs p n cs h'

module _ {W : Type 0} (sys : Sys W) (size : ℕ) (low : 8 < size) (high : size ≤ 262096) where
  abbrev pub want : ℕ
  want = kl_chunk_size size

  pub facts : (32 ≤ want) × (want % 8 ≡ 0) × (want ≤ 262112)
  facts = (omega arith, omega arith, omega arith)

  pub small : ltb (kl_size2bin want) 1532 ≡ true
  small =
      ground
        (arith, (kl_size2bin-IsFirst want (omega (arith, facts.0)) (omega (arith, facts.2))).small)

  pub not_large : ltb 262112 want ≡ false
  not_large = ground (arith, facts.2)

  get_run :
      (h : Heap W) (p : ℕ) (bins : Bins)
      → take_chunk want h.chunk_bin ≡ some (p, bins)
      → kl_chunk_get sys size h ≡ split sys want p (record h { chunk_bin = bins })
  unfolding kl_chunk_get
  get_run h p bins e = rw (not_large, small, e) refl

  module _ (beg end : ℕ) (h : Heap W) (bs : List Chunk) (p n : ℕ) (cs : List Chunk) (bins : Bins)
      (i : IsBlock beg end h bs p (free_chunk n) cs) (c : IsCoalesced bs (free_chunk n) cs)
      (taken : take_chunk want h.chunk_bin ≡ some (p, bins)) where
    hd : IsHead want h.chunk_bin p bins
    hd = take_chunk-IsHead want h.chunk_bin small p bins taken

    loose : Loose beg end (record h { chunk_bin = bins }) bs p n (p + n) cs
    loose = taken-Loose beg end h bs p n cs i want bins hd

    enough : want ≤ n
    enough =
        fits_in want (omega (arith, facts.0)) (omega (arith, facts.2)) n hd.bin i.chunk.large
          bounded
          (put_bin-class n i.chunk.large bounded
            ∙ ap placed (sym (bin-class beg end h bs p n cs i want bins hd)))
          hd.le
      where
        bounded : n < 1048576
        bounded = omega (
          arith,
          i.fits,
          EndAt-le h.words beg bs p i.before,
          StartAt-le h.words end cs (p + n) i.after,
        )

    unlisted-SameOutside : SameOutside beg end h (record h { chunk_bin = bins })
    unlisted-SameOutside = record {
      words = λ x o. refl;
      lists = taken-outside beg end h bs p n cs i want bins hd;
      brick_bin = refl;
      undes_bin = refl;
      mem_total = refl;
      mem_max = refl;
      sys_ctr = refl;
      enabled = refl;
      world = refl;
    }

    got :
        (h' : Heap W)
        → IsSplit beg end want (record h { chunk_bin = bins }) bs p n cs h'
        → IsGot beg end want h bs p n cs h'
    got h' (unsplit few block same) =
        entire enough few block (c.0, c.1, λ e. cc)
          (SameOutside-trans beg end unlisted-SameOutside same)
    got h' (parts fits block same) =
        divided fits block (c.0, (λ e. (c.2 refl).1, c.1), λ e. cc)
          (SameOutside-trans beg end unlisted-SameOutside same)

    got_lem :
        (h' : Heap W) × (kl_chunk_get sys size h ≡ done (some p) h')
        × IsGot beg end want h bs p n cs h'
    got_lem =
        let (h', run, is_split) =
          split-IsSplit sys beg end want (record h { chunk_bin = bins }) bs p n (p + n) cs loose
            facts.0 facts.1 (c.2 refl).1 in
        (h', get_run h p bins taken ∙ run, got h' is_split)

  -- For 9 to 262096 bytes, when the search finds a chunk, which stands free in a block whose chunks have their
  -- headers and footers, whose free ones stand once each in the list for their size, and no two of them
  -- side by side, `kl_chunk_get` never aborts and returns this chunk. It is large enough and no more free.
  -- If at least CHUNK_MIN_SIZE is left, it is exactly of the wanted size, and what is left is a free chunk
  -- behind it; if not, it is used whole. The block is again such a block, and all else in memory and in the
  -- lists is as before.
  pub kl_chunk_get-IsGot :
      (beg end : ℕ) (h : Heap W) (bs : List Chunk) (p n : ℕ) (cs : List Chunk) (bins : Bins)
      → IsBlock beg end h bs p (free_chunk n) cs
      → IsCoalesced bs (free_chunk n) cs
      → take_chunk (kl_chunk_size size) h.chunk_bin ≡ some (p, bins)
      → (h' : Heap W) × (kl_chunk_get sys size h ≡ done (some p) h')
        × IsGot beg end (kl_chunk_size size) h bs p n cs h'
  kl_chunk_get-IsGot beg end h bs p n cs bins i c taken = got_lem beg end h bs p n cs bins i c taken

  pub put_back :
      (beg end : ℕ) (h h' : Heap W) (bs : List Chunk) (p n : ℕ) (cs : List Chunk)
      → IsCoalesced bs (free_chunk n) cs
      → IsGot beg end want h bs p n cs h'
      → (h'' : Heap W) × (kl_chunk_put sys p h' ≡ done tt h'')
        × IsFreed sys beg end h' bs p n cs h''
  unfolding back gap
  put_back beg end h h' bs p n cs c (entire enough few block c' same) =
      let (h'', run, freed, _) = kl_chunk_put-IsFreed sys beg end h' bs p n cs block c' in
      (h'', run, IsFreed-alone sys beg end h' bs p n cs h'' (c.2 refl).0 (c.2 refl).1 freed)
  put_back beg end h h' bs p n cs c (divided fits block c' same) =
      let (h'', run, freed, _) =
        kl_chunk_put-IsFreed sys beg end h' bs p want (free_chunk (n - want) ∷ cs) block c' in
      (
        h'',
        run,
        IsFreed-before sys beg end h' bs p n cs h'' (c.2 refl).0
            (subst (λ x. IsFreed sys beg end h' (back bs) (p - gap bs) x cs h'') bytes freed),
      )
    where
      bytes : gap bs + want + (n - want) ≡ gap bs + n
      bytes = omega (arith, fits)
