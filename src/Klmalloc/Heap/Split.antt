-- ===== src/Klmalloc/Heap/Split.antt =====
-- How `kl_chunk_get` of src/klmalloc/klmalloc.c splits a free chunk.
use sbma.Common.{
  ℕ, ◌+◌, ◌-◌, ◌%◌, ◌≤◌, ◌<◌, ◌≡◌, refl, ap, true, false, ltb, leb, update, within, List, ◌∷◌, some,
  arith, inl, inr, Bool-cases, done, subst, sym, ◌∙◌,
}
use sbma.Klmalloc.Heap.{Sys, Heap, write, kl_chunk_put, split}
use sbma.Klmalloc.Heap.Tiles.{Chunk, EndAt, StartAt, EndAt-same, StartAt-same, EndAt-le, StartAt-le}
use sbma.Klmalloc.Heap.Lists.{listed_before, listed_after}
use sbma.Klmalloc.Heap.Loose.{Loose, SameOutside, SameOutside-trans}
use sbma.Klmalloc.Heap.Filed.{IsBlock, free_chunk, used_chunk}
use sbma.Klmalloc.Heap.Put.{HeadUsed, IsFreed, released, joined, kl_chunk_put-Loose}
use sbma.Klmalloc.Heap.Alone.{IsBlock-left, IsFreed-alone}

-- Split: the headers and footers of both chunks are written, and the second is freed.
split_into : {W : Type 0} → ℕ → ℕ → ℕ → Heap W → Heap W
split_into want p n h =
    write (p + want + (n - want) - 8) (n - want)
      (write (p + want) (n - want) (write (p + want - 8) 0 (write p want h)))

split_lem :
    {W : Type 0} (sys : Sys W) (want p : ℕ) (h h' : Heap W)
    → ltb 32 (h.words p) ≡ true
    → leb want (h.words p - 32) ≡ true
    → kl_chunk_put sys (p + want) (split_into want p (h.words p) h) ≡ done tt h'
    → split sys want p h ≡ done (some p) h'
unfolding split split_into
split_lem sys want p h h' e e' put = rw (e, e', put) refl

-- The chunk is in use, and what is left of it, at least CHUNK_MIN_SIZE, is a free chunk behind it.
pub data IsSplit {W : Type 0} (beg end want : ℕ) (h : Heap W) (bs : List Chunk) (p n : ℕ)
    (cs : List Chunk) (h' : Heap W) : Type 0 where
  whole :
      n < want + 32
      → IsBlock beg end h' bs p (used_chunk n) cs
      → SameOutside beg end h h'
      → IsSplit beg end want h bs p n cs h'
  parts :
      want + 32 ≤ n
      → IsBlock beg end h' bs p (used_chunk want) (free_chunk (n - want) ∷ cs)
      → SameOutside beg end h h'
      → IsSplit beg end want h bs p n cs h'

module _ {W : Type 0} (sys : Sys W) (beg end want : ℕ) (h : Heap W) (bs : List Chunk) (p n r : ℕ)
    (cs : List Chunk) (l : Loose beg end h bs p n r cs) where
  from : beg ≤ p
  from = EndAt-le h.words beg bs p l.before

  to_end : r ≤ end
  to_end = StartAt-le h.words end cs r l.after

  -- Not split.
  split_whole : n < want + 32 → split sys want p h ≡ done (some p) (write (p + n - 8) 0 h)
  unfolding split
  split_whole small = ground (arith, l.size, l.large)

  whole-IsBlock : IsBlock beg end (write (p + n - 8) 0 h) bs p (used_chunk n) cs
  whole-IsBlock = record {
    base = l.base;
    fits = l.fits;
    header = ground (arith, l.header, from, l.large, l.base);
    footer = ground (arith, l.footer, to_end, l.ends, l.large);
    before =
        EndAt-same h.words (update h.words (p + n - 8) 0) beg bs p l.before
          (λ x low high. ground (arith, l.large));
    chunk = record {
      large = l.large;
      aligned = l.aligned;
      header = ground (arith, l.size, l.large);
      footer = ground arith;
    };
    after =
        StartAt-same h.words (update h.words (p + n - 8) 0) end cs (p + n)
          (subst (λ x. StartAt h.words end cs x) l.ends l.after)
          (λ x low high. ground (arith, l.large));
    listed = λ x b low high. ground (arith, l.listed x b low high, after_r x b);
  }
    where
      after_r : (x b : ℕ) → listed_after cs r x b ≡ listed_after cs (p + n) x b
      after_r x b = ap (λ y. listed_after cs y x b) l.ends

  whole-SameOutside : SameOutside beg end h (write (p + n - 8) 0 h)
  whole-SameOutside = record {
    words = λ x o. ground (arith, from, to_end, l.ends, l.large);
    lists = λ x b o. refl;
    brick_bin = refl;
    undes_bin = refl;
    mem_total = refl;
    mem_max = refl;
    sys_ctr = refl;
    enabled = refl;
    world = refl;
  }

  parted : Heap W
  parted = split_into want p n h

  module _ (large : 32 ≤ want) (aligned : want % 8 ≡ 0) (fits : want + 32 ≤ n) where
    split_run :
        (h' : Heap W)
        → kl_chunk_put sys (p + want) parted ≡ done tt h'
        → split sys want p h ≡ done (some p) h'
    unfolding parted
    split_run h' put =
        split_lem sys want p h h' (ground (arith, l.size, large)) (ground (arith, l.size)) (
          subst (λ x. kl_chunk_put sys (p + want) (split_into want p x h) ≡ done tt h') (sym l.size)
            put)

    parted-same : (x : ℕ) → within p r x ≡ false → parted.words x ≡ h.words x
    unfolding parted split_into
    parted-same x o = ground (arith, l.ends)

    parted-Loose : Loose beg end parted (used_chunk want ∷ bs) (p + want) (n - want) r cs
    unfolding parted split_into listed_before
    parted-Loose = record {
      base = l.base;
      fits = l.fits;
      header = parted-same (beg - 8) (ground (arith, l.base, from)) ∙ l.header;
      footer = parted-same end (ground (arith, to_end)) ∙ l.footer;
      before = (
        omega (arith, from),
        record {
          large = large;
          aligned = aligned;
          header = ground (arith, here);
          footer = ground (arith, here);
        },
        subst (λ x. EndAt parted.words beg bs x) (sym here)
            (EndAt-same h.words parted.words beg bs p l.before
              (λ x low high. parted-same x (ground arith))),
      );
      size = ground arith;
      large = omega arith;
      aligned = omega (arith, l.aligned);
      ends = omega (arith, l.ends);
      after =
          StartAt-same h.words parted.words end cs r l.after
            (λ x low high. parted-same x (ground arith));
      listed = λ x b low high. ground (arith, l.listed x b low high, before x b);
    }
      where
        here : p + want - want ≡ p
        here = omega arith

        before : (x b : ℕ) → listed_before bs (p + want - want) x b ≡ listed_before bs p x b
        before x b = ap (λ y. listed_before bs y x b) here

    parted-SameOutside : SameOutside beg end h parted
    unfolding parted split_into
    parted-SameOutside = record {
      words = λ x o. ground (arith, from, to_end, l.ends);
      lists = λ x b o. refl;
      brick_bin = refl;
      undes_bin = refl;
      mem_total = refl;
      mem_max = refl;
      sys_ctr = refl;
      enabled = refl;
      world = refl;
    }

    parted-IsBlock :
        (h' : Heap W)
        → HeadUsed cs
        → IsFreed sys beg end parted (used_chunk want ∷ bs) (p + want) (n - want) cs h'
        → IsBlock beg end h' bs p (used_chunk want) (free_chunk (n - want) ∷ cs)
          × SameOutside beg end h h'
    parted-IsBlock h' e' (released e _ _) = cc
    parted-IsBlock h' e' (joined _ block same) = (
      IsBlock-left beg end h' bs p (used_chunk want) (free_chunk (n - want)) cs block,
      SameOutside-trans beg end parted-SameOutside same,
    )

  pub split-IsSplit :
      32 ≤ want
      → want % 8 ≡ 0
      → HeadUsed cs
      → (h' : Heap W) × (split sys want p h ≡ done (some p) h')
        × IsSplit beg end want h bs p n cs h'
  split-IsSplit large aligned e = elim (Bool-cases (ltb n (want + 32))) [
    | inl small ↦ (
      write (p + n - 8) 0 h,
      split_whole (ground arith),
      whole (ground arith) whole-IsBlock whole-SameOutside,
    )
    | inr fits ↦
        let fits' : want + 32 ≤ n = ground arith in
        let (h', run, freed) =
          kl_chunk_put-Loose sys beg end parted (used_chunk want ∷ bs) (p + want) (n - want) r cs
            (parted-Loose large aligned fits') in
        let alone =
          IsFreed-alone sys beg end parted (used_chunk want ∷ bs) (p + want) (n - want) cs h' refl e
            freed in
        let (block, same) = parted-IsBlock large aligned fits' h' e alone in
        (h', split_run large aligned fits' h' run, parts fits' block same)
  ]
