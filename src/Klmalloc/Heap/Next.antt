-- ===== src/Klmalloc/Heap/Next.antt =====
-- Coalescing in src/klmalloc/klmalloc.c: a chunk that is being freed and the one after it.
use sbma.Common.{
  ℕ, ◌+◌, ◌-◌, ◌%◌, ◌≤◌, ◌<◌, ◌≡◌, true, false, ◌&&◌, ◌==◌, bit, List, [], ◌∷◌, arith, inl, inr,
  Bool-cases, done, subst, sym,
}
use sbma.Klmalloc.Heap.{Heap, join_next, kl_chunk_del, write, kl_g_size}
use sbma.Klmalloc.Heap.Tiles.{Chunk, IsChunk, EndAt-update, StartAt-update, EndAt-le, class}
use sbma.Klmalloc.Heap.Lists.{occurs, listed_after, kl_chunk_del_lem}
use sbma.Klmalloc.Heap.Loose.{
  gap, back, Loose, SameOutside, SameOutside-refl, joined, back_used, back_free, gap_used, gap_free,
}

module _ {W : Type 0} (h : Heap W) where
  module _ (p n r : ℕ) (size : h.words p ≡ n) (aligned : n % 8 ≡ 0) (ends : r ≡ p + n) where
    pub next_last : h.words r ≡ 8 → join_next p h ≡ done tt h
    unfolding join_next
    next_last e = ground (arith, next, e)
      where
        next : p + kl_g_size h.words p ≡ r
        next = ground arith

    module _ (m : ℕ) (low : 32 ≤ m) (aligned' : m % 8 ≡ 0) (size' : h.words r ≡ m) where
      next_used : h.words (r + m - 8) ≡ 0 → join_next p h ≡ done tt h
      unfolding join_next
      next_used e = ground (arith, next, e)
        where
          next : p + kl_g_size h.words p ≡ r
          next = ground arith

      next_free :
          (bins : ℕ → List ℕ)
          → h.words (r + m - 8) ≡ m
          → kl_chunk_del r h ≡ done tt (record h { chunk_bin = bins })
          → join_next p h
            ≡ done tt (write p ((n + m) % 18446744073709551616) (record h { chunk_bin = bins }))
      unfolding join_next
      next_free bins e del = ground (arith, next, e, del)
        where
          next : p + kl_g_size h.words p ≡ r
          next = ground arith

module _ {W : Type 0} (beg end : ℕ) where
  -- The chunk is joined with the free one after it.
  pub record JoinedNext (h : Heap W) (bs : List Chunk) (p n r : ℕ) (cs : List Chunk) : Type 0 where
    pub heap : Heap W
    pub total : ℕ
    pub stop : ℕ
    pub run : join_next p h ≡ done tt heap
    pub loose : Loose beg end heap bs p total stop (back cs)
    pub outside : SameOutside beg end h heap
    pub place : stop ≡ r + gap cs
    pub bytes : total ≡ n + gap cs

  module _ (h : Heap W) (bs : List Chunk) (p n r : ℕ) (t : Chunk) (ts : List Chunk)
      (l : Loose beg end h bs p n r (t ∷ ts)) where
    join_next_used : t.used ≡ true → JoinedNext h bs p n r (t ∷ ts)
    join_next_used e = record {
      heap = h;
      total = n;
      stop = r;
      run =
          next_used h p n r l.size l.aligned l.ends t.size c.large c.aligned c.header
            (ground (arith, c.footer, e));
      loose = subst (λ b. Loose beg end h bs p n r b) (back_used t ts e) l;
      outside = SameOutside-refl beg end h;
      place = omega (arith, gap_used t ts e);
      bytes = omega (arith, gap_used t ts e);
    }
      where
        c : IsChunk h.words r t
        c = l.after.1

    join_next_free : t.used ≡ false → JoinedNext h bs p n r (t ∷ ts)
    unfolding listed_after
    join_next_free e = record {
      heap = write p v (record h { chunk_bin = bins });
      total = n + m;
      stop = r + m;
      run =
          next_free h p n r l.size l.aligned l.ends m c.large c.aligned c.header bins
            (ground (arith, c.footer, e)) deleted;
      loose =
          subst (λ b. Loose beg end heap bs p (n + m) (r + m) b) (back_free t ts e)
            (record {
              base = l.base;
              fits = l.fits;
              header = ground (arith, l.header);
              footer = ground (arith, l.footer);
              before = EndAt-update h.words p v beg bs p l.before (omega arith);
              size = ground (arith, sum);
              large = omega (arith, l.large);
              aligned = omega (arith, c.aligned, l.aligned);
              ends = omega (arith, l.ends);
              after = StartAt-update h.words p v end ts (r + m) l.after.2 (omega (arith, l.ends));
              listed = λ x b low high. ground (arith, l.listed x b low high, counted x b);
            });
      outside = joined beg end h r m p v bins inside to from' (omega arith) counted;
      place = omega (arith, gap_free t ts e);
      bytes = omega (arith, gap_free t ts e);
    }
      where
        m : ℕ
        m = t.size

        v : ℕ
        v = (n + m) % 18446744073709551616

        c : IsChunk h.words r t
        c = l.after.1

        from' : beg ≤ p
        from' = EndAt-le h.words beg bs p l.before

        to_end : r + m ≤ end
        to_end = l.after.0

        inside : beg ≤ r
        inside = omega (arith, from', l.ends)

        to : r < end
        to = omega (arith, to_end, c.large)

        small : m < 1048576
        small = omega (arith, to_end, l.fits, inside)

        sum : v ≡ n + m
        sum = omega (arith, from', to_end, l.ends, l.fits)

        found : 0 < occurs r (h.chunk_bin (class m))
        found = ground (arith, l.listed r (class m) inside to, e)

        del :
            (bins : ℕ → List ℕ) × (kl_chunk_del r h ≡ done tt (record h { chunk_bin = bins }))
            × ((x b : ℕ)
                → occurs x (h.chunk_bin b) ≡ occurs x (bins b) + bit ((r == x) && (class m == b)))
        del = kl_chunk_del_lem r m h c.header c.large c.aligned small found

        bins : ℕ → List ℕ
        bins = del.0

        deleted : kl_chunk_del r h ≡ done tt (record h { chunk_bin = bins })
        deleted = del.1

        counted :
            (x b : ℕ)
            → occurs x (h.chunk_bin b) ≡ occurs x (bins b) + bit ((r == x) && (class m == b))
        counted = del.2

        heap : Heap W
        heap = write p v (record h { chunk_bin = bins })

  pub join_next-Loose :
      (h : Heap W) (bs : List Chunk) (p n r : ℕ) (cs : List Chunk)
      → Loose beg end h bs p n r cs
      → JoinedNext h bs p n r cs
  unfolding gap back listed_after
  join_next-Loose h bs p n r [] l = record {
    heap = h;
    total = n;
    stop = r;
    run =
        next_last h p n r l.size l.aligned l.ends
          (subst (λ x. h.words x ≡ 8) (sym l.after) l.footer);
    loose = l;
    outside = SameOutside-refl beg end h;
    place = omega arith;
    bytes = omega arith;
  }
  join_next-Loose h bs p n r (t ∷ ts) l = elim (Bool-cases t.used) [
    | inl e ↦ join_next_used h bs p n r t ts l e
    | inr e ↦ join_next_free h bs p n r t ts l e
  ]
