-- ===== src/Klmalloc/Heap/Prev.antt =====
-- Coalescing in src/klmalloc/klmalloc.c: a chunk that is being freed and the one before it.
use sbma.Common.{
  ℕ, ◌+◌, ◌-◌, ◌%◌, ◌≤◌, ◌<◌, ◌≡◌, true, false, ◌&&◌, ◌==◌, bit, List, [], ◌∷◌, arith, inl, inr,
  Bool-cases, done, subst, sym,
}
use sbma.Klmalloc.Heap.{Heap, join_prev, kl_chunk_del, write}
use sbma.Klmalloc.Heap.Tiles.{
  Chunk, IsChunk, EndAt, EndAt-update, StartAt-update, StartAt-le, class,
}
use sbma.Klmalloc.Heap.Lists.{occurs, listed_before, kl_chunk_del_lem}
use sbma.Klmalloc.Heap.Loose.{
  gap, back, Loose, SameOutside, SameOutside-refl, joined, back_used, back_free, gap_used, gap_free,
}

module _ {W : Type 0} (h : Heap W) where
  pub prev_first : (p : ℕ) → h.words (p - 8) ≡ 8 → join_prev p h ≡ done p h
  unfolding join_prev
  prev_first p e = ground (arith, e)

  prev_used : (p : ℕ) → h.words (p - 8) ≡ 0 → join_prev p h ≡ done p h
  unfolding join_prev
  prev_used p e = ground (arith, e)

  prev_free :
      (p q m : ℕ) (bins : ℕ → List ℕ)
      → p ≡ q + m
      → 32 ≤ m
      → h.words q ≡ m
      → h.words (p - 8) ≡ m
      → kl_chunk_del q h ≡ done tt (record h { chunk_bin = bins })
      → join_prev p h
        ≡ done q (write q ((m + h.words p) % 18446744073709551616) (record h { chunk_bin = bins }))
  unfolding join_prev
  prev_free p q m bins pq low e e' del = ground (arith, place, del)
    where
      place : p - h.words (p - 8) ≡ q
      place = omega arith

module _ {W : Type 0} (beg end : ℕ) where
  -- The chunk is joined with the free one before it.
  pub record JoinedPrev (h : Heap W) (bs : List Chunk) (p n r : ℕ) (cs : List Chunk) : Type 0 where
    pub heap : Heap W
    pub start : ℕ
    pub total : ℕ
    pub run : join_prev p h ≡ done start heap
    pub loose : Loose beg end heap (back bs) start total r cs
    pub outside : SameOutside beg end h heap
    pub place : start + gap bs ≡ p
    pub bytes : total ≡ gap bs + n

  module _ (h : Heap W) (t : Chunk) (ts : List Chunk) (p n r : ℕ) (cs : List Chunk)
      (l : Loose beg end h (t ∷ ts) p n r cs) where
    join_prev_used : t.used ≡ true → JoinedPrev h (t ∷ ts) p n r cs
    join_prev_used e = record {
      heap = h;
      start = p;
      total = n;
      run = prev_used h p (ground (arith, l.before.1.footer, l.before.1.large));
      loose = subst (λ b. Loose beg end h b p n r cs) (back_used t ts e) l;
      outside = SameOutside-refl beg end h;
      place = omega (arith, gap_used t ts e);
      bytes = omega (arith, gap_used t ts e);
    }

    join_prev_free : t.used ≡ false → JoinedPrev h (t ∷ ts) p n r cs
    unfolding listed_before
    join_prev_free e = record {
      heap = write q v (record h { chunk_bin = bins });
      start = q;
      total = m + n;
      run = prev_free h p q m bins (omega arith) c.large c.header behind deleted;
      loose =
          subst (λ b. Loose beg end heap b q (m + n) r cs) (back_free t ts e)
            (record {
              base = l.base;
              fits = l.fits;
              header = ground (arith, l.header);
              footer = ground (arith, l.footer);
              before = EndAt-update h.words q v beg ts q rest (omega arith);
              size = ground (arith, sum);
              large = omega (arith, l.large);
              aligned = omega (arith, c.aligned, l.aligned);
              ends = omega (arith, l.ends);
              after = StartAt-update h.words q v end cs r l.after (omega (arith, l.ends));
              listed = λ x b low high. ground (arith, l.listed x b low high, counted x b);
            });
      outside = joined beg end h q m q v bins from to from to counted;
      place = omega (arith, gap_free t ts e);
      bytes = omega (arith, gap_free t ts e);
    }
      where
        q : ℕ
        q = p - t.size

        m : ℕ
        m = t.size

        v : ℕ
        v = (m + h.words p) % 18446744073709551616

        fits : beg + m ≤ p
        fits = l.before.0

        c : IsChunk h.words q t
        c = l.before.1

        rest : EndAt h.words beg ts q
        rest = l.before.2

        to_end : r ≤ end
        to_end = StartAt-le h.words end cs r l.after

        from : beg ≤ q
        from = omega arith

        to : q < end
        to = omega (arith, to_end, l.ends, l.large, fits)

        small : m < 1048576
        small = omega (arith, to_end, l.ends, l.fits, fits)

        same : q + m - 8 ≡ p - 8
        same = omega (arith, fits)

        behind : h.words (p - 8) ≡ m
        behind = ground (arith, c.footer, c.large, same)

        sum : v ≡ m + n
        sum = omega (arith, l.size, to_end, l.ends, l.fits, fits)

        found : 0 < occurs q (h.chunk_bin (class m))
        found = ground (arith, l.listed q (class m) from to, e)

        del :
            (bins : ℕ → List ℕ) × (kl_chunk_del q h ≡ done tt (record h { chunk_bin = bins }))
            × ((x b : ℕ)
                → occurs x (h.chunk_bin b) ≡ occurs x (bins b) + bit ((q == x) && (class m == b)))
        del = kl_chunk_del_lem q m h c.header c.large c.aligned small found

        bins : ℕ → List ℕ
        bins = del.0

        deleted : kl_chunk_del q h ≡ done tt (record h { chunk_bin = bins })
        deleted = del.1

        counted :
            (x b : ℕ)
            → occurs x (h.chunk_bin b) ≡ occurs x (bins b) + bit ((q == x) && (class m == b))
        counted = del.2

        heap : Heap W
        heap = write q v (record h { chunk_bin = bins })

  pub join_prev-Loose :
      (h : Heap W) (bs : List Chunk) (p n r : ℕ) (cs : List Chunk)
      → Loose beg end h bs p n r cs
      → JoinedPrev h bs p n r cs
  unfolding gap back listed_before
  join_prev-Loose h [] p n r cs l = record {
    heap = h;
    start = p;
    total = n;
    run = prev_first h p (subst (λ x. h.words (x - 8) ≡ 8) (sym l.before) l.header);
    loose = l;
    outside = SameOutside-refl beg end h;
    place = omega arith;
    bytes = omega arith;
  }
  join_prev-Loose h (t ∷ ts) p n r cs l = elim (Bool-cases t.used) [
    | inl e ↦ join_prev_used h t ts p n r cs l e
    | inr e ↦ join_prev_free h t ts p n r cs l e
  ]
