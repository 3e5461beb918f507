-- ===== src/Klmalloc/Heap/Filed.antt =====
-- A block of src/klmalloc/klmalloc.c with its chunks and lists, and how `kl_chunk_put` files a free chunk.
use sbma.Common.{
  ℕ, ◌+◌, ◌-◌, ◌%◌, ◌≤◌, ◌<◌, ◌≡◌, refl, ap, true, false, ◌==◌, List, [], ◌∷◌, arith, inl, inr,
  Bool, Bool-cases, done, subst,
}
use sbma.Klmalloc.{put_bin, placed}
use sbma.Klmalloc.Heap.{Heap, write, set_bin, kl_isfirst, kl_islast, file_chunk}
use sbma.Klmalloc.Heap.Tiles.{
  Chunk, IsChunk, EndAt, StartAt, EndAt-update, StartAt-update, EndAt-le, StartAt-le, class,
  put_bin-class,
}
use sbma.Klmalloc.Heap.Lists.{occurs, listed_at, listed_before, listed_after}
use sbma.Klmalloc.Heap.Loose.{Loose, SameOutside}

module _ {W : Type 0} (beg end : ℕ) where
  -- The block from `beg` to `end`, seen from its chunk `t` at `p`: each chunk has its header and its footer,
  -- and the free ones, and no others, stand once in the list for their size.
  pub record IsBlock (h : Heap W) (bs : List Chunk) (p : ℕ) (t : Chunk) (cs : List Chunk)
      : Type 0 where
    pub base : 8 ≤ beg
    pub fits : end ≡ beg + 262112
    pub header : h.words (beg - 8) ≡ 8
    pub footer : h.words end ≡ 8
    pub before : EndAt h.words beg bs p
    pub chunk : IsChunk h.words p t
    pub after : StartAt h.words end cs (p + t.size)
    pub listed :
        (x b : ℕ)
        → beg ≤ x
        → x < end
        → occurs x (h.chunk_bin b)
          ≡ listed_before bs p x b + listed_at t p x b + listed_after cs (p + t.size) x b

abbrev pub is_nil : List Chunk → Bool
is_nil [] = true
is_nil (t ∷ ts) = false

module _ {W : Type 0} (beg end : ℕ) (h : Heap W) where
  pub isfirst_lem :
      (bs : List Chunk) (p n r : ℕ) (cs : List Chunk)
      → Loose beg end h bs p n r cs
      → kl_isfirst h.words p ≡ is_nil bs
  isfirst_lem [] p n r cs l = ground (arith, l.before, l.header)
  isfirst_lem (t ∷ ts) p n r cs l = ground (arith, l.before.1.footer, l.before.1.large, same)
    where
      same : p - t.size + t.size - 8 ≡ p - 8
      same = omega (arith, l.before.0)

  pub islast_lem :
      (bs : List Chunk) (p n r : ℕ) (cs : List Chunk)
      → Loose beg end h bs p n r cs
      → kl_islast h.words p ≡ is_nil cs
  islast_lem bs p n r [] l = ground (arith, l.size, l.aligned, l.ends, l.after, l.footer)
  islast_lem bs p n r (t ∷ ts) l =
      ground
        (arith, l.size, l.aligned, l.ends, l.after.1.header, l.after.1.large, l.after.1.aligned)

  file_chunk_lem :
      (p n b : ℕ)
      → h.words p ≡ n
      → n % 8 ≡ 0
      → 32 ≤ n
      → put_bin n ≡ placed b
      → file_chunk p h ≡ done tt (set_bin b (p ∷ h.chunk_bin b) (write (p + n - 8) n h))
  unfolding file_chunk
  file_chunk_lem p n b size aligned large e = ground (arith, e)

abbrev pub free_chunk : ℕ → Chunk
free_chunk n = record { size = n; used = false }

abbrev pub used_chunk : ℕ → Chunk
used_chunk n = record { size = n; used = true }

module _ {W : Type 0} (beg end : ℕ) (h : Heap W) (bs : List Chunk) (p n r : ℕ) (cs : List Chunk)
    (l : Loose beg end h bs p n r cs) where
  -- The chunk is put into its list.
  pub filed : Heap W
  filed = set_bin (class n) (p ∷ h.chunk_bin (class n)) (write (p + n - 8) n h)

  from : beg ≤ p
  from = EndAt-le h.words beg bs p l.before

  to_end : r ≤ end
  to_end = StartAt-le h.words end cs r l.after

  pub file_chunk-filed : file_chunk p h ≡ done tt filed
  unfolding filed
  file_chunk-filed =
      file_chunk_lem beg end h p n (class n) l.size l.aligned l.large
        (put_bin-class n l.large (omega (arith, from, to_end, l.ends, l.fits)))

  pub filed-IsBlock : IsBlock beg end filed bs p (free_chunk n) cs
  unfolding filed occurs
  filed-IsBlock = record {
    base = l.base;
    fits = l.fits;
    header = ground (arith, l.header, from, l.large, l.base);
    footer = ground (arith, l.footer, to_end, l.ends, l.large);
    before = EndAt-update h.words (p + n - 8) n beg bs p l.before (omega (arith, l.large));
    chunk = record {
      large = l.large;
      aligned = l.aligned;
      header = ground (arith, l.size, l.large);
      footer = ground arith;
    };
    after =
        StartAt-update h.words (p + n - 8) n end cs (p + n)
          (subst (λ x. StartAt h.words end cs x) l.ends l.after) (omega (arith, l.large));
    listed = λ x b low high. elim (Bool-cases (b == class n)) [
      | inl e ↦ ground (arith, l.listed x b low high, eq b e, after_r x b)
      | inr e ↦ ground (arith, l.listed x b low high, after_r x b)
    ];
  }
    where
      eq : (b : ℕ) → (b == class n) ≡ true → b ≡ class n
      eq b e = ground arith

      after_r : (x b : ℕ) → listed_after cs r x b ≡ listed_after cs (p + n) x b
      after_r x b = ap (λ y. listed_after cs y x b) l.ends

  pub filed-SameOutside : SameOutside beg end h filed
  unfolding filed occurs
  filed-SameOutside = record {
    words = λ x o. ground (arith, from, to_end, l.ends, l.large);
    lists = λ x b o. ground (arith, from, to_end, l.ends, l.large);
    brick_bin = refl;
    undes_bin = refl;
    mem_total = refl;
    mem_max = refl;
    sys_ctr = refl;
    enabled = refl;
    world = refl;
  }
