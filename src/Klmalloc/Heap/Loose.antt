-- ===== src/Klmalloc/Heap/Loose.antt =====
-- A block of src/klmalloc/klmalloc.c with a chunk that is being freed, and what stays the same outside it.
use sbma.Common.{
  ℕ, ◌+◌, ◌-◌, ◌%◌, ◌≤◌, ◌<◌, ◌≡◌, refl, true, false, ◌&&◌, if◌then◌else◌, ◌==◌, bit, within, List,
  [], ◌∷◌, arith,
}
use sbma.Klmalloc.Heap.{Heap, write}
use sbma.Klmalloc.Heap.Tiles.{Chunk, EndAt, StartAt, class}
use sbma.Klmalloc.Heap.Lists.{occurs, listed_before, listed_after}

-- The bytes of the neighbour that is free, and the chunks without it.
unfoldable pub gap : List Chunk → ℕ
gap [] = 0
gap (t ∷ ts) = if t.used then 0 else t.size

unfoldable pub back : List Chunk → List Chunk
back [] = []
back (t ∷ ts) = if t.used then t ∷ ts else ts

module _ {W : Type 0} (beg end : ℕ) where
  -- The block from `beg` to `end`, with a chunk from `p` to `r` that is in no list: `bs` stand before it, the
  -- last one first, and `cs` after it.
  pub record Loose (h : Heap W) (bs : List Chunk) (p n r : ℕ) (cs : List Chunk) : Type 0 where
    pub base : 8 ≤ beg
    pub fits : end ≡ beg + 262112
    pub header : h.words (beg - 8) ≡ 8
    pub footer : h.words end ≡ 8
    pub before : EndAt h.words beg bs p
    pub size : h.words p ≡ n
    pub large : 32 ≤ n
    pub aligned : n % 8 ≡ 0
    pub ends : r ≡ p + n
    pub after : StartAt h.words end cs r
    pub listed :
        (x b : ℕ)
        → beg ≤ x
        → x < end
        → occurs x (h.chunk_bin b) ≡ listed_before bs p x b + listed_after cs r x b

  -- All that is not in this block is as before.
  pub record SameOutside (h h' : Heap W) : Type 0 where
    pub words : (x : ℕ) → within beg end x ≡ false → h'.words x ≡ h.words x
    pub lists :
        (x b : ℕ) → within beg end x ≡ false → occurs x (h'.chunk_bin b) ≡ occurs x (h.chunk_bin b)
    pub brick_bin : h'.brick_bin ≡ h.brick_bin
    pub undes_bin : h'.undes_bin ≡ h.undes_bin
    pub mem_total : h'.mem_total ≡ h.mem_total
    pub mem_max : h'.mem_max ≡ h.mem_max
    pub sys_ctr : h'.sys_ctr ≡ h.sys_ctr
    pub enabled : h'.enabled ≡ h.enabled
    pub world : h'.world ≡ h.world

  pub SameOutside-refl : (h : Heap W) → SameOutside h h
  SameOutside-refl h = record {
    words = λ x o. refl;
    lists = λ x b o. refl;
    brick_bin = refl;
    undes_bin = refl;
    mem_total = refl;
    mem_max = refl;
    sys_ctr = refl;
    enabled = refl;
    world = refl;
  }

  pub SameOutside-trans :
      {h h' h'' : Heap W} → SameOutside h h' → SameOutside h' h'' → SameOutside h h''
  SameOutside-trans s s' = record {
    words = λ x o. cc (s.words x o, s'.words x o);
    lists = λ x b o. cc (s.lists x b o, s'.lists x b o);
    brick_bin = cc (s.brick_bin, s'.brick_bin);
    undes_bin = cc (s.undes_bin, s'.undes_bin);
    mem_total = cc (s.mem_total, s'.mem_total);
    mem_max = cc (s.mem_max, s'.mem_max);
    sys_ctr = cc (s.sys_ctr, s'.sys_ctr);
    enabled = cc (s.enabled, s'.enabled);
    world = cc (s.world, s'.world);
  }

  -- A free chunk leaves its list, and a header in the block is written.
  pub joined :
      (h : Heap W) (q m x v : ℕ) (bins : ℕ → List ℕ)
      → beg ≤ q
      → q < end
      → beg ≤ x
      → x < end
      → ((y b : ℕ)
          → occurs y (h.chunk_bin b) ≡ occurs y (bins b) + bit ((q == y) && (class m == b)))
      → SameOutside h (write x v (record h { chunk_bin = bins }))
  joined h q m x v bins low high low' high' counted = record {
    words = λ y o. ground arith;
    lists = λ y b o. ground (arith, counted y b);
    brick_bin = refl;
    undes_bin = refl;
    mem_total = refl;
    mem_max = refl;
    sys_ctr = refl;
    enabled = refl;
    world = refl;
  }

module _ (t : Chunk) (ts : List Chunk) where
  pub back_used : t.used ≡ true → t ∷ ts ≡ back (t ∷ ts)
  unfolding back
  back_used e = ground (arith, e)

  pub back_free : t.used ≡ false → ts ≡ back (t ∷ ts)
  unfolding back
  back_free e = ground (arith, e)

  pub gap_used : t.used ≡ true → gap (t ∷ ts) ≡ 0
  unfolding gap
  gap_used e = ground (arith, e)

  pub gap_free : t.used ≡ false → gap (t ∷ ts) ≡ t.size
  unfolding gap
  gap_free e = ground (arith, e)
