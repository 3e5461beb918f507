-- ===== src/Klmalloc/Heap/Head.antt =====
-- The free chunk that `kl_chunk_get` of src/klmalloc/klmalloc.c takes from the lists of a heap.
use sbma.Common.{
  ℕ, ◌+◌, ◌-◌, ◌≤◌, ◌<◌, ◌≡◌, refl, true, false, ◌&&◌, ◌==◌, ltb, bit, update, within, List,
  List-cases, [], ◌∷◌, some, none, arith, inl, inr, Bool-cases, ap,
}
use sbma.Klmalloc.{kl_size2bin, Bins, first_bin, take_chunk}
use sbma.Klmalloc.Search.{first_bin-IsFound}
use sbma.Klmalloc.Heap.{Heap}
use sbma.Klmalloc.Heap.Tiles.{Chunk, EndAt, StartAt, EndAt-le, StartAt-le, class}
use sbma.Klmalloc.Heap.Lists.{occurs, listed_before, listed_after}
use sbma.Klmalloc.Heap.Loose.{Loose}
use sbma.Klmalloc.Heap.Filed.{IsBlock, free_chunk}

-- The chunk is the first of a list that is not before that of the wanted size.
pub record IsHead (want : ℕ) (bins : Bins) (c : ℕ) (bins' : Bins) : Type 0 where
  pub bin : ℕ
  pub rest : List ℕ
  pub le : kl_size2bin want ≤ bin
  pub head : bins bin ≡ c ∷ rest
  pub removed : bins' ≡ update bins bin rest

module _ (want : ℕ) (bins : Bins) (small : ltb (kl_size2bin want) 1532 ≡ true) where
  r : ℕ
  r = first_bin bins 1533 (kl_size2bin want)

  take_none : bins r ≡ [] → take_chunk want bins ≡ none
  unfolding take_chunk r
  take_none e = rw (small, e) refl

  take_some :
      (x : ℕ) (xs : List ℕ) → bins r ≡ x ∷ xs → take_chunk want bins ≡ some (x, update bins r xs)
  unfolding take_chunk r
  take_some x xs e = rw (small, e) refl

  pub take_chunk-IsHead :
      (c : ℕ) (bins' : Bins) → take_chunk want bins ≡ some (c, bins') → IsHead want bins c bins'
  unfolding r
  take_chunk-IsHead c bins' e = elim (List-cases (bins r)) [
    | inl e' ↦ cc (take_none e')
    | inr (x, xs, e') ↦ record {
      bin = r;
      rest = xs;
      le = (first_bin-IsFound bins 1533 (kl_size2bin want) (omega arith)).le;
      head = cc (take_some x xs e');
      removed = cc (take_some x xs e');
    }
  ]

-- A list loses its head.
head_removed :
    (bins bins' : Bins) (k c : ℕ) (rest : List ℕ)
    → bins k ≡ c ∷ rest
    → bins' ≡ update bins k rest
    → (x b : ℕ) → occurs x (bins b) ≡ occurs x (bins' b) + bit ((c == x) && (k == b))
unfolding occurs
head_removed bins bins' k c rest e e' x b = elim (Bool-cases (b == k)) [
  | inl same ↦ ground (arith, ap (occurs x) e, here same, ap (λ (f : Bins). occurs x (f b)) e')
  | inr other ↦ ground (arith, ap (λ (f : Bins). occurs x (f b)) e')
]
  where
    here : (b == k) ≡ true → occurs x (bins b) ≡ occurs x (bins k)
    here same = ap (λ y. occurs x (bins y)) (ground arith)

module _ (words : ℕ → ℕ) where
  before_zero :
      (beg : ℕ) (ts : List Chunk) (a x b : ℕ)
      → EndAt words beg ts a
      → a ≤ x
      → listed_before ts a x b ≡ 0
  unfolding listed_before
  before_zero beg [] a x b e le = refl
  before_zero beg (t ∷ ts) a x b (fits, c, rest) le =
      ground (arith, c.large, before_zero beg ts (a - t.size) x b rest (omega arith))

  after_zero :
      (end : ℕ) (ts : List Chunk) (a x b : ℕ)
      → StartAt words end ts a
      → x < a
      → listed_after ts a x b ≡ 0
  unfolding listed_after
  after_zero end [] a x b e lt = refl
  after_zero end (t ∷ ts) a x b (fits, c, rest) lt =
      ground (arith, after_zero end ts (a + t.size) x b rest (omega arith))

module _ {W : Type 0} (beg end : ℕ) (h : Heap W) (bs : List Chunk) (p n : ℕ) (cs : List Chunk)
    (i : IsBlock beg end h bs p (free_chunk n) cs) (want : ℕ) (bins' : Bins)
    (hd : IsHead want h.chunk_bin p bins') where
  from : beg ≤ p
  from = EndAt-le h.words beg bs p i.before

  to_end : p + n ≤ end
  to_end = StartAt-le h.words end cs (p + n) i.after

  pub bin-class : hd.bin ≡ class n
  unfolding occurs
  bin-class = ground (
    arith,
    from,
    to_end,
    i.chunk.large,
    hd.head,
    i.listed p hd.bin from (omega (arith, to_end, i.chunk.large)),
    before_zero h.words beg bs p p hd.bin i.before (omega arith),
    after_zero h.words end cs (p + n) p hd.bin i.after (omega (arith, i.chunk.large)),
    ap (occurs p) hd.head,
  )

  -- It is taken from its list.
  pub taken-Loose : Loose beg end (record h { chunk_bin = bins' }) bs p n (p + n) cs
  taken-Loose = record {
    base = i.base;
    fits = i.fits;
    header = i.header;
    footer = i.footer;
    before = i.before;
    size = i.chunk.header;
    large = i.chunk.large;
    aligned = i.chunk.aligned;
    ends = refl;
    after = i.after;
    listed = λ x b low high. ground (
      arith,
      i.listed x b low high,
      head_removed h.chunk_bin bins' hd.bin p hd.rest hd.head hd.removed x b,
      bin-class,
    );
  }

  pub taken-outside :
      (x b : ℕ) → within beg end x ≡ false → occurs x (bins' b) ≡ occurs x (h.chunk_bin b)
  taken-outside x b o = ground (
    arith,
    from,
    to_end,
    i.chunk.large,
    head_removed h.chunk_bin bins' hd.bin p hd.rest hd.head hd.removed x b,
  )
