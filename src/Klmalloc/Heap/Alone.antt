-- ===== src/Klmalloc/Heap/Alone.antt =====
-- A block of src/klmalloc/klmalloc.c seen from another chunk, and a chunk whose neighbours are in use.
use sbma.Common.{ℕ, ◌+◌, ◌-◌, ◌≡◌, refl, ap, List, [], ◌∷◌, arith, subst, sym}
use sbma.Klmalloc.Heap.{Sys, Heap}
use sbma.Klmalloc.Heap.Tiles.{Chunk, IsChunk, EndAt, StartAt-le}
use sbma.Klmalloc.Heap.Lists.{listed_at, listed_before, listed_after}
use sbma.Klmalloc.Heap.Loose.{gap, back, back_used, gap_used}
use sbma.Klmalloc.Heap.Filed.{IsBlock}
use sbma.Klmalloc.Heap.Put.{HeadUsed, IsFreed}

module _ {W : Type 0} (beg end : ℕ) where
  -- The block, seen from the chunk before.
  pub IsBlock-left :
      (h : Heap W) (bs : List Chunk) (p : ℕ) (t u : Chunk) (cs : List Chunk)
      → IsBlock beg end h (t ∷ bs) (p + t.size) u cs
      → IsBlock beg end h bs p t (u ∷ cs)
  unfolding listed_before listed_after
  IsBlock-left h bs p t u cs i = record {
    base = i.base;
    fits = i.fits;
    header = i.header;
    footer = i.footer;
    before = subst (λ x. EndAt h.words beg bs x) here i.before.2;
    chunk = subst (λ x. IsChunk h.words x t) here i.before.1;
    after = (StartAt-le h.words end cs (p + t.size + u.size) i.after, i.chunk, i.after);
    listed = λ x b low high. ground (arith, i.listed x b low high, before x b, at x b);
  }
    where
      here : p + t.size - t.size ≡ p
      here = omega arith

      before : (x b : ℕ) → listed_before bs (p + t.size - t.size) x b ≡ listed_before bs p x b
      before x b = ap (λ y. listed_before bs y x b) here

      at : (x b : ℕ) → listed_at t (p + t.size - t.size) x b ≡ listed_at t p x b
      at x b = ap (λ y. listed_at t y x b) here

back_same : (ts : List Chunk) → HeadUsed ts → ts ≡ back ts
unfolding back
back_same [] e = refl
back_same (t ∷ ts) e = back_used t ts e

gap_zero : (ts : List Chunk) → HeadUsed ts → gap ts ≡ 0
unfolding gap
gap_zero [] e = refl
gap_zero (t ∷ ts) e = gap_used t ts e

-- A chunk behind a chunk in use starts where it did.
pub IsFreed-before :
    {W : Type 0} (sys : Sys W) (beg end : ℕ) (h : Heap W) (bs : List Chunk) (p n : ℕ)
    (cs : List Chunk) (h' : Heap W)
    → HeadUsed bs
    → IsFreed sys beg end h (back bs) (p - gap bs) (gap bs + n) cs h'
    → IsFreed sys beg end h bs p n cs h'
IsFreed-before sys beg end h bs p n cs h' e freed =
    subst (λ x. IsFreed sys beg end h x p n cs h') (sym (back_same bs e))
      (subst (λ x. IsFreed sys beg end h (back bs) x n cs h') place
        (subst (λ x. IsFreed sys beg end h (back bs) (p - gap bs) x cs h') bytes freed))
  where
    place : p - gap bs ≡ p
    place = omega (arith, gap_zero bs e)

    bytes : gap bs + n ≡ n
    bytes = omega (arith, gap_zero bs e)

-- A chunk between chunks in use is freed alone.
pub IsFreed-alone :
    {W : Type 0} (sys : Sys W) (beg end : ℕ) (h : Heap W) (bs : List Chunk) (p n : ℕ)
    (cs : List Chunk) (h' : Heap W)
    → HeadUsed bs
    → HeadUsed cs
    → IsFreed sys beg end h (back bs) (p - gap bs) (gap bs + n + gap cs) (back cs) h'
    → IsFreed sys beg end h bs p n cs h'
IsFreed-alone sys beg end h bs p n cs h' e e' freed = IsFreed-before sys beg end h bs p n cs h' e (
    subst (λ x. IsFreed sys beg end h (back bs) (p - gap bs) (gap bs + n) x h')
      (sym (back_same cs e'))
      (subst (λ x. IsFreed sys beg end h (back bs) (p - gap bs) x (back cs) h') bytes freed))
  where
    bytes : gap bs + n + gap cs ≡ gap bs + n
    bytes = omega (arith, gap_zero cs e')
