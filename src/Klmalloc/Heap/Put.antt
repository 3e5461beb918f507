-- ===== src/Klmalloc/Heap/Put.antt =====
-- `kl_chunk_put` of src/klmalloc/klmalloc.c: a chunk is freed, and coalesced with its neighbours.
use sbma.Common.{
  ℕ, ◌+◌, ◌-◌, ◌≡◌, refl, true, false, ◌&&◌, leb, List, [], ◌∷◌, arith, inl, inr, Bool-cases, done,
  subst, ◌∙◌,
}
use sbma.Klmalloc.Heap.{Sys, Heap, kl_g_size, release, put_away, kl_chunk_put, join_prev, join_next}
use sbma.Klmalloc.Heap.Tiles.{Chunk}
use sbma.Klmalloc.Heap.Loose.{
  gap, back, back_used, back_free, Loose, SameOutside, SameOutside-trans,
}
use sbma.Klmalloc.Heap.Prev.{join_prev-Loose, JoinedPrev}
use sbma.Klmalloc.Heap.Next.{join_next-Loose, JoinedNext}
use sbma.Klmalloc.Heap.Filed.{
  IsBlock, is_nil, free_chunk, used_chunk, isfirst_lem, islast_lem, filed, file_chunk-filed,
  filed-IsBlock, filed-SameOutside,
}
use sbma.Klmalloc.Heap.Released.{IsReleased, release-IsReleased}

-- No two free chunks stand side by side.
abbrev pub HeadUsed : List Chunk → Type 0
HeadUsed [] = Unit {0}
HeadUsed (t ∷ ts) = t.used ≡ true

abbrev pub IsApart : List Chunk → Type 0
IsApart [] = Unit {0}
IsApart (t ∷ ts) = (t.used ≡ false → HeadUsed ts) × IsApart ts

abbrev pub IsCoalesced : List Chunk → Chunk → List Chunk → Type 0
IsCoalesced bs t cs = IsApart bs × IsApart cs × (t.used ≡ false → HeadUsed bs × HeadUsed cs)

back-HeadUsed : (ts : List Chunk) → IsApart ts → HeadUsed (back ts)
unfolding back
back-HeadUsed [] a = tt
back-HeadUsed (t ∷ ts) a = elim (Bool-cases t.used) [
  | inl e ↦ subst HeadUsed (back_used t ts e) e
  | inr e ↦ subst HeadUsed (back_free t ts e) (a.0 e)
]

back-IsApart : (ts : List Chunk) → IsApart ts → IsApart (back ts)
unfolding back
back-IsApart [] a = tt
back-IsApart (t ∷ ts) a = elim (Bool-cases t.used) [
  | inl e ↦ subst IsApart (back_used t ts e) a
  | inr e ↦ subst IsApart (back_free t ts e) a.1
]

module _ {W : Type 0} (sys : Sys W) (beg end : ℕ) where
  -- After a free: the block is given back if it is a single chunk, of `n` bytes at `p`, and has this free chunk
  -- between the others if not.
  pub data IsFreed (h : Heap W) (bs : List Chunk) (p n : ℕ) (cs : List Chunk) (h' : Heap W)
      : Type 0 where
    released : bs ≡ [] → cs ≡ [] → IsReleased sys beg end h h' → IsFreed h bs p n cs h'
    joined :
        (is_nil bs && is_nil cs) ≡ false
        → IsBlock beg end h' bs p (free_chunk n) cs
        → SameOutside beg end h h'
        → IsFreed h bs p n cs h'

  module _ (h : Heap W) (bs : List Chunk) (p n r : ℕ) (cs : List Chunk)
      (l : Loose beg end h bs p n r cs) where
    put_alone : (is_nil bs && is_nil cs) ≡ true → put_away sys p h ≡ done tt (release sys p h)
    unfolding put_away
    put_alone e =
        ground (arith, isfirst_lem beg end h bs p n r cs l, islast_lem beg end h bs p n r cs l)

    put_filed :
        (is_nil bs && is_nil cs) ≡ false
        → put_away sys p h ≡ done tt (filed beg end h bs p n r cs l)
    unfolding put_away
    put_filed e = ground (
      arith,
      isfirst_lem beg end h bs p n r cs l,
      islast_lem beg end h bs p n r cs l,
      file_chunk-filed beg end h bs p n r cs l,
    )

  pub put_run :
      (h h1 h2 : Heap W) (p q : ℕ)
      → leb 32 (kl_g_size h.words p) ≡ true
      → join_prev p h ≡ done q h1
      → join_next q h1 ≡ done tt h2
      → leb 32 (kl_g_size h2.words q) ≡ true
      → kl_chunk_put sys p h ≡ put_away sys q h2
  unfolding kl_chunk_put
  put_run h h1 h2 p q large prev next large' = ground (arith, large, prev, next, large')

  valid_size :
      (h : Heap W) (bs : List Chunk) (p n r : ℕ) (cs : List Chunk)
      → Loose beg end h bs p n r cs
      → leb 32 (kl_g_size h.words p) ≡ true
  valid_size h bs p n r cs l = ground (arith, l.size, l.large, l.aligned)

  put_away-filed :
      (h0 h : Heap W) (bs : List Chunk) (p n r : ℕ) (cs : List Chunk)
      → SameOutside beg end h0 h
      → Loose beg end h bs p n r cs
      → (is_nil bs && is_nil cs) ≡ false
      → (h' : Heap W) × (put_away sys p h ≡ done tt h') × IsFreed h0 bs p n cs h'
  put_away-filed h0 h bs p n r cs same l e = (
    filed beg end h bs p n r cs l,
    put_filed h bs p n r cs l e,
    joined e (filed-IsBlock beg end h bs p n r cs l)
        (SameOutside-trans beg end same (filed-SameOutside beg end h bs p n r cs l)),
  )

  put_away-IsFreed :
      (h0 h : Heap W) (bs : List Chunk) (p n r : ℕ) (cs : List Chunk)
      → SameOutside beg end h0 h
      → Loose beg end h bs p n r cs
      → (h' : Heap W) × (put_away sys p h ≡ done tt h') × IsFreed h0 bs p n cs h'
  put_away-IsFreed h0 h [] p n r [] same l = (
    release sys p h,
    put_alone h [] p n r [] l refl,
    released refl refl (release-IsReleased sys beg end h0 h p n r same l),
  )
  put_away-IsFreed h0 h [] p n r (t ∷ ts) same l = put_away-filed h0 h [] p n r (t ∷ ts) same l refl
  put_away-IsFreed h0 h (t ∷ ts) p n r cs same l = put_away-filed h0 h (t ∷ ts) p n r cs same l refl

  pub kl_chunk_put-Loose :
      (h : Heap W) (bs : List Chunk) (p n r : ℕ) (cs : List Chunk)
      → Loose beg end h bs p n r cs
      → (h' : Heap W) × (kl_chunk_put sys p h ≡ done tt h')
        × IsFreed h (back bs) (p - gap bs) (gap bs + n + gap cs) (back cs) h'
  kl_chunk_put-Loose h bs p n r cs l =
      let (h', finished, freed) =
        put_away-IsFreed h jn.heap (back bs) jp.start jn.total jn.stop (back cs)
          (SameOutside-trans beg end jp.outside jn.outside) jn.loose in
      (
        h',
        put_run h jp.heap jn.heap p jp.start (valid_size h bs p n r cs l) jp.run jn.run
              (valid_size jn.heap (back bs) jp.start jn.total jn.stop (back cs) jn.loose)
            ∙ finished,
        subst (λ x. IsFreed h (back bs) x (gap bs + n + gap cs) (back cs) h') place
            (subst (λ x. IsFreed h (back bs) jp.start x (back cs) h') bytes freed),
      )
    where
      jp : JoinedPrev beg end h bs p n r cs
      jp = join_prev-Loose beg end h bs p n r cs l

      jn : JoinedNext beg end jp.heap (back bs) jp.start jp.total r cs
      jn = join_next-Loose beg end jp.heap (back bs) jp.start jp.total r cs jp.loose

      place : jp.start ≡ p - gap bs
      place = omega (arith, jp.place)

      bytes : jn.total ≡ gap bs + n + gap cs
      bytes = omega (arith, jp.bytes, jn.bytes)

  -- In a block whose chunks have their headers and footers, and whose free ones stand once each in the list
  -- for their size, with no two of them side by side, `kl_chunk_put` of a chunk in use never aborts. The
  -- chunk is joined with the free ones before and after it. If this is all of the block, the block is given
  -- back, and none of it is in a list; if not, the block is again such a block, with the joined chunk free,
  -- and all else in memory and in the lists is as before.
  pub kl_chunk_put-IsFreed :
      (h : Heap W) (bs : List Chunk) (p n : ℕ) (cs : List Chunk)
      → IsBlock beg end h bs p (used_chunk n) cs
      → IsCoalesced bs (used_chunk n) cs
      → (h' : Heap W) × (kl_chunk_put sys p h ≡ done tt h')
        × IsFreed h (back bs) (p - gap bs) (gap bs + n + gap cs) (back cs) h'
        × IsCoalesced (back bs) (free_chunk (gap bs + n + gap cs)) (back cs)
  kl_chunk_put-IsFreed h bs p n cs i (apart, apart', _) =
      let (h', run, freed) = kl_chunk_put-Loose h bs p n (p + n) cs (record {
        base = i.base;
        fits = i.fits;
        header = i.header;
        footer = i.footer;
        before = i.before;
        size = i.chunk.header;
        large = i.chunk.large;
        aligned = i.chunk.aligned;
        ends = refl;
        after = i.after;
        listed = λ x b low high. omega (arith, i.listed x b low high);
      }) in
      (
        h',
        run,
        freed,
        (
          back-IsApart bs apart,
          back-IsApart cs apart',
          λ e. (back-HeadUsed bs apart, back-HeadUsed cs apart'),
        ),
      )
