-- ===== src/Klmalloc/Heap/Released.antt =====
-- How `kl_chunk_put` of src/klmalloc/klmalloc.c gives a block back that is one free chunk.
use sbma.Common.{
  ℕ, ◌+◌, ◌-◌, ◌≤◌, ◌<◌, ◌≡◌, true, false, ltb, within, [], ◌∷◌, arith, inl, inr, Bool-cases,
}
use sbma.Api.{less}
use sbma.Klmalloc.Heap.{Sys, Heap, length, kl_g_size, release, zero_block}
use sbma.Klmalloc.Heap.Lists.{occurs, listed_before, listed_after}
use sbma.Klmalloc.Heap.Loose.{Loose, SameOutside}

-- The block is given back: it is in no list, and goes to the undesignated stack, with zeros in it, or to the
-- system.
pub record IsReleased {W : Type 0} (sys : Sys W) (beg end : ℕ) (h h' : Heap W) : Type 0 where
  pub unlisted : (x b : ℕ) → beg ≤ x → x < end → occurs x (h'.chunk_bin b) ≡ 0
  pub lists :
      (x b : ℕ) → within beg end x ≡ false → occurs x (h'.chunk_bin b) ≡ occurs x (h.chunk_bin b)
  pub stacked :
      length h.undes_bin < 4
      → (h'.undes_bin ≡ (beg - 8) ∷ h.undes_bin)
        × (h'.mem_total ≡ h.mem_total)
        × (h'.world ≡ h.world)
        × ((x : ℕ) → within (beg - 8) (end + 24) x ≡ true → h'.words x ≡ 0)
  pub returned :
      4 ≤ length h.undes_bin
      → (h'.undes_bin ≡ h.undes_bin)
        × (h'.mem_total ≡ less h.mem_total 262144)
        × (h'.world ≡ sys.free (beg - 8) 262144 h.world)
  pub outside : (x : ℕ) → within (beg - 8) (end + 24) x ≡ false → h'.words x ≡ h.words x

module _ {W : Type 0} (sys : Sys W) (beg end : ℕ) (h h' : Heap W) (p n r : ℕ)
    (same : SameOutside beg end h h') (l : Loose beg end h' [] p n r []) where
  at_start : p - h'.words (p - 8) ≡ beg - 8
  at_start = ground (arith, l.before, l.header)

  whole_size : kl_g_size h'.words p ≡ 262112
  whole_size = ground (arith, l.before, l.after, l.ends, l.fits, l.size)

  release_stacked :
      length h'.undes_bin < 4
      → release sys p h'
        ≡ record h' { words = zero_block (beg - 8) h'.words; undes_bin = (beg - 8) ∷ h'.undes_bin }
  unfolding release
  release_stacked room = ground (arith, at_start, whole_size)

  release_returned :
      4 ≤ length h'.undes_bin
      → release sys p h' ≡ record h' {
        mem_total = less h'.mem_total 262144;
        world = sys.free (beg - 8) 262144 h'.world;
      }
  unfolding release
  release_returned full = ground (arith, at_start, whole_size)

  unlisted : (x b : ℕ) → beg ≤ x → x < end → occurs x (h'.chunk_bin b) ≡ 0
  unfolding listed_before listed_after
  unlisted x b low high = omega (arith, l.listed x b low high)

  -- The first word of the block, and those behind its chunks, are not in it.
  pub release-IsReleased : IsReleased sys beg end h (release sys p h')
  unfolding zero_block
  release-IsReleased = elim (Bool-cases (ltb (length h'.undes_bin) 4)) [
    | inl e ↦ rw (release_stacked (ground arith)) (stacked (ground arith))
    | inr e ↦ rw (release_returned (ground arith)) (record {
      unlisted = unlisted;
      lists = same.lists;
      stacked = λ room. absurd (ground (arith, same.undes_bin, e));
      returned = λ full. ground (arith, same.undes_bin, same.mem_total, same.world);
      outside = λ x o. same.words x (ground arith);
    })
  ]
    where
      stacked :
          length h'.undes_bin < 4
          → IsReleased sys beg end h (record h' {
            words = zero_block (beg - 8) h'.words;
            undes_bin = (beg - 8) ∷ h'.undes_bin;
          })
      stacked e' = record {
        unlisted = unlisted;
        lists = same.lists;
        stacked = λ room. (
          ground (arith, same.undes_bin),
          same.mem_total,
          same.world,
          λ x o. ground (arith, l.base, l.fits),
        );
        returned = λ full. absurd (ground (arith, same.undes_bin, e'));
        outside = λ x o. ground (arith, l.base, l.fits, same.words x (ground arith));
      }
