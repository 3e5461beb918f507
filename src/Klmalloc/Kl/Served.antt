-- ===== src/Klmalloc/Kl/Served.antt =====
-- KL_malloc of src/klmalloc/klmalloc.c for a chunk of a shared block, and KL_free of what it returns.
use sbma.Common.{ℕ, ◌+◌, ◌-◌, ◌≤◌, ◌<◌, ◌≡◌, false, List, some, arith, done, ◌∙◌}
use sbma.Klmalloc.{Bins, take_chunk}
use sbma.Klmalloc.Heap.{
  Sys, Heap, on, is_brick, kl_g_size, kl_chunk_size, kl_chunk_get, kl_chunk_put,
}
use sbma.Klmalloc.Heap.Tiles.{Chunk}
use sbma.Klmalloc.Heap.Filed.{IsBlock, free_chunk}
use sbma.Klmalloc.Heap.Put.{IsCoalesced, IsFreed}
use sbma.Klmalloc.Heap.Get.{IsGot, entire, divided, kl_chunk_get-IsGot, put_back}
use sbma.Klmalloc.Kl.{Libc, kl_malloc, kl_free, try_chunk, ptr_of}
use sbma.Klmalloc.Kl.Refused.{malloc_chunk}

-- The header of the chunk that is handed out.
pub record HasHeader {W : Type 0} (want : ℕ) (h h' : Heap W) (p : ℕ) : Type 0 where
  pub enough : want ≤ kl_g_size h'.words p
  pub is_chunk : is_brick h'.words p ≡ false
  pub enabled : h'.enabled ≡ h.enabled

pub got-HasHeader :
    {W : Type 0} (beg end want : ℕ) (h h' : Heap W) (bs : List Chunk) (p n : ℕ) (cs : List Chunk)
    → IsGot beg end want h bs p n cs h'
    → HasHeader want h h' p
got-HasHeader beg end want h h' bs p n cs (entire enough few i c same) = record {
  enough = ground (arith, i.chunk.header, i.chunk.aligned);
  is_chunk = ground (arith, i.chunk.header, i.chunk.aligned);
  enabled = same.enabled;
}
got-HasHeader beg end want h h' bs p n cs (divided fits i c same) = record {
  enough = ground (arith, i.chunk.header, i.chunk.aligned);
  is_chunk = ground (arith, i.chunk.header, i.chunk.aligned);
  enabled = same.enabled;
}

module _ {W : Type 0} (sys : Sys W) (libc : Libc W) where
  -- KL_free of what stands behind the header of a chunk.
  pub free_run :
      (h' h'' : Heap W) (p : ℕ)
      → h'.enabled ≡ on
      → is_brick h'.words p ≡ false
      → kl_chunk_put sys p h' ≡ done tt h''
      → kl_free sys libc (ptr_of p) h' ≡ done tt h''
  unfolding kl_free
  free_run h' h'' p e is_chunk run = ground (arith, e, is_chunk, run, here)
    where
      here : p + 8 - 8 ≡ p
      here = omega arith

module _ {W : Type 0} (sys : Sys W) (libc : Libc W) (size : ℕ) (low : 31 < size)
    (high : size ≤ 262096) where
  chunk_run :
      (h h' : Heap W) (p : ℕ)
      → kl_chunk_get sys size h ≡ done (some p) h'
      → HasHeader (kl_chunk_size size) h h' p
      → try_chunk sys size h ≡ done (some (ptr_of p)) h'
  unfolding try_chunk
  chunk_run h h' p run has = ground (arith, run, has.enough, has.is_chunk, here)
    where
      here : p + 8 - 8 ≡ p
      here = omega arith

  -- For 32 to 262096 bytes, when the search finds a chunk, which stands free in a block whose chunks have their
  -- headers and footers, whose free ones stand once each in the list for their size, and no two of them
  -- side by side, KL_malloc returns the address behind its header, and KL_free of this address returns;
  -- neither aborts. In between the chunk is in use and large enough. After both its block has the same
  -- chunks, once more with their headers, footers and lists, or is given back if the chunk was all of it.
  pub kl_free-kl_malloc :
      (beg end : ℕ) (h : Heap W) (bs : List Chunk) (p n : ℕ) (cs : List Chunk) (bins : Bins)
      → h.enabled ≡ on
      → IsBlock beg end h bs p (free_chunk n) cs
      → IsCoalesced bs (free_chunk n) cs
      → take_chunk (kl_chunk_size size) h.chunk_bin ≡ some (p, bins)
      → (h' : Heap W) × (h'' : Heap W) × (kl_malloc sys libc size h ≡ done (some (p + 8)) h')
        × IsGot beg end (kl_chunk_size size) h bs p n cs h'
        × (kl_free sys libc (p + 8) h' ≡ done tt h'')
        × IsFreed sys beg end h' bs p n cs h''
  kl_free-kl_malloc beg end h bs p n cs bins e i c taken =
      let (h', run, got) =
        kl_chunk_get-IsGot sys size (omega arith) high beg end h bs p n cs bins i c taken in
      let (h'', run', freed) = put_back sys size (omega arith) high beg end h h' bs p n cs c got in
      let has = got-HasHeader beg end (kl_chunk_size size) h h' bs p n cs got in
      (
        h',
        h'',
        malloc_chunk sys libc size h e low (omega arith) ∙ chunk_run h h' p run has,
        got,
        free_run sys libc h' h'' p (has.enabled ∙ e) has.is_chunk run',
        freed,
      )
