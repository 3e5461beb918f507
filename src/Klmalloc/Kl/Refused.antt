-- ===== src/Klmalloc/Kl/Refused.antt =====
-- Requests for which KL_malloc of src/klmalloc/klmalloc.c ends in a failed assertion.
use sbma.Common.{
  ℕ, ◌+◌, ◌-◌, ◌%◌, ◌≤◌, ◌<◌, ◌≡◌, ◌⊎◌, refl, ap, true, false, ◌==◌, ltb, Option, some, none, arith,
  inl, inr, Bool-cases, Option-cases, done, aborted, subst, sym, ◌∙◌,
}
use sbma.Klmalloc.{take_chunk}
use sbma.Klmalloc.Heap.{
  Sys, Heap, on, kl_chunk_size, kl_block_size, kl_chunk_get, kl_g_size, kl_block_alloc, some_block,
  write,
}
use sbma.Klmalloc.Heap.Get.{not_large, small}
use sbma.Klmalloc.Bricks.{kl_brick_get}
use sbma.Klmalloc.Kl.{Libc, kl_malloc, try_brick, try_chunk, try_solo, kl_chunk_solo, kl_chunk_hdr}

-- The headers and footers of a chunk of `n` bytes that is all of its block.
abbrev pub solo_heap : {W : Type 0} → ℕ → ℕ → ℕ → Heap W → Heap W
solo_heap block n block_size h =
    write (block + 8 + n - 8) 0
      (write (block + 8) n (write (block + block_size - 24) 8 (write block 8 h)))

pub solo_size :
    {W : Type 0} (block n block_size : ℕ) (h : Heap W)
    → 16 < n
    → n % 2 ≡ 0
    → kl_g_size (solo_heap block n block_size h).words (block + 8) ≡ n
solo_size block n block_size h large even = ground arith

pub kl_chunk_hdr_lem :
    {W : Type 0} (block size : ℕ) (h : Heap W)
    → 262096 < size
    → size ≤ 18446744073709551546
    → kl_chunk_hdr block size h
      ≡ done
          (block + 8)
          (solo_heap block (kl_chunk_size size) (kl_block_size (kl_chunk_size size)) h)
unfolding kl_chunk_hdr
kl_chunk_hdr_lem block size h large fits = ground (arith, above, same)
  where
    n : ℕ
    n = kl_chunk_size size

    above : ltb 262144 (kl_block_size n) ≡ true
    above = ground arith

    same :
        (kl_block_size n
          == kl_block_size (kl_g_size (solo_heap block n (kl_block_size n) h).words (block + 8)))
        ≡ true
    same =
        subst (λ x. (kl_block_size n == kl_block_size x) ≡ true)
          (sym (solo_size block n (kl_block_size n) h (ground arith) (omega arith))) (ground arith)

module _ {W : Type 0} (sys : Sys W) (libc : Libc W) (size : ℕ) where
  no_brick : (h : Heap W) → 31 < size → kl_brick_get sys size h ≡ done none h
  unfolding kl_brick_get
  no_brick h large = ground arith

  pub malloc_brick :
      (h : Heap W)
      → h.enabled ≡ on
      → size ≤ 18446744073709551590
      → kl_malloc sys libc size h ≡ try_brick sys size h
  unfolding kl_malloc
  malloc_brick h e fits = ground (arith, e)

  -- What is no brick's size goes to the chunks.
  pub malloc_chunk :
      (h : Heap W)
      → h.enabled ≡ on
      → 31 < size
      → size ≤ 18446744073709551590
      → kl_malloc sys libc size h ≡ try_chunk sys size h
  unfolding try_brick
  malloc_chunk h e large fits = malloc_brick h e fits ∙ rw (no_brick h large) refl

  no_chunk :
      (h : Heap W)
      → 262096 < size
      → size ≤ 18446744073709551590
      → kl_chunk_get sys size h ≡ done none h
  unfolding kl_chunk_get
  no_chunk h large fits = rw too_large refl
    where
      too_large : ltb 262112 (kl_chunk_size size) ≡ true
      too_large = ground arith

  -- What is no shared chunk's size gets a block of its own.
  pub malloc_solo :
      (h : Heap W)
      → h.enabled ≡ on
      → 262096 < size
      → size ≤ 18446744073709551590
      → kl_malloc sys libc size h ≡ try_solo sys size h
  unfolding try_chunk
  malloc_solo h e large fits = malloc_chunk h e (omega arith) fits ∙ rw (no_chunk h large fits) refl

  solo_none :
      (h h' : Heap W)
      → ltb 262144 (kl_block_size (kl_chunk_size size)) ≡ true
      → kl_block_alloc sys (kl_block_size (kl_chunk_size size)) h ≡ (none, h')
      → try_solo sys size h ≡ aborted
  unfolding try_solo kl_chunk_solo
  solo_none h h' e none_left = rw (e, ap (λ (y : Option ℕ × Heap W). y.0) none_left) refl

  solo_small :
      (h : Heap W)
      → ltb 262144 (kl_block_size (kl_chunk_size size)) ≡ false
      → try_solo sys size h ≡ aborted
  unfolding try_solo kl_chunk_solo
  solo_small h e = rw e refl

  -- A block of its own, in which the chunk is in use.
  pub kl_chunk_solo_lem :
      (h h' : Heap W) (block : ℕ)
      → 262096 < size
      → size ≤ 18446744073709551546
      → kl_block_alloc sys (kl_block_size (kl_chunk_size size)) h ≡ (some block, h')
      → kl_chunk_solo sys size h
        ≡ done
            (some (block + 8))
            (solo_heap block (kl_chunk_size size) (kl_block_size (kl_chunk_size size)) h')
  unfolding kl_chunk_solo
  kl_chunk_solo_lem h h' block large fits found =
      ground (arith, kl_chunk_hdr_lem block size h' large fits, found)

  module _ (h : Heap W) where
    alloc : Option ℕ × Heap W
    alloc = kl_block_alloc sys (kl_block_size (kl_chunk_size size)) h

    solo_gap : 262096 < size → size ≤ 262112 → try_solo sys size h ≡ aborted
    unfolding try_solo alloc
    solo_gap large fits = elim (Option-cases alloc.0) [
      | inl e ↦ solo_none h alloc.1 (ground arith) (ap (λ (y : Option ℕ). (y, alloc.1)) e)
      | inr (block, e) ↦ ground (
        arith,
        kl_chunk_solo_lem h alloc.1 block large (omega arith)
            (ap (λ (y : Option ℕ). (y, alloc.1)) e),
      )
    ]

  -- KL_malloc of 262097 to 262112 bytes aborts, whatever the heap and the system: no chunk of a shared block is
  -- large enough, and a block of its own is asserted to be for more than FIXED_MAX_SIZE bytes.
  pub kl_malloc_gap :
      (h : Heap W)
      → h.enabled ≡ on
      → 262096 < size
      → size ≤ 262112
      → kl_malloc sys libc size h ≡ aborted
  kl_malloc_gap h e large fits = malloc_solo h e large (omega arith) ∙ solo_gap h large fits

  no_chunk_left :
      (h h' : Heap W)
      → 31 < size
      → size ≤ 262096
      → take_chunk (kl_chunk_size size) h.chunk_bin ≡ none
      → some_block sys h ≡ (none, h')
      → kl_chunk_get sys size h ≡ done none h'
  unfolding kl_chunk_get
  no_chunk_left h h' low high e none_left = ground (
    arith,
    not_large sys size (omega arith) high,
    small sys size (omega arith) high,
    e,
    none_left,
  )

  -- When no chunk is free, no block is undesignated and the system has no memory left, KL_malloc of 32 to
  -- 262096 bytes aborts instead of returning NULL; and so it does for more, up to ALLOC_MAX_SIZE, when the
  -- system has no memory left for a block of its own.
  pub kl_malloc_exhausted :
      (h h' : Heap W)
      → h.enabled ≡ on
      → 31 < size
      → size ≤ 18446744073709551590
      → ((size ≤ 262096)
          × (take_chunk (kl_chunk_size size) h.chunk_bin ≡ none)
          × (some_block sys h ≡ (none, h')))
        ⊎ ((262096 < size)
            × (kl_block_alloc sys (kl_block_size (kl_chunk_size size)) h ≡ (none, h')))
      → kl_malloc sys libc size h ≡ aborted
  unfolding try_chunk
  kl_malloc_exhausted h h' e low fits (inl (high, no_free, none_left)) =
      malloc_chunk h e low fits
      ∙ rw (no_chunk_left h h' low high no_free none_left) (solo_small h' (ground arith))
  kl_malloc_exhausted h h' e low fits (inr (high, none_left)) =
      malloc_solo h e high fits ∙ exhausted
    where
      exhausted : try_solo sys size h ≡ aborted
      exhausted = elim (Bool-cases (ltb 262144 (kl_block_size (kl_chunk_size size)))) [
        | inl large ↦ solo_none h h' large none_left
        | inr wrapped ↦ solo_small h wrapped
      ]
