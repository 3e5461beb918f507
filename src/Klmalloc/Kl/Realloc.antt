-- ===== src/Klmalloc/Kl/Realloc.antt =====
-- KL_realloc of src/klmalloc/klmalloc.c.
pub mod Kept
pub mod Grown
use sbma.Common.{
  ℕ, ◌+◌, ◌-◌, ◌%◌, Bool, not, ◌&&◌, if◌then◌else◌, ◌==◌, leb, ltb, Option, none, some, Cmd, done,
  aborted, pure, assert, modify, ◌>>=◌, ◌>>◌,
}
use sbma.Api.{less}
use sbma.Klmalloc.Heap.{
  Sys, Heap, on, off, pause, is_brick, kl_g_size, kl_block_size, kl_brick_size, kl_chunk_size,
  fixed_max_size, block_default_size, block_header_align,
}
use sbma.Klmalloc.Bricks.{brick_max_size}
use sbma.Klmalloc.Kl.{Libc, by_libc, hand_out, copy_bytes, kl_malloc, kl_free, kl_chunk_hdr}

-- CALL_SYS_REALLOC, which moves a block, and CALL_SYS_REMAP, which moves its memory to another one. Both may change
-- the memory.
pub record Resize (W : Type 0) : Type 0 where
  pub realloc : ℕ → ℕ → (ℕ → ℕ) → W → Option ℕ × (ℕ → ℕ) × W
  pub remap : ℕ → ℕ → ℕ → (ℕ → ℕ) → W → Bool × (ℕ → ℕ) × W

module _ {W : Type 0} where
  -- KL_G_PREV of a chunk
  abbrev pub prev_of : ℕ → Heap W → ℕ
  prev_of chunk h = chunk - h.words (chunk - 8)

  -- KL_realloc's assertions on what it returns.
  unfoldable pub hand_on : ℕ → ℕ → Cmd (Heap W) (Option ℕ)
  hand_on size nptr = do
    assert (λ h.
        if leb size brick_max_size
        then is_brick h.words (nptr - 8)
        else not (is_brick h.words (nptr - 8)))
    hand_out (some nptr)

  module _ (sys : Sys W) (libc : Libc W) (resize : Resize W) where
    unfoldable pub kl_block_realloc : ℕ → ℕ → ℕ → Heap W → Option ℕ × Heap W
    kl_block_realloc oblock osize nsize h =
        let (r, words, world) = resize.realloc oblock nsize h.words h.world in
        let total = (h.mem_total + less nsize osize) % 18446744073709551616 in
        elim r [
          | none ↦ (none, record h { words = words; world = world })
          | some nblock ↦ (
            some nblock,
            record h {
              words = words;
              world = world;
              mem_total = total;
              mem_max = if ltb h.mem_max total then total else h.mem_max;
              sys_ctr = (h.sys_ctr + 1) % 18446744073709551616;
            },
          )
        ]

    -- The new allocation takes the memory of the old one over.
    unfoldable pub take_over : ℕ → ℕ → ℕ → ℕ → Cmd (Heap W) (Option ℕ)
    take_over ptr nptr osize size h =
        let oblock = prev_of (ptr - 8) h in
        let obsize = kl_block_size (kl_g_size h.words (ptr - 8)) in
        let block = prev_of (nptr - 8) h in
        let (moved, words, world) = resize.remap block oblock osize h.words h.world in
        let h' = record h { words = words; world = world } in
        if moved
        then (do
          chunk ← kl_chunk_hdr block size
          (if nptr == chunk + 8
              then (do
                modify (λ t. record t {
                  mem_total = less t.mem_total obsize;
                  world = sys.free oblock obsize t.world;
                })
                hand_on size nptr)
              else pure none))
            h'
        else done none h'

    -- The old allocation is copied to the new one, and freed.
    unfoldable pub copy_over : ℕ → ℕ → ℕ → ℕ → Cmd (Heap W) (Option ℕ)
    copy_over ptr nptr osize size = do
      modify (copy_bytes nptr ptr osize)
      kl_free sys libc ptr
      hand_on size nptr

    -- Allocate new, larger region of memory.
    unfoldable pub move : ℕ → ℕ → ℕ → Cmd (Heap W) (Option ℕ)
    move ptr osize size = do
      r ← kl_malloc sys libc size
      elim r [
        | none ↦ pure none
        | some nptr ↦ do
          assert (λ h. leb osize (kl_g_size h.words (nptr - 8)))
          (if ltb fixed_max_size osize
              then take_over ptr nptr osize size
              else copy_over ptr nptr osize size)
      ]

    -- A chunk that is a block of its own gets a larger block.
    unfoldable pub regrow : ℕ → ℕ → ℕ → Cmd (Heap W) (Option ℕ)
    regrow ptr osize size h =
        let block = prev_of (ptr - 8) h in
        let block_size = kl_block_size (kl_chunk_size size) in
        if (h.words block == block_header_align)
          && (h.words (block + kl_block_size osize - 24) == block_header_align)
          && ltb block_default_size block_size
        then (let (r, h') = kl_block_realloc block (kl_block_size osize) block_size h in
            elim r [
              | none ↦ move ptr osize size h'
              | some nblock ↦
                  (do
                    chunk ← kl_chunk_hdr nblock size
                    assert (λ t. kl_chunk_size size == kl_g_size t.words chunk)
                    assert (λ t. block_size == kl_block_size (kl_g_size t.words chunk))
                    hand_on size (chunk + 8))
                    h'
            ])
        else aborted

    unfoldable pub kl_realloc : ℕ → ℕ → Cmd (Heap W) (Option ℕ)
    kl_realloc ptr size h =
        let osize = kl_g_size h.words (ptr - 8) in
        elim h.enabled [
          | on ↦
              if osize == 0
              then aborted
              else if leb (kl_brick_size size) osize
              then done (some ptr) h
              else if leb (kl_chunk_size size) osize
              then done (some ptr) h
              else if ltb fixed_max_size osize
              then regrow ptr osize size h
              else move ptr osize size h
          | off ↦ let (r, h') = by_libc h (libc.realloc ptr size h.world) in done r h'
          | pause ↦ let (r, h') = by_libc h (libc.realloc ptr size h.world) in done r h'
        ]
