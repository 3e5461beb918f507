-- ===== src/Klmalloc/Kl.antt =====
-- src/klmalloc/klmalloc.c: chunks that are a block of their own, and the public functions.
pub mod Refused
pub mod Served
pub mod Solo
pub mod Zeroed
pub mod Brick
pub mod Realloc
pub mod Options
mod Examples
mod EmptyExamples
use sbma.Common.{
  ℕ, ◌+◌, ◌-◌, ◌*◌, ◌/◌, ◌%◌, ◌^◌, not, if◌then◌else◌, ◌==◌, leb, ltb, within, Option, none, some,
  Cmd, done, aborted, pure, assert, modify, ◌>>=◌, ◌>>◌,
}
use sbma.Klmalloc.Heap.{
  Sys, Heap, on, off, pause, write, is_brick, kl_g_size, kl_block_size, kl_brick_size,
  kl_chunk_size, fixed_max_size, block_default_size, block_header_align, kl_block_alloc,
  kl_chunk_get, kl_chunk_put,
}
use sbma.Klmalloc.Bricks.{brick_max_size, kl_brick_get, kl_brick_put}

-- The C library's allocator, which serves while this one is not enabled.
pub record Libc (W : Type 0) : Type 0 where
  pub malloc : ℕ → W → Option ℕ × W
  pub calloc : ℕ → ℕ → W → Option ℕ × W
  pub realloc : ℕ → ℕ → W → Option ℕ × W
  pub free : ℕ → W → W

-- ALLOC_MAX_SIZE
abbrev pub alloc_max_size : ℕ
alloc_max_size = 18446744073709551590

-- BRICK_PTR, ALLOC_PTR and CHUNK_PTR
abbrev pub ptr_of : ℕ → ℕ
ptr_of alloc = alloc + 8

-- A call of the C library, which leaves the heap as it is.
abbrev pub by_libc : {W : Type 0} → Heap W → Option ℕ × W → Option ℕ × Heap W
by_libc h (r, world) = (r, record h { world = world })

module _ {W : Type 0} where
  -- KL_malloc's assertions on what it returns. The last one reads the header of the allocation; below NULL
  -- there is no memory.
  abbrev pub hand_out : Option ℕ → Cmd (Heap W) (Option ℕ)
  hand_out none h = aborted
  hand_out (some ptr) h =
      (do assert (λ t. not (kl_g_size t.words (ptr - 8) == 0)); pure (some ptr)) h

  -- memset(ptr, 0, n)
  abbrev pub zero_bytes : ℕ → ℕ → Heap W → Heap W
  zero_bytes ptr n h = record h {
    words = λ a.
        if within ptr (ptr + n) a
        then (if leb (a + 8) (ptr + n)
            then 0
            else h.words a / 256 ^ (ptr + n - a) * 256 ^ (ptr + n - a))
        else h.words a;
  }

  -- memcpy(nptr, ptr, n)
  abbrev pub copy_bytes : ℕ → ℕ → ℕ → Heap W → Heap W
  copy_bytes nptr ptr n h = record h {
    words = λ a. if within nptr (nptr + n) a then h.words (a - nptr + ptr) else h.words a;
  }

  unfoldable pub kl_chunk_hdr : ℕ → ℕ → Cmd (Heap W) ℕ
  kl_chunk_hdr block size = do
    let block_size = kl_block_size (kl_chunk_size size)
    assert (λ h. ltb block_default_size block_size)
    modify (write block block_header_align)
    modify (write (block + block_size - 24) block_header_align)
    modify (write (block + 8) (kl_chunk_size size))
    modify (write (block + 8 + kl_chunk_size size - 8) 0)
    assert (λ h. block_size == kl_block_size (kl_g_size h.words (block + 8)))
    pure (block + 8)

  module _ (sys : Sys W) where
    unfoldable pub kl_chunk_solo : ℕ → Cmd (Heap W) (Option ℕ)
    kl_chunk_solo size h =
        let block_size = kl_block_size (kl_chunk_size size) in
        if ltb block_default_size block_size
        then (let (r, h') = kl_block_alloc sys block_size h in
            elim r [
              | none ↦ done none h'
              | some block ↦ (do chunk ← kl_chunk_hdr block size; pure (some chunk)) h'
            ])
        else aborted

    -- KL_malloc's last attempt.
    unfoldable pub try_solo : ℕ → Cmd (Heap W) (Option ℕ)
    try_solo size = do
      solo ← kl_chunk_solo size
      elim solo [
        | none ↦ hand_out none
        | some chunk ↦ do
          assert (λ h. ltb fixed_max_size size)
          assert (λ h. kl_chunk_size size == kl_g_size h.words chunk)
          assert (λ h. not (is_brick h.words chunk))
          hand_out (some (ptr_of chunk))
      ]

    unfoldable pub try_chunk : ℕ → Cmd (Heap W) (Option ℕ)
    try_chunk size = do
      got ← kl_chunk_get sys size
      elim got [
        | none ↦ try_solo size
        | some chunk ↦ do
          assert (λ h. leb size fixed_max_size)
          assert (λ h. leb (kl_chunk_size size) (kl_g_size h.words chunk))
          assert (λ h. not (is_brick h.words chunk))
          hand_out (some (ptr_of chunk))
      ]

    unfoldable pub try_brick : ℕ → Cmd (Heap W) (Option ℕ)
    try_brick size = do
      got ← kl_brick_get sys size
      elim got [
        | none ↦ try_chunk size
        | some brick ↦ do
          assert (λ h. leb size brick_max_size)
          assert (λ h. leb (kl_brick_size size) (kl_g_size h.words brick))
          assert (λ h. is_brick h.words brick)
          hand_out (some (ptr_of brick))
      ]

    module _ (libc : Libc W) where
      unfoldable pub kl_malloc : ℕ → Cmd (Heap W) (Option ℕ)
      kl_malloc size h = elim h.enabled [
        | on ↦ if ltb alloc_max_size size then done none h else try_brick size h
        | off ↦ let (r, h') = by_libc h (libc.malloc size h.world) in done r h'
        | pause ↦ let (r, h') = by_libc h (libc.malloc size h.world) in done r h'
      ]

      unfoldable pub kl_free : ℕ → Cmd (Heap W) (Unit {0})
      kl_free ptr h = elim h.enabled [
        | on ↦
            if is_brick h.words (ptr - 8)
            then kl_brick_put sys (ptr - 8) h
            else kl_chunk_put sys (ptr - 8) h
        | off ↦ done tt (record h { world = libc.free ptr h.world })
        | pause ↦ done tt (record h { world = libc.free ptr h.world })
      ]

      unfoldable pub kl_calloc : ℕ → ℕ → Cmd (Heap W) (Option ℕ)
      unfolding kl_malloc
      kl_calloc num size h =
          let bytes = num * size % 18446744073709551616 in
          elim h.enabled [
            | on ↦
                (do
                  r ← kl_malloc bytes
                  elim r [
                    | none ↦ pure none
                    | some ptr ↦ do modify (zero_bytes ptr bytes); hand_out (some ptr)
                  ])
                  h
            | off ↦ let (r, h') = by_libc h (libc.calloc num size h.world) in done r h'
            | pause ↦ let (r, h') = by_libc h (libc.calloc num size h.world) in done r h'
          ]
