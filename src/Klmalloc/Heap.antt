-- ===== src/Klmalloc/Heap.antt =====
-- src/klmalloc/klmalloc.c: the heap, and chunks that are split and coalesced in it. `words` is the memory as
-- words of 8 bytes by their address.
pub mod Tiles
pub mod Lists
pub mod Loose
pub mod Prev
pub mod Next
pub mod Filed
pub mod Released
pub mod Put
pub mod Alone
pub mod Split
pub mod Head
pub mod Get
pub mod Obtained
pub mod Fresh
use sbma.Common.{
  ℕ, suc, ◌+◌, ◌-◌, ◌*◌, ◌/◌, ◌%◌, Bool, not, ◌&&◌, ◌||◌, if◌then◌else◌, ◌==◌, leb, ltb, within,
  update, List, [], ◌∷◌, Option, none, some, Cmd, done, aborted, pure, assert, modify, ◌>>=◌, ◌>>◌,
}
use sbma.Api.{less}
use sbma.Klmalloc.{
  kl_issmallbin, kl_size2bin, chunk_min_size, Bins, take_chunk, put_bin, del_bin, placed, dropped,
  refused,
}

-- CALL_SYS_ALLOC and CALL_SYS_FREE
pub record Sys (W : Type 0) : Type 0 where
  pub alloc : ℕ → W → Option ℕ × W
  pub free : ℕ → ℕ → W → W

-- M_ENABLED_ON, M_ENABLED_OFF and M_ENABLED_PAUSE
pub data Enabled : Type 0 where
  on : Enabled
  off : Enabled
  pause : Enabled

-- kl_mem_t, with the memory and the system. An array of lists has the addresses of the nodes of each.
pub record Heap (W : Type 0) : Type 0 where
  pub init : Bool
  pub enabled : Enabled
  pub words : ℕ → ℕ
  pub chunk_bin : Bins
  pub brick_bin : ℕ → List ℕ
  pub undes_bin : List ℕ
  pub mem_total : ℕ
  pub mem_max : ℕ
  pub sys_ctr : ℕ
  pub world : W

-- BLOCK_DEFAULT_SIZE, BLOCK_HEADER_ALIGN, FIXED_MAX_SIZE and UNDES_BIN_NUM
abbrev pub block_default_size : ℕ
block_default_size = 262144

abbrev pub block_header_align : ℕ
block_header_align = 8

abbrev pub fixed_max_size : ℕ
fixed_max_size = block_default_size - block_header_align - 8 - 2 * 8

abbrev pub undes_bin_num : ℕ
undes_bin_num = 4

abbrev pub kl_align : ℕ → ℕ
kl_align size = (size + 7) % 18446744073709551616 / 8 * 8

abbrev pub kl_block_size : ℕ → ℕ
kl_block_size size = kl_align (block_default_size - fixed_max_size + size)

abbrev pub kl_brick_size : ℕ → ℕ
kl_brick_size size = kl_align (8 + size)

abbrev pub kl_chunk_size : ℕ → ℕ
kl_chunk_size size = kl_align (2 * 8 + size)

-- KL_TYPEOF: whether it is a brick
abbrev pub is_brick : (ℕ → ℕ) → ℕ → Bool
is_brick words addr = words addr % 2 == 1

-- KL_G_BIDX
abbrev pub kl_g_bidx : (ℕ → ℕ) → ℕ → ℕ
kl_g_bidx words block = words block / 72057594037927936

-- KL_G_COUNT
abbrev pub kl_g_count : (ℕ → ℕ) → ℕ → ℕ
kl_g_count words block = words block % 72057594037927936

abbrev pub kl_g_size : (ℕ → ℕ) → ℕ → ℕ
kl_g_size words addr =
    if is_brick words addr then (kl_g_bidx words (words addr - 1) + 1) * 8 else words addr

-- KL_ISFIRST
abbrev pub kl_isfirst : (ℕ → ℕ) → ℕ → Bool
kl_isfirst words chunk = words (chunk - 8) == block_header_align

-- KL_ISLAST
abbrev pub kl_islast : (ℕ → ℕ) → ℕ → Bool
kl_islast words chunk = kl_g_size words (chunk + kl_g_size words chunk) == block_header_align

-- KL_ISINUSE
abbrev pub kl_isinuse : (ℕ → ℕ) → ℕ → Bool
kl_isinuse words chunk = words (chunk + words chunk - 8) == 0

-- A node is taken out of its list. Taking out one that is in another list is not defined.
unfoldable pub unlink : ℕ → List ℕ → Option (List ℕ)
unlink c [] = none
unlink c (x ∷ xs) =
    let rest : Option (List ℕ) = elim (unlink c xs) [ none ↦ none | some ys ↦ some (x ∷ ys) ] in
    if x == c then some xs else rest

abbrev pub length : List ℕ → ℕ
length [] = 0
length (x ∷ xs) = suc (length xs)

-- memset(block, 0, BLOCK_DEFAULT_SIZE)
unfoldable pub zero_block : ℕ → (ℕ → ℕ) → ℕ → ℕ
zero_block block words a = if within block (block + block_default_size) a then 0 else words a

module _ {W : Type 0} where
  -- One word is written.
  abbrev pub write : ℕ → ℕ → Heap W → Heap W
  write addr value h = record h { words = update h.words addr value }

  -- A list of free chunks is replaced.
  abbrev pub set_bin : ℕ → List ℕ → Heap W → Heap W
  set_bin b chunks h = record h { chunk_bin = update h.chunk_bin b chunks }

  unfoldable pub kl_chunk_del : ℕ → Cmd (Heap W) (Unit {0})
  kl_chunk_del chunk h = elim (del_bin (kl_g_size h.words chunk)) [
    | placed b ↦ elim (unlink chunk (h.chunk_bin b)) [
      | some chunks ↦ done tt (set_bin b chunks h)
      | none ↦ aborted
    ]
    | dropped ↦ aborted
    | refused ↦ aborted
  ]

  -- Coalesce with previous chunk.
  unfoldable pub join_prev : ℕ → Cmd (Heap W) ℕ
  join_prev chunk h =
      let prev = chunk - h.words (chunk - 8) in
      if not (kl_isfirst h.words chunk) && not (prev == chunk) && not (kl_isinuse h.words prev)
      then (do
        kl_chunk_del prev
        modify λ t. write prev ((t.words prev + t.words chunk) % 18446744073709551616) t
        pure prev)
          h
      else done chunk h

  -- Coalesce with following chunk.
  unfoldable pub join_next : ℕ → Cmd (Heap W) (Unit {0})
  join_next chunk h =
      let next = chunk + kl_g_size h.words chunk in
      if not (kl_islast h.words chunk) && not (kl_isinuse h.words next)
      then (do
        kl_chunk_del next
        modify λ t. write chunk ((t.words chunk + t.words next) % 18446744073709551616) t)
          h
      else done tt h

  -- Set chunk as not in use, and prepend it to its list.
  unfoldable pub file_chunk : ℕ → Cmd (Heap W) (Unit {0})
  file_chunk chunk = do
    modify λ h. write (chunk + h.words chunk - 8) (h.words chunk) h
    λ h. elim (put_bin (kl_g_size h.words chunk)) [
      | placed b ↦ done tt (set_bin b (chunk ∷ h.chunk_bin b) h)
      | dropped ↦ done tt h
      | refused ↦ aborted
    ]

  -- The first chunk of a block: its header and footer, and those of the block.
  abbrev pub whole : ℕ → Heap W → Heap W
  whole block h = write (block + 8 + fixed_max_size - 8) fixed_max_size (
      write (block + 8) fixed_max_size
        (write (block + block_default_size - 24) 8 (write block 8 h)))

  module _ (sys : Sys W) where
    -- If chunk is the only chunk, release memory back to system.
    unfoldable pub release : ℕ → Heap W → Heap W
    release chunk h =
        let block = chunk - h.words (chunk - 8) in
        let size = kl_block_size (kl_g_size h.words chunk) in
        if ltb (length h.undes_bin) undes_bin_num && (block_default_size == size)
        then record h { words = zero_block block h.words; undes_bin = block ∷ h.undes_bin }
        else record h { mem_total = less h.mem_total size; world = sys.free block size h.world }

    unfoldable pub put_away : ℕ → Cmd (Heap W) (Unit {0})
    put_away chunk h =
        if kl_isfirst h.words chunk && kl_islast h.words chunk
        then done tt (release chunk h)
        else file_chunk chunk h

    unfoldable pub kl_chunk_put : ℕ → Cmd (Heap W) (Unit {0})
    unfolding join_prev join_next put_away file_chunk release kl_chunk_del unlink
    kl_chunk_put chunk = do
      assert (λ h. leb chunk_min_size (kl_g_size h.words chunk))
      merged ← join_prev chunk
      join_next merged
      assert (λ h. leb chunk_min_size (kl_g_size h.words merged))
      put_away merged

    -- `none` is NULL.
    unfoldable pub kl_block_alloc : ℕ → Heap W → Option ℕ × Heap W
    kl_block_alloc size h =
        let (r, world) = sys.alloc size h.world in
        let total = (h.mem_total + size) % 18446744073709551616 in
        elim r [
          | none ↦ (none, record h { world = world })
          | some block ↦ (
            some block,
            record h {
              mem_total = total;
              mem_max = if ltb h.mem_max total then total else h.mem_max;
              sys_ctr = (h.sys_ctr + 1) % 18446744073709551616;
              world = world;
            },
          )
        ]

    -- A block from the undesignated stack, or a new one.
    unfoldable pub some_block : Heap W → Option ℕ × Heap W
    unfolding kl_block_alloc
    some_block h = elim h.undes_bin [
      | block ∷ rest ↦ (some block, record h { undes_bin = rest })
      | [] ↦ kl_block_alloc block_default_size h
    ]

    -- Split chunk if applicable.
    unfoldable pub split : ℕ → ℕ → Cmd (Heap W) (Option ℕ)
    unfolding kl_chunk_put
    split want chunk h =
        let n = h.words chunk in
        let next = chunk + want in
        if ltb chunk_min_size n && leb want (n - chunk_min_size)
        then (do
          modify (write chunk want)
          modify (write (chunk + want - 8) 0)
          modify (write next (n - want))
          modify (write (next + (n - want) - 8) (n - want))
          kl_chunk_put next
          pure (some chunk))
            h
        else done (some chunk) (write (chunk + n - 8) 0 h)

    unfoldable pub kl_chunk_get : ℕ → Cmd (Heap W) (Option ℕ)
    kl_chunk_get size h =
        let want = kl_chunk_size size in
        if ltb fixed_max_size want || not (kl_issmallbin (kl_size2bin want))
        then done none h
        else elim (take_chunk want h.chunk_bin) [
          | some (chunk, bins) ↦ split want chunk (record h { chunk_bin = bins })
          | none ↦
              let (r, h') = some_block h in
              elim r [ none ↦ done none h' | some block ↦ split want (block + 8) (whole block h') ]
        ]
