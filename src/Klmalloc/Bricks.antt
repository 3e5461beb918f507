-- ===== src/Klmalloc/Bricks.antt =====
-- src/klmalloc/klmalloc.c: bricks, the pieces of equal size of a block. `words` of a heap holds the header of a
-- block, with the count of its free bricks and its bin, and at its end the first free brick.
pub mod Chain
pub mod Get
pub mod Returned
pub mod Put
pub mod Zero
use sbma.Common.{
  ℕ, ◌+◌, ◌-◌, ◌*◌, ◌/◌, Bool, false, ◌||◌, if◌then◌else◌, ◌==◌, ltb, update, List, [], ◌∷◌, Option,
  none, some, Cmd, done, aborted, pure, modify, ◌>>◌,
}
use sbma.Api.{less}
use sbma.Klmalloc.Heap.{
  Sys, Heap, write, unlink, length, kl_g_bidx, kl_g_count, kl_g_size, kl_brick_size, fixed_max_size,
  block_default_size, undes_bin_num, some_block,
}

-- BRICK_MAX_SIZE
abbrev pub brick_max_size : ℕ
brick_max_size = 31

-- KL_G_BRICKBIN
abbrev pub kl_g_brickbin : ℕ → ℕ
kl_g_brickbin size = kl_brick_size size / 8 - 1

-- The address of BLOCK_HEAD.
abbrev pub head_of : ℕ → ℕ
head_of block = block + block_default_size - 24

-- The number of bricks of a block.
abbrev pub brick_count : ℕ → ℕ
brick_count bidx = fixed_max_size / ((bidx + 1) * 8)

-- Whether a block is part of the list.
unfoldable pub is_listed : ℕ → List ℕ → Bool
is_listed c [] = false
is_listed c (x ∷ xs) = (x == c) || is_listed c xs

module _ {W : Type 0} where
  abbrev pub set_bricks : ℕ → List ℕ → Heap W → Heap W
  set_bricks b blocks h = record h { brick_bin = update h.brick_bin b blocks }

  -- The block is removed from its list.
  unfoldable pub drop_block : ℕ → ℕ → Cmd (Heap W) (Unit {0})
  drop_block bidx block h = elim (unlink block (h.brick_bin bidx)) [
    | some blocks ↦ done tt (set_bricks bidx blocks h)
    | none ↦ aborted
  ]

  -- The free brick becomes the first of its block, and the block part of its list.
  unfoldable pub push_brick : ℕ → ℕ → ℕ → Heap W → Heap W
  unfolding is_listed
  push_brick bidx block brick h =
      let h' = write (head_of block) brick (write (brick + 8) (h.words (head_of block)) h) in
      if is_listed block (h.brick_bin bidx)
      then h'
      else set_bricks bidx (block ∷ h.brick_bin bidx) h'

  -- The brick is followed by `next`, which has never been used.
  unfoldable pub set_next : ℕ → ℕ → Heap W → Heap W
  set_next brick next h = write next 0 (write (brick + 8) next h)

  module _ (sys : Sys W) where
    unfoldable pub give_back : ℕ → Heap W → Heap W
    give_back block h =
        if ltb (length h.undes_bin) undes_bin_num
        then record (write (head_of block) 0 (write block 0 h)) { undes_bin = block ∷ h.undes_bin }
        else record h {
          world = sys.free block block_default_size h.world;
          mem_total = less h.mem_total block_default_size;
        }

    unfoldable pub kl_brick_put : ℕ → Cmd (Heap W) (Unit {0})
    kl_brick_put brick h =
        let block = h.words brick - 1 in
        let bidx = kl_g_bidx h.words block in
        (do
          modify (write block (h.words block + 1))
          λ t.
              if kl_g_count t.words block == brick_count bidx
              then (do drop_block bidx block; modify (give_back block)) t
              else done tt (push_brick bidx block brick t))
          h

    -- The first block of the bin, if it has a free brick.
    unfoldable pub head_block : ℕ → Heap W → Option ℕ
    head_block bidx h = elim (h.brick_bin bidx) [
      | [] ↦ none
      | block ∷ rest ↦ if h.words (head_of block) == 0 then none else some block
    ]

    -- The block is set up for bricks, and is the first of the bin.
    unfoldable pub designate : ℕ → ℕ → Heap W → Heap W
    designate bidx block h = write (block + 8) 0 (
        write (head_of block) (block + 8) (
          set_bricks bidx (block ∷ h.brick_bin bidx)
            (write block (bidx * 72057594037927936 + brick_count bidx) h)))

    -- A brick that has never been used names its block, and the next one is free.
    unfoldable pub first_use : ℕ → ℕ → Heap W → Heap W
    first_use block brick h =
        let h' = write brick (block + 1) h in
        let next = brick + kl_g_size h'.words brick in
        if h.words brick == 0
        then (if kl_g_count h.words block == 0 then h' else set_next brick next h')
        else h

    unfoldable pub take_brick : ℕ → ℕ → Cmd (Heap W) (Option ℕ)
    take_brick bidx block h =
        let brick = h.words (head_of block) in
        (do
          modify (write block (h.words block - 1))
          λ t. if kl_g_count t.words block == 0 then drop_block bidx block t else done tt t
          modify (first_use block brick)
          modify (λ t. write (brick + 8) 0 (write (head_of block) (t.words (brick + 8)) t))
          pure (some brick))
          h

    unfoldable pub kl_brick_get : ℕ → Cmd (Heap W) (Option ℕ)
    kl_brick_get size h =
        let bidx = kl_g_brickbin size in
        if ltb brick_max_size size then done none h else elim (head_block bidx h) [
          | some block ↦ take_brick bidx block h
          | none ↦
              let (r, h') = some_block sys h in
              elim r [
                | none ↦ done none h'
                | some block ↦ take_brick bidx block (designate bidx block h')
              ]
        ]
