-- ===== src/Klmalloc.antt =====
-- src/klmalloc/klmalloc.c: the allocator of small objects. Here are the sizes, and the bins of its free chunks.
pub mod Table
pub mod Log2
pub mod Sizes
pub mod Bins
pub mod Chunks
pub mod Search
pub mod Heap
pub mod Bricks
pub mod Kl
mod Examples
use sbma.Common.{
  ℕ, zero, suc, ◌+◌, ◌-◌, ◌*◌, ◌/◌, ◌%◌, ◌^◌, Bool, true, false, if◌then◌else◌, ◌==◌, leb, ltb, not,
  update, List, [], ◌∷◌, Option, none, some,
}
use sbma.Klmalloc.Table.{bin2size}

-- An array is only read at its indices.
unfoldable pub entry : List ℕ → ℕ → ℕ
entry [] i = 0
entry (x ∷ xs) zero = x
entry (x ∷ xs) (suc i) = entry xs i

-- The loop of kl_builtin_clzl, which stands for __builtin_clzl: the highest bit of `v` that is set, of the
-- bits below `i`.
unfoldable pub highest_bit : ℕ → ℕ → ℕ
highest_bit zero v = 0
highest_bit (suc i) v = let rest = highest_bit i v in if v / 2 ^ i % 2 == 1 then i else rest

abbrev pub kl_clz : ℕ → ℕ
kl_clz v = 64 - highest_bit 64 v - 1

-- KLLOG2
abbrev pub kllog2 : ℕ → ℕ
kllog2 v = 64 - 1 - kl_clz v

unfoldable pub log2size : List ℕ
log2size =
    8 ∷ 8 ∷ 8 ∷ 8 ∷ 8 ∷ 8 ∷ 16 ∷ 16 ∷ 32 ∷ 32 ∷ 64 ∷ 64 ∷ 128 ∷ 128 ∷ 256 ∷ 256 ∷ 512 ∷ 512 ∷ 1024
    ∷ 1024 ∷ 0 ∷ 0 ∷ 0 ∷ 0 ∷ 0 ∷ 0 ∷ 0 ∷ 0 ∷ 0 ∷ 0 ∷ 0 ∷ 0 ∷ 0 ∷ 0 ∷ 0 ∷ 0 ∷ 0 ∷ 0 ∷ 0 ∷ 0 ∷ 0 ∷ 0
    ∷ 0 ∷ 0 ∷ 0 ∷ 0 ∷ 0 ∷ 0 ∷ 0 ∷ 0 ∷ 0 ∷ 0 ∷ 0 ∷ 0 ∷ 0 ∷ 0 ∷ 0 ∷ 0 ∷ 0 ∷ 0 ∷ 0 ∷ 0 ∷ 0 ∷ 0 ∷ []

unfoldable pub log2off : List ℕ
log2off =
    0 ∷ 0 ∷ 0 ∷ 0 ∷ 0 ∷ 0 ∷ 8 ∷ 8 ∷ 20 ∷ 20 ∷ 44 ∷ 44 ∷ 92 ∷ 92 ∷ 188 ∷ 188 ∷ 380 ∷ 380 ∷ 764 ∷ 764
    ∷ 1532 ∷ 1533 ∷ 1534 ∷ 1535 ∷ 1536 ∷ 1537 ∷ 1538 ∷ 1539 ∷ 1540 ∷ 1541 ∷ 1542 ∷ 1543 ∷ 1544
    ∷ 1545 ∷ 1546 ∷ 1547 ∷ 1548 ∷ 1549 ∷ 1550 ∷ 1551 ∷ 1552 ∷ 1553 ∷ 1554 ∷ 1555 ∷ 1556 ∷ 1557
    ∷ 1558 ∷ 1559 ∷ 1560 ∷ 1561 ∷ 1562 ∷ 1563 ∷ 1564 ∷ 1565 ∷ 1566 ∷ 1567 ∷ 1568 ∷ 1569 ∷ 1570
    ∷ 1571 ∷ 1572 ∷ 1573 ∷ 1574 ∷ 1575 ∷ []

-- KL_SIZE2BIN, of a size that is not 0
unfoldable pub kl_size2bin : ℕ → ℕ
unfolding entry highest_bit log2size log2off
kl_size2bin s =
    let l = kllog2 (s - 1) in
    let below = entry log2size (l - 1) * entry log2size (l - 1) + 1 in
    let below' = entry log2size (l - 2) * entry log2size (l - 2) + 1 in
    if leb s 64
    then (s - 1) / 8
    else if ltb l 20
    then (if leb below s
        then entry log2off l + (s - below) / entry log2size l
        else entry log2off (l - 1) + (s - below') / entry log2size (l - 1))
    else entry log2off l

-- KL_ISSMALLBIN
abbrev pub kl_issmallbin : ℕ → Bool
kl_issmallbin b = ltb b 1532

-- KL_BIN2SIZE; `none` is the failed assertion.
unfoldable pub kl_bin2size : ℕ → Option ℕ
kl_bin2size b = if kl_issmallbin b then some (entry bin2size b) else none

-- sizeof(kl_chunk_t)
abbrev pub chunk_min_size : ℕ
chunk_min_size = 32

-- The bin of a free chunk, or the failed assertion, or no bin at all.
pub data Placed : Type 0 where
  placed : ℕ → Placed
  dropped : Placed
  refused : Placed

-- if (size < KL_BIN2SIZE(bidx) && bidx > 0) bidx--;
abbrev pub shift : ℕ → ℕ → ℕ → ℕ
shift n bidx x = if ltb n x then (if ltb 0 bidx then bidx - 1 else bidx) else bidx

-- The bin that `kl_chunk_put` adds the chunk to.
unfoldable pub put_bin : ℕ → Placed
put_bin n =
    let bidx = kl_size2bin n in
    if not (leb chunk_min_size n)
    then refused
    else if kl_issmallbin bidx
    then elim (kl_bin2size bidx) [
      | none ↦ refused
      | some x ↦ elim (kl_bin2size (shift n bidx x)) [
        | none ↦ refused
        | some y ↦ if leb y n then placed (shift n bidx x) else refused
      ]
    ]
    else dropped

-- The bin that `kl_chunk_del` removes it from.
unfoldable pub del_bin : ℕ → Placed
del_bin n =
    let bidx = kl_size2bin n in
    if not (leb chunk_min_size n)
    then refused
    else elim (kl_bin2size bidx) [ none ↦ refused | some x ↦ placed (shift n bidx x) ]

-- chunk_bin: the sizes of the chunks of each list.
abbrev pub Bins : Type 0
Bins = ℕ → List ℕ

-- The search for the first bin with a chunk, from `bidx` on; a bin that is not small ends it.
unfoldable pub first_bin : Bins → ℕ → ℕ → ℕ
first_bin bins zero bidx = bidx
first_bin bins (suc fuel) bidx =
    let next = first_bin bins fuel (bidx + 1) in
    elim (bins bidx) [ [] ↦ if kl_issmallbin bidx then next else bidx | n ∷ rest ↦ bidx ]

-- The chunk that `kl_chunk_get` takes from an existing block; `want` is KL_CHUNK_SIZE(size).
unfoldable pub take_chunk : ℕ → Bins → Option (ℕ × Bins)
take_chunk want bins =
    let b = first_bin bins 1533 (kl_size2bin want) in
    if kl_issmallbin (kl_size2bin want)
    then elim (bins b) [ [] ↦ none | n ∷ rest ↦ some (n, update bins b rest) ]
    else none
