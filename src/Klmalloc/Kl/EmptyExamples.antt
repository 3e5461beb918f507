-- ===== src/Klmalloc/Kl/EmptyExamples.antt =====
-- Heaps with no block, and with a block of bricks.
use sbma.Common.{
  ℕ, ◌+◌, ◌-◌, ◌<◌, ◌≡◌, refl, true, false, if◌then◌else◌, ◌==◌, ltb, [], ◌∷◌, update, some, none,
  arith, done, inl, inr,
}
use sbma.Klmalloc.{kl_size2bin, take_chunk}
use sbma.Common.{aborted}
use sbma.Klmalloc.Heap.{
  Sys, Heap, on, kl_chunk_get, kl_g_size, kl_g_count, kl_isinuse, whole, some_block,
}
use sbma.Klmalloc.Heap.Obtained.{IsElsewhere, Obtained}
use sbma.Klmalloc.Heap.Fresh.{Unlisted, kl_chunk_get-whole}
use sbma.Klmalloc.Bricks.{kl_brick_get, head_block, is_listed}
use sbma.Klmalloc.Bricks.Get.{IsBrickBlock}
use sbma.Klmalloc.Bricks.Returned.{IsHandedOut}
use sbma.Klmalloc.Bricks.Zero.{kl_brick_get_zero}
use sbma.Klmalloc.Kl.{kl_malloc, kl_free}
use sbma.Klmalloc.Kl.Solo.{kl_free-kl_malloc_solo}
use sbma.Klmalloc.Kl.Brick.{kl_free-kl_malloc_brick}
use sbma.Klmalloc.Kl.Refused.{kl_malloc_gap, kl_malloc_exhausted}
use sbma.Klmalloc.Kl.Realloc.{Resize, kl_realloc}
use sbma.Klmalloc.Kl.Realloc.Kept.{kl_realloc_overlap}
use sbma.Klmalloc.Kl.Realloc.Grown.{kl_realloc_grown}
use sbma.Common.{ap, ◌≤◌}
use sbma.Klmalloc.Heap.Lists.{occurs}
use sbma.Klmalloc.Heap.Get.{IsGot}
use sbma.Klmalloc.Kl.Examples.{sys, libc}

-- A heap that has no block yet.
abbrev empty : Heap ℕ
empty = record {
  init = true;
  enabled = on;
  words = λ a. 0;
  chunk_bin = λ b. [];
  brick_bin = λ b. [];
  undes_bin = [];
  mem_total = 0;
  mem_max = 0;
  sys_ctr = 0;
  world = 8;
}

abbrev one_block : Heap ℕ
one_block = record empty { mem_total = 262144; mem_max = 262144; sys_ctr = 1; world = 262152 }

found_none : (want : ℕ) → ltb (kl_size2bin want) 1532 ≡ true → take_chunk want (λ b. []) ≡ none
unfolding take_chunk
found_none want small = rw small refl

small_100 : ltb (kl_size2bin 120) 1532 ≡ true
unfolding kl_size2bin
small_100 = refl

new_block : some_block sys empty ≡ (some 8, one_block)
unfolding some_block
new_block = refl

unlisted : Unlisted 8 empty
unfolding occurs
unlisted x b low high = refl

kl_chunk_get-whole_example :
    (h' : Heap ℕ) × (kl_chunk_get sys 100 empty ≡ done (some 16) h')
    × IsGot 16 262128 120 (whole 8 one_block) [] 16 262112 [] h'
    × IsElsewhere 8 empty h'
    × Obtained sys 8 empty h'
kl_chunk_get-whole_example =
    kl_chunk_get-whole sys 100 (omega arith) (omega arith) empty one_block 8
      (found_none 120 small_100) new_block unlisted

kl_malloc_gap_example : kl_malloc sys libc 262100 empty ≡ aborted
kl_malloc_gap_example = kl_malloc_gap sys libc 262100 empty refl (omega arith) (omega arith)

-- A system that has no memory.
abbrev no_sys : Sys ℕ
no_sys = record { alloc = λ n w. (none, w); free = λ block n w. w }

no_block : some_block no_sys empty ≡ (none, empty)
unfolding some_block
no_block = refl

kl_malloc_exhausted_example : kl_malloc no_sys libc 100 empty ≡ aborted
kl_malloc_exhausted_example =
    kl_malloc_exhausted no_sys libc 100 empty empty refl (omega arith) (omega arith)
      (inl (omega arith, found_none 120 small_100, no_block))

kl_free-kl_malloc_solo_example :
    (h' : Heap ℕ) × (h'' : Heap ℕ) × (kl_malloc sys libc 1000000 empty ≡ done (some 24) h')
    × (kl_free sys libc 24 h' ≡ done tt h'')
    × (kl_g_size h'.words 16 ≡ 1000016)
    × (h'.words (16 + 1000016 - 8) ≡ 0)
    × (h''.world ≡ 1000056)
    × (h''.mem_total ≡ 0)
    × (h''.chunk_bin ≡ (λ b. []))
    × (h''.brick_bin ≡ (λ b. []))
    × (h''.undes_bin ≡ [])
kl_free-kl_malloc_solo_example =
    kl_free-kl_malloc_solo sys libc 1000000 8 empty 1000056 refl (omega arith) (omega arith)
      (omega arith) refl

no_head : head_block sys 0 empty ≡ none
unfolding head_block
no_head = refl

kl_brick_get_zero_example :
    (h' : Heap ℕ) × (kl_brick_get sys 0 empty ≡ done (some 16) h')
    × (kl_g_count h'.words 8 ≡ 32763)
    × (head_block sys 0 h' ≡ none)
kl_brick_get_zero_example = kl_brick_get_zero sys empty one_block 8 refl no_head new_block

-- The system moves a block of 262200 bytes at 8 to 1000000.
abbrev resize : Resize ℕ
resize = record {
  realloc = λ block n words w. (some 1000000, (λ a. words (8 + (a - 1000000))), w);
  remap = λ block old n words w. (false, words, w);
}

abbrev solo : Heap ℕ
solo = record one_block {
  words = λ a. if a == 8 then 8 else if a == 16 then 262168 else if a == 262184 then 8 else 0;
}

same : (x : ℕ) → 8 + (1000000 + x - 1000000) ≡ 8 + x
same x = omega arith

kl_realloc_grown_example :
    (h' : Heap ℕ) × (kl_realloc sys libc resize 24 300000 solo ≡ done (some 1000016) h')
    × (kl_g_size h'.words 1000008 ≡ 300016)
    × (h'.words (1000008 + 300016 - 8) ≡ 0)
    × ((k : ℕ) → k + 24 ≤ 262168 → h'.words (1000016 + k) ≡ solo.words (24 + k))
    × (h'.mem_total + 262200 ≡ 262144 + 300048)
kl_realloc_grown_example =
    kl_realloc_grown sys libc resize 8 300000 262168 solo 1000000
      (λ a. solo.words (8 + (a - 1000000))) 262152 refl (omega arith) refl (omega arith)
      (omega arith) (omega arith) (omega arith) refl refl refl refl (λ x lt. ap solo.words (same x))
      (omega arith)

-- A chunk of 56 bytes that is in use.
abbrev used_56 : Heap ℕ
used_56 = record empty { words = λ a. if a == 16 then 56 else 0 }

kl_realloc_overlap_example :
    (kl_realloc sys libc resize 24 48 used_56 ≡ done (some 24) used_56)
    × (64 < 72)
    × (kl_isinuse (update used_56.words 64 7) 16 ≡ false)
kl_realloc_overlap_example =
    kl_realloc_overlap sys libc resize 24 48 56 used_56 7 refl (omega arith) (omega arith) refl refl
      refl (omega arith) refl (λ e. omega (arith, e))

-- A block of bricks of 16 bytes: the one at 32 is in use, the one at 16 has been, and the others have not.
abbrev brick_words : ℕ → ℕ
brick_words a =
    if a == 8
    then 72057594037927938
    else if a == 16
    then 9
    else if a == 24
    then 48
    else if a == 32
    then 9
    else if a == 262128
    then 16
    else 0

abbrev bricks : Heap ℕ
bricks = record one_block { words = brick_words; brick_bin = λ b. if b == 1 then 8 ∷ [] else [] }

bricks-IsBrickBlock : IsBrickBlock bricks 1 8 (16 ∷ 48 ∷ [])
bricks-IsBrickBlock = record {
  even = refl;
  some_bytes = omega arith;
  small = omega arith;
  few = omega arith;
  header = refl;
  chain = (
    refl,
    omega arith,
    omega arith,
    (inl (omega arith), tt),
    inl (refl, (refl, omega arith, omega arith, tt, inr (refl, tt))),
  );
}

not_listed : is_listed 8 [] ≡ false
unfolding is_listed
not_listed = refl

kl_free-kl_malloc_brick_example :
    (h' : Heap ℕ) × (h'' : Heap ℕ) × (kl_malloc sys libc 8 bricks ≡ done (some 24) h')
    × IsHandedOut bricks 1 8 16 (48 ∷ []) [] h'
    × (kl_free sys libc 24 h' ≡ done tt h'')
    × IsBrickBlock h'' 1 8 (16 ∷ 48 ∷ [])
    × (h''.brick_bin 1 ≡ 8 ∷ [])
kl_free-kl_malloc_brick_example =
    kl_free-kl_malloc_brick sys libc 8 8 16 (48 ∷ []) [] bricks (omega arith) (omega arith)
      bricks-IsBrickBlock refl refl not_listed (λ e. omega (arith, e))
