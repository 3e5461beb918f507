-- ===== src/Klmalloc/Kl/Examples.antt =====
-- Heaps with one block, at the address 8.
use sbma.Common.{
  ℕ, ◌+◌, ◌-◌, ◌≡◌, refl, true, if◌then◌else◌, ◌==◌, [], ◌∷◌, update, some, none, arith, done,
}
use sbma.Klmalloc.{kl_size2bin, kl_bin2size, put_bin, placed, Bins, take_chunk, first_bin}
use sbma.Klmalloc.Table.{bin2size}
use sbma.Common.{update}
use sbma.Klmalloc.Heap.{Sys, Heap, on, kl_chunk_put, kl_chunk_size}
use sbma.Klmalloc.Kl.{Libc, kl_malloc, kl_free}
use sbma.Common.{◌≤◌}
use sbma.Klmalloc.Kl.{kl_calloc}
use sbma.Klmalloc.Kl.Zeroed.{kl_calloc-IsGot}
use sbma.Klmalloc.Kl.Served.{kl_free-kl_malloc}
use sbma.Klmalloc.Heap.Tiles.{class, put_bin-class}
use sbma.Klmalloc.Heap.Lists.{occurs, listed_before, listed_after}
use sbma.Klmalloc.Heap.Loose.{gap, back}
use sbma.Klmalloc.Heap.Filed.{IsBlock, free_chunk, used_chunk}
use sbma.Klmalloc.Heap.Put.{IsCoalesced, IsFreed, kl_chunk_put-IsFreed}
use sbma.Klmalloc.Heap.Get.{IsGot}

-- A system whose blocks follow one another.
abbrev pub sys : Sys ℕ
sys = record { alloc = λ n w. (some w, w + n); free = λ block n w. w }

-- A chunk of 120 bytes that is in use, and behind it one of 261992 bytes that is free.
abbrev two_words : ℕ → ℕ
two_words a =
    if a == 8
    then 8
    else if a == 16
    then 120
    else if a == 136
    then 261992
    else if a == 262120
    then 261992
    else if a == 262128
    then 8
    else 0

abbrev two_bins : Bins
two_bins b = if b == 762 then 136 ∷ [] else []

abbrev two : Heap ℕ
two = record {
  init = true;
  enabled = on;
  words = two_words;
  chunk_bin = two_bins;
  brick_bin = λ b. [];
  undes_bin = [];
  mem_total = 262144;
  mem_max = 262144;
  sys_ctr = 1;
  world = 262152;
}

put_rest : put_bin 261992 ≡ placed 762
unfolding put_bin kl_size2bin kl_bin2size bin2size
put_rest = refl

class_rest : class 261992 ≡ 762
class_rest = cc (put_bin-class 261992 (omega arith) (omega arith), put_rest)

-- How often the lists have an address.
two_listed : (x b : ℕ) → occurs x (two_bins b) ≡ listed_after (free_chunk 261992 ∷ []) 136 x b
unfolding occurs listed_after
two_listed x b = ground (arith, class_rest)

-- The block, seen from the chunk in use.
seen_first : IsBlock 16 262128 two [] 16 (used_chunk 120) (free_chunk 261992 ∷ [])
unfolding listed_before
seen_first = record {
  base = omega arith;
  fits = refl;
  header = refl;
  footer = refl;
  before = refl;
  chunk = record { large = omega arith; aligned = refl; header = refl; footer = refl };
  after = (
    omega arith,
    record { large = omega arith; aligned = refl; header = refl; footer = refl },
    refl,
  );
  listed = λ x b low high. ground (arith, two_listed x b);
}

kl_chunk_put-IsFreed_example :
    (h' : Heap ℕ) × (kl_chunk_put sys 16 two ≡ done tt h')
    × IsFreed sys 16 262128 two
        (back [])
        (16 - gap [])
        (gap [] + 120 + gap (free_chunk 261992 ∷ []))
        (back (free_chunk 261992 ∷ []))
        h'
    × IsCoalesced
        (back [])
        (free_chunk (gap [] + 120 + gap (free_chunk 261992 ∷ [])))
        (back (free_chunk 261992 ∷ []))
kl_chunk_put-IsFreed_example =
    kl_chunk_put-IsFreed sys 16 262128 two [] 16 120 (free_chunk 261992 ∷ []) seen_first
      (tt, ((λ e. tt), tt), λ e. cc)

-- The block, seen from the free chunk.
seen_second : IsBlock 16 262128 two (used_chunk 120 ∷ []) 136 (free_chunk 261992) []
unfolding listed_before listed_after
seen_second = record {
  base = omega arith;
  fits = refl;
  header = refl;
  footer = refl;
  before = (
    omega arith,
    record { large = omega arith; aligned = refl; header = refl; footer = refl },
    refl,
  );
  chunk = record { large = omega arith; aligned = refl; header = refl; footer = refl };
  after = refl;
  listed = λ x b low high. ground (arith, two_listed x b);
}

second_apart : IsCoalesced (used_chunk 120 ∷ []) (free_chunk 261992) []
second_apart = (((λ e. tt), tt), tt, λ e. (refl, tt))

found_two : take_chunk (kl_chunk_size 100) two_bins ≡ some (136, update two_bins 762 [])
unfolding take_chunk first_bin kl_size2bin
found_two = refl

-- A C library that has no memory.
abbrev pub libc : Libc ℕ
libc = record {
  malloc = λ n w. (none, w);
  calloc = λ k n w. (none, w);
  realloc = λ p n w. (none, w);
  free = λ p w. w;
}

kl_free-kl_malloc_example :
    (h' : Heap ℕ) × (h'' : Heap ℕ) × (kl_malloc sys libc 100 two ≡ done (some 144) h')
    × IsGot 16 262128 120 two (used_chunk 120 ∷ []) 136 261992 [] h'
    × (kl_free sys libc 144 h' ≡ done tt h'')
    × IsFreed sys 16 262128 h' (used_chunk 120 ∷ []) 136 261992 [] h''
kl_free-kl_malloc_example =
    kl_free-kl_malloc sys libc 100 (omega arith) (omega arith) 16 262128 two (used_chunk 120 ∷ [])
      136 261992 [] (update two_bins 762 []) refl seen_second second_apart found_two

kl_calloc-IsGot_example :
    (h' : Heap ℕ) × (kl_calloc sys libc 10 10 two ≡ done (some 144) h')
    × IsGot 16 262128 120 two (used_chunk 120 ∷ []) 136 261992 [] h'
    × ((a : ℕ) → 144 ≤ a → a + 8 ≤ 244 → h'.words a ≡ 0)
kl_calloc-IsGot_example =
    kl_calloc-IsGot sys libc 10 10 (omega arith) (omega arith) 16 262128 two (used_chunk 120 ∷ [])
      136 261992 [] (update two_bins 762 []) refl seen_second second_apart found_two
