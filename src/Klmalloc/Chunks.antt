-- ===== src/Klmalloc/Chunks.antt =====
-- Free chunks of src/klmalloc/klmalloc.c: where they are put, and whether what is taken is large enough.
use sbma.Common.{
  ℕ, ◌+◌, ◌-◌, ◌≤◌, ◌<◌, ◌≡◌, refl, ap, true, false, leb, ltb, some, arith, inl, inr, Bool-cases,
}
use sbma.Klmalloc.{kl_size2bin, kl_bin2size, shift, placed, put_bin, del_bin}
use sbma.Klmalloc.Sizes.{largest, kl_bin2size_lem, largest_mono, positive}
use sbma.Klmalloc.Bins.{IsFirst, kl_size2bin-IsFirst}

-- The bin of a chunk is the last one whose size the chunk has.
pub record IsLast (n b : ℕ) : Type 0 where
  pub small : b < 1532
  pub has : largest b ≤ n
  pub last : n < largest (b + 1)

put_bin_lem :
    (n x y : ℕ)
    → 32 ≤ n
    → kl_size2bin n < 1532
    → kl_bin2size (kl_size2bin n) ≡ some x
    → kl_bin2size (shift n (kl_size2bin n) x) ≡ some y
    → y ≤ n
    → put_bin n ≡ placed (shift n (kl_size2bin n) x)
unfolding put_bin
put_bin_lem n x y low small e e' fits = rw (large, is_small, e, e', le) refl
  where
    large : leb 32 n ≡ true
    large = ground arith

    is_small : ltb (kl_size2bin n) 1532 ≡ true
    is_small = ground arith

    le : leb y n ≡ true
    le = ground arith

del_bin_lem :
    (n x : ℕ)
    → 32 ≤ n
    → kl_bin2size (kl_size2bin n) ≡ some x
    → del_bin n ≡ placed (shift n (kl_size2bin n) x)
unfolding del_bin
del_bin_lem n x low e = rw (large, e) refl
  where
    large : leb 32 n ≡ true
    large = ground arith

-- A chunk of at least CHUNK_MIN_SIZE and less than 1 MiB is put into the last bin whose size it has, and is
-- later removed from that same bin; no assertion fails.
pub put_bin-IsLast :
    (n : ℕ)
    → 32 ≤ n
    → n < 1048576
    → (b : ℕ) × (put_bin n ≡ placed b) × (del_bin n ≡ placed b) × IsLast n b
put_bin-IsLast n low high = elim (Bool-cases (ltb n (largest b))) [
  | inl e ↦ (
    b - 1,
    rw (down e) at (
        put_bin_lem n (largest b) (largest (b - 1)) low first.small exact
          (rw (down e) (kl_bin2size_lem (b - 1) (omega (arith, first.small))))
          (omega (arith, first.tight (b - 1) (omega (arith, some_bin))))),
    rw (down e) at (del_bin_lem n (largest b) low exact),
    record {
      small = omega (arith, first.small);
      has = omega (arith, first.tight (b - 1) (omega (arith, some_bin)));
      last = ground (arith, ap largest back);
    },
  )
  | inr e ↦ (
    b,
    rw (same e) at (
        put_bin_lem n (largest b) (largest b) low first.small exact (rw (same e) exact)
          (ground arith)),
    rw (same e) at (del_bin_lem n (largest b) low exact),
    record {
      small = first.small;
      has = ground arith;
      last = omega (arith, first.enough, largest_mono b (b + 1) (omega arith));
    },
  )
]
  where
    b : ℕ
    b = kl_size2bin n

    first : IsFirst n b
    first = kl_size2bin-IsFirst n (omega arith) (omega arith)

    exact : kl_bin2size b ≡ some (largest b)
    exact = kl_bin2size_lem b first.small

    some_bin : 0 < b
    some_bin = positive b (omega (arith, first.enough))

    back : b - 1 + 1 ≡ b
    back = omega (arith, some_bin)

    same : ltb n (largest b) ≡ false → shift n b (largest b) ≡ b
    same e = ground arith

    down : ltb n (largest b) ≡ true → shift n b (largest b) ≡ b - 1
    down e = ground (arith, some_bin)
