-- ===== src/Klmalloc/Bins.antt =====
-- The bins of src/klmalloc/klmalloc.c: which sizes each of them is for.
use sbma.Common.{
  ℕ, ◌+◌, ◌-◌, ◌/◌, ◌≤◌, ◌<◌, ◌≡◌, refl, true, leb, some, arith, inl, inr, Bool-cases,
}
use sbma.Klmalloc.{kl_size2bin, kl_bin2size}
use sbma.Klmalloc.Log2.{kllog2_lem}
use sbma.Klmalloc.Sizes.{largest, kl_bin2size_lem}

-- Bin `b` is the first that is large enough for `s`. `largest` is the size of a bin by a formula.
pub record IsFirst (s b : ℕ) : Type 0 where
  pub small : b < 1532
  pub size : kl_bin2size b ≡ some (largest b)
  pub enough : s ≤ largest b
  pub tight : (c : ℕ) → c < b → largest c < s

make-IsFirst :
    (s b : ℕ) → b < 1532 → s ≤ largest b → ((c : ℕ) → c < b → largest c < s) → IsFirst s b
make-IsFirst s b small enough tight = record {
  small = small;
  size = kl_bin2size_lem b small;
  enough = enough;
  tight = tight;
}

bin_8 : (s : ℕ) → s ≤ 64 → kl_size2bin s ≡ (s - 1) / 8
unfolding kl_size2bin
bin_8 s high = rw small refl
  where
    small : leb s 64 ≡ true
    small = ground arith

IsFirst-8 : (s : ℕ) → 0 < s → s ≤ 64 → IsFirst s (kl_size2bin s)
unfolding largest
IsFirst-8 s low high =
    make-IsFirst s (kl_size2bin s) (ground (arith, bin_8 s high)) (ground (arith, bin_8 s high))
      (λ c h. ground (arith, bin_8 s high))

bin_16 : (s : ℕ) → 64 < s → s ≤ 256 → kl_size2bin s ≡ 8 + (s - 65) / 16
unfolding kl_size2bin
bin_16 s low high = elim (Bool-cases (leb s 128)) [
  | inl e ↦ rw (kllog2_lem 6 (s - 1) (omega arith) (omega arith) (ground arith)) (ground arith)
  | inr e ↦ rw (kllog2_lem 7 (s - 1) (omega arith) (ground arith) (omega arith)) (ground arith)
]

IsFirst-16 : (s : ℕ) → 64 < s → s ≤ 256 → IsFirst s (kl_size2bin s)
unfolding largest
IsFirst-16 s low high =
    make-IsFirst s (kl_size2bin s) (ground (arith, bin_16 s low high))
      (ground (arith, bin_16 s low high)) (λ c h. ground (arith, bin_16 s low high))

bin_32 : (s : ℕ) → 256 < s → s ≤ 1024 → kl_size2bin s ≡ 20 + (s - 257) / 32
unfolding kl_size2bin
bin_32 s low high = elim (Bool-cases (leb s 512)) [
  | inl e ↦ rw (kllog2_lem 8 (s - 1) (omega arith) (omega arith) (ground arith)) (ground arith)
  | inr e ↦ rw (kllog2_lem 9 (s - 1) (omega arith) (ground arith) (omega arith)) (ground arith)
]

IsFirst-32 : (s : ℕ) → 256 < s → s ≤ 1024 → IsFirst s (kl_size2bin s)
unfolding largest
IsFirst-32 s low high =
    make-IsFirst s (kl_size2bin s) (ground (arith, bin_32 s low high))
      (ground (arith, bin_32 s low high)) (λ c h. ground (arith, bin_32 s low high))

bin_64 : (s : ℕ) → 1024 < s → s ≤ 4096 → kl_size2bin s ≡ 44 + (s - 1025) / 64
unfolding kl_size2bin
bin_64 s low high = elim (Bool-cases (leb s 2048)) [
  | inl e ↦ rw (kllog2_lem 10 (s - 1) (omega arith) (omega arith) (ground arith)) (ground arith)
  | inr e ↦ rw (kllog2_lem 11 (s - 1) (omega arith) (ground arith) (omega arith)) (ground arith)
]

IsFirst-64 : (s : ℕ) → 1024 < s → s ≤ 4096 → IsFirst s (kl_size2bin s)
unfolding largest
IsFirst-64 s low high =
    make-IsFirst s (kl_size2bin s) (ground (arith, bin_64 s low high))
      (ground (arith, bin_64 s low high)) (λ c h. ground (arith, bin_64 s low high))

bin_128 : (s : ℕ) → 4096 < s → s ≤ 16384 → kl_size2bin s ≡ 92 + (s - 4097) / 128
unfolding kl_size2bin
bin_128 s low high = elim (Bool-cases (leb s 8192)) [
  | inl e ↦ rw (kllog2_lem 12 (s - 1) (omega arith) (omega arith) (ground arith)) (ground arith)
  | inr e ↦ rw (kllog2_lem 13 (s - 1) (omega arith) (ground arith) (omega arith)) (ground arith)
]

IsFirst-128 : (s : ℕ) → 4096 < s → s ≤ 16384 → IsFirst s (kl_size2bin s)
unfolding largest
IsFirst-128 s low high =
    make-IsFirst s (kl_size2bin s) (ground (arith, bin_128 s low high))
      (ground (arith, bin_128 s low high)) (λ c h. ground (arith, bin_128 s low high))

bin_256 : (s : ℕ) → 16384 < s → s ≤ 65536 → kl_size2bin s ≡ 188 + (s - 16385) / 256
unfolding kl_size2bin
bin_256 s low high = elim (Bool-cases (leb s 32768)) [
  | inl e ↦ rw (kllog2_lem 14 (s - 1) (omega arith) (omega arith) (ground arith)) (ground arith)
  | inr e ↦ rw (kllog2_lem 15 (s - 1) (omega arith) (ground arith) (omega arith)) (ground arith)
]

IsFirst-256 : (s : ℕ) → 16384 < s → s ≤ 65536 → IsFirst s (kl_size2bin s)
unfolding largest
IsFirst-256 s low high =
    make-IsFirst s (kl_size2bin s) (ground (arith, bin_256 s low high))
      (ground (arith, bin_256 s low high)) (λ c h. ground (arith, bin_256 s low high))

bin_512 : (s : ℕ) → 65536 < s → s ≤ 262144 → kl_size2bin s ≡ 380 + (s - 65537) / 512
unfolding kl_size2bin
bin_512 s low high = elim (Bool-cases (leb s 131072)) [
  | inl e ↦ rw (kllog2_lem 16 (s - 1) (omega arith) (omega arith) (ground arith)) (ground arith)
  | inr e ↦ rw (kllog2_lem 17 (s - 1) (omega arith) (ground arith) (omega arith)) (ground arith)
]

IsFirst-512 : (s : ℕ) → 65536 < s → s ≤ 262144 → IsFirst s (kl_size2bin s)
unfolding largest
IsFirst-512 s low high =
    make-IsFirst s (kl_size2bin s) (ground (arith, bin_512 s low high))
      (ground (arith, bin_512 s low high)) (λ c h. ground (arith, bin_512 s low high))

bin_1024 : (s : ℕ) → 262144 < s → s ≤ 1048576 → kl_size2bin s ≡ 764 + (s - 262145) / 1024
unfolding kl_size2bin
bin_1024 s low high = elim (Bool-cases (leb s 524288)) [
  | inl e ↦ rw (kllog2_lem 18 (s - 1) (omega arith) (omega arith) (ground arith)) (ground arith)
  | inr e ↦ rw (kllog2_lem 19 (s - 1) (omega arith) (ground arith) (omega arith)) (ground arith)
]

IsFirst-1024 : (s : ℕ) → 262144 < s → s ≤ 1048576 → IsFirst s (kl_size2bin s)
unfolding largest
IsFirst-1024 s low high =
    make-IsFirst s (kl_size2bin s) (ground (arith, bin_1024 s low high))
      (ground (arith, bin_1024 s low high)) (λ c h. ground (arith, bin_1024 s low high))

-- A size of at most 1 MiB falls into the first bin that is large enough for it.
pub kl_size2bin-IsFirst : (s : ℕ) → 0 < s → s ≤ 1048576 → IsFirst s (kl_size2bin s)
kl_size2bin-IsFirst s low high = elim (Bool-cases (leb s 64)) [
  | inl e8 ↦ IsFirst-8 s low (ground arith)
  | inr e8 ↦ elim (Bool-cases (leb s 256)) [
    | inl e16 ↦ IsFirst-16 s (ground arith) (ground arith)
    | inr e16 ↦ elim (Bool-cases (leb s 1024)) [
      | inl e32 ↦ IsFirst-32 s (ground arith) (ground arith)
      | inr e32 ↦ elim (Bool-cases (leb s 4096)) [
        | inl e64 ↦ IsFirst-64 s (ground arith) (ground arith)
        | inr e64 ↦ elim (Bool-cases (leb s 16384)) [
          | inl e128 ↦ IsFirst-128 s (ground arith) (ground arith)
          | inr e128 ↦ elim (Bool-cases (leb s 65536)) [
            | inl e256 ↦ IsFirst-256 s (ground arith) (ground arith)
            | inr e256 ↦ elim (Bool-cases (leb s 262144)) [
              | inl e512 ↦ IsFirst-512 s (ground arith) (ground arith)
              | inr e512 ↦ IsFirst-1024 s (ground arith) high
            ]
          ]
        ]
      ]
    ]
  ]
]
