-- ===== src/Klmalloc/Sizes.antt =====
-- The sizes of the bins of src/klmalloc/klmalloc.c.
use sbma.Common.{
  ℕ, zero, suc, ◌+◌, ◌-◌, ◌*◌, ◌<◌, ◌≡◌, refl, Bool, true, ◌&&◌, if◌then◌else◌, ◌==◌, ltb, List, [],
  ◌∷◌, some, arith,
}
use sbma.Klmalloc.Table.{bin2size}
use sbma.Klmalloc.{entry, kl_bin2size}

-- The bins grow by 8 bytes up to 64, by 16 up to 256, by 32 up to 1024, and so on up to 1 MiB.
unfoldable pub largest : ℕ → ℕ
largest b =
    if ltb b 8
    then (b + 1) * 8
    else if ltb b 20
    then 64 + (b - 7) * 16
    else if ltb b 44
    then 256 + (b - 19) * 32
    else if ltb b 92
    then 1024 + (b - 43) * 64
    else if ltb b 188
    then 4096 + (b - 91) * 128
    else if ltb b 380
    then 16384 + (b - 187) * 256
    else if ltb b 764
    then 65536 + (b - 379) * 512
    else 262144 + (b - 763) * 1024

-- The entries from `b` on are as `p` wants them.
agree : (ℕ → ℕ → Bool) → List ℕ → ℕ → Bool
agree p [] b = true
agree p (x ∷ xs) b = p x b && agree p xs (b + 1)

size : List ℕ → ℕ
size [] = 0
size (x ∷ xs) = suc (size xs)

agree-entry :
    (p : ℕ → ℕ → Bool) (xs : List ℕ) (b i : ℕ)
    → agree p xs b ≡ true
    → i < size xs
    → p (entry xs i) (b + i) ≡ true
unfolding agree size entry
agree-entry p [] b i all h = absurd (omega arith)
agree-entry p (x ∷ xs) b zero all h = ground arith
agree-entry p (x ∷ xs) b (suc i) all h =
    ground (arith, agree-entry p xs (b + 1) i (ground arith) (omega arith))

size-bin2size : size bin2size ≡ 1532
unfolding size bin2size
size-bin2size = refl

bin2size-largest : agree (λ x b. x == largest b) bin2size 0 ≡ true
unfolding agree bin2size largest
bin2size-largest = refl

pub kl_bin2size_lem : (b : ℕ) → b < 1532 → kl_bin2size b ≡ some (largest b)
unfolding kl_bin2size
kl_bin2size_lem b h = ground (
  arith,
  agree-entry (λ x b. x == largest b) bin2size 0 b bin2size-largest (omega (arith, size-bin2size)),
)

pub positive : (b : ℕ) → 8 < largest b → 0 < b
unfolding largest
positive zero h = absurd (omega (arith, h))
positive (suc b) h = omega arith

pub largest_mono : (b c : ℕ) → b < c → largest b < largest c
unfolding largest
largest_mono b c h = ground arith
