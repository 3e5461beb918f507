-- ===== src/Mmu/Table/Examples.antt =====
-- A table of two entries.
use sbma.Common.{ℕ, ◌≡◌, refl, Option, none, some, arith, if◌then◌else◌, ◌==◌}
use sbma.Mmu.Table.{Table, mmu_insert_ate, mmu_invalidate_ate, mmu_lookup_ate}
use sbma.Mmu.Table.Order.{
  Links, in_front, without, FirstFrom, mmu_insert_ate-Links, mmu_invalidate_ate-Links,
  mmu_lookup_ate-FirstFrom,
}

-- The entry 7 stands before the entry 5.
abbrev two_entries : Table
two_entries = record {
  page_size = 16;
  a_tbl = some 7;
  n_pages = λ x. 2;
  base = λ x. if x == 5 then 64 else 160;
  prev = λ x. if x == 5 then some 7 else none;
  next = λ x. if x == 7 then some 5 else none;
}

abbrev order : ℕ → ℕ
order i = if i == 0 then 7 else 5

two_entries-Links : Links two_entries 2 order
two_entries-Links = record {
  distinct = λ i j hi hj e. ground arith;
  head = refl;
  next = λ i h. ground arith;
  prev = λ i h. ground arith;
}

looked_up : mmu_lookup_ate 3 two_entries 95 ≡ some (some 5)
unfolding mmu_lookup_ate
looked_up = refl

not_found : mmu_lookup_ate 3 two_entries 96 ≡ some none
unfolding mmu_lookup_ate
not_found = refl

mmu_insert_ate-Links_example : Links (mmu_insert_ate 9 two_entries) 3 (in_front 9 order)
mmu_insert_ate-Links_example =
    mmu_insert_ate-Links 9 two_entries 2 order two_entries-Links (λ i h. ground arith)

mmu_invalidate_ate-Links_example : Links (mmu_invalidate_ate 7 two_entries) 1 (without 0 order)
mmu_invalidate_ate-Links_example =
    mmu_invalidate_ate-Links 0 two_entries 2 order two_entries-Links (omega arith)

mmu_lookup_ate-FirstFrom_example :
    (found : Option ℕ) × (mmu_lookup_ate 3 two_entries 70 ≡ some found)
    × FirstFrom two_entries 2 order 70 0 found
mmu_lookup_ate-FirstFrom_example =
    mmu_lookup_ate-FirstFrom two_entries 2 order two_entries-Links 70 3 (omega arith)
