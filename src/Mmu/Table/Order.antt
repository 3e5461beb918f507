-- ===== src/Mmu/Table/Order.antt =====
-- The table as a sequence of entries.
use sbma.Common.{
  ℕ, zero, suc, ◌+◌, ◌-◌, ◌≤◌, ◌<◌, ◌≡◌, ◌≢◌, refl, ◌⊎◌, inl, inr, true, false, Option, none, some,
  arith, if◌then◌else◌, ◌==◌, ltb, Bool-cases, subst,
}
use sbma.Mmu.Table.{Table, has_addr, mmu_insert_ate, mmu_invalidate_ate, search, mmu_lookup_ate}

-- The list links the `n` different entries `at 0`, …, `at (n-1)`.
pub record Links (s : Table) (n : ℕ) (at : ℕ → ℕ) : Type 0 where
  pub distinct : (i j : ℕ) → i < n → j < n → at i ≡ at j → i ≡ j
  pub head : s.a_tbl ≡ (if 0 == n then none else some (at 0))
  pub next : (i : ℕ) → i < n → s.next (at i) ≡ (if ltb (i + 1) n then some (at (i + 1)) else none)
  pub prev : (i : ℕ) → i < n → s.prev (at i) ≡ (if 0 == i then none else some (at (i - 1)))

-- The sequence with an entry in front, and without its entry `k`.
abbrev pub in_front : ℕ → (ℕ → ℕ) → ℕ → ℕ
in_front x at i = if 0 == i then x else at (i - 1)

abbrev pub without : ℕ → (ℕ → ℕ) → ℕ → ℕ
without k at i = if ltb i k then at i else at (i + 1)

-- `mmu_insert_ate` of an entry that is not in the table puts it in front of the others, which keep their
-- order.
pub mmu_insert_ate-Links :
    (x : ℕ) (s : Table) (n : ℕ) (at : ℕ → ℕ)
    → Links s n at
    → ((i : ℕ) → i < n → at i ≢ x)
    → Links (mmu_insert_ate x s) (n + 1) (in_front x at)
unfolding mmu_insert_ate
mmu_insert_ate-Links x s n at links fresh = record {
  distinct =
      λ i j hi hj e. ground (arith, links.distinct (i - 1) (j - 1), fresh (i - 1), fresh (j - 1));
  head = ground (arith, links.head);
  next = λ i h. ground (arith, links.head, links.next (i - 1), fresh (i - 1), fresh 0);
  prev = λ i h. ground (
    arith,
    links.head,
    links.prev (i - 1),
    fresh (i - 1),
    fresh 0,
    links.prev 0,
    links.distinct (i - 1) 0,
  );
}

module _ (k : ℕ) (s : Table) (n : ℕ) (at : ℕ → ℕ) (links : Links s n at) (h : k < n) where
  a_tbl_after : (mmu_invalidate_ate (at k) s).a_tbl ≡ (if 0 == k then s.next (at k) else s.a_tbl)
  unfolding mmu_invalidate_ate
  a_tbl_after = ground (arith, links.prev k, links.next k)

  next_after :
      (y : ℕ)
      → (mmu_invalidate_ate (at k) s).next y
        ≡ (if 0 == k then s.next y else (if y == at (k - 1) then s.next (at k) else s.next y))
  unfolding mmu_invalidate_ate
  next_after y = ground (arith, links.prev k, links.next k, links.distinct (k - 1) k)

  prev_after :
      (y : ℕ)
      → (mmu_invalidate_ate (at k) s).prev y ≡ (
          if ltb (k + 1) n then (if y == at (k + 1) then s.prev (at k) else s.prev y) else s.prev y)
  unfolding mmu_invalidate_ate
  prev_after y = ground (arith, links.prev k, links.next k, links.distinct (k - 1) k)

  -- `mmu_invalidate_ate` of the entry `at k` takes it out of the table; the others keep their order.
  pub mmu_invalidate_ate-Links : Links (mmu_invalidate_ate (at k) s) (n - 1) (without k at)
  mmu_invalidate_ate-Links = record {
    distinct = λ i j hi hj e. ground (
      arith,
      links.distinct i j,
      links.distinct (i + 1) j,
      links.distinct i (j + 1),
      links.distinct (i + 1) (j + 1),
    );
    head = ground (arith, a_tbl_after, links.head, links.next k);
    next = λ i hi. ground (
      arith,
      next_after (without k at i),
      links.next i,
      links.next (i + 1),
      links.next k,
      links.distinct i (k - 1),
      links.distinct (i + 1) (k - 1),
    );
    prev = λ i hi. ground (
      arith,
      prev_after (without k at i),
      links.prev i,
      links.prev (i + 1),
      links.prev k,
      links.distinct i (k + 1),
      links.distinct (i + 1) (k + 1),
    );
  }

-- The first entry from `i` on that has the address, or none.
pub FirstFrom : Table → ℕ → (ℕ → ℕ) → ℕ → ℕ → Option ℕ → Type 0
FirstFrom s n at addr i found =
    ((found ≡ none) × ((j : ℕ) → i ≤ j → j < n → has_addr s addr (at j) ≡ false))
    ⊎ ((k : ℕ) × (i ≤ k)
        × (k < n)
        × (found ≡ some (at k))
        × (has_addr s addr (at k) ≡ true)
        × ((j : ℕ) → i ≤ j → j < k → has_addr s addr (at j) ≡ false))

module _ (s : Table) (n : ℕ) (at : ℕ → ℕ) (links : Links s n at) (addr : ℕ) where
  search-FirstFrom :
      (m i fuel : ℕ)
      → i + m ≡ n
      → m < fuel
      → (found : Option ℕ) × (search fuel s addr (if ltb i n then some (at i) else none)
          ≡ some found)
        × FirstFrom s n at addr i found
  unfolding search FirstFrom
  search-FirstFrom m i zero e fueled = absurd (omega arith)
  search-FirstFrom zero i (suc fuel) e fueled =
      (none, ground arith, inl (refl, λ j l h. absurd (omega arith)))
  search-FirstFrom (suc m) i (suc fuel) e fueled = elim (Bool-cases (has_addr s addr (at i))) [
    | inl here ↦ (
      some (at i),
      ground (arith, here),
      inr (i, omega arith, omega arith, refl, here, λ j l h. absurd (omega arith)),
    )
    | inr not_here ↦
        let (found, run, first) = search-FirstFrom m (i + 1) fuel (omega arith) (omega arith) in
        (
          found,
          ground (arith, run, not_here, links.next i),
          elim first [
            | inl (none_found, others) ↦ inl (
              none_found,
              λ j l h. elim (Bool-cases (j == i)) [
                | inl q ↦ subst (λ x. has_addr s addr (at x) ≡ false) (ground arith) not_here
                | inr q ↦ others j (ground arith) h
              ],
            )
            | inr (k, l, h, is, has, others) ↦ inr (
              k,
              omega arith,
              h,
              is,
              has,
              λ j l' h'. elim (Bool-cases (j == i)) [
                | inl q ↦ subst (λ x. has_addr s addr (at x) ≡ false) (ground arith) not_here
                | inr q ↦ others j (ground arith) h'
              ],
            )
          ],
        )
  ]

  -- `mmu_lookup_ate` ends after at most one round more than there are entries. It returns the first entry
  -- of the table whose bytes include the address, and NULL exactly if none does.
  pub mmu_lookup_ate-FirstFrom :
      (fuel : ℕ)
      → n < fuel
      → (found : Option ℕ) × (mmu_lookup_ate fuel s addr ≡ some found)
        × FirstFrom s n at addr 0 found
  unfolding mmu_lookup_ate
  mmu_lookup_ate-FirstFrom fuel fueled =
      let (found, run, first) = search-FirstFrom n 0 fuel (omega arith) fueled in
      (found, ground (arith, run, links.head), first)
