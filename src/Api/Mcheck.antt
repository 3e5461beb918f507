-- ===== src/Api/Mcheck.antt =====
-- src/api/mcheck.c: the check that the counters of the entries, and of the node, are consistent.
use sbma.Common.{
  ℕ, zero, suc, ◌+◌, ◌/◌, ◌≡◌, Bool, true, false, ◌&&◌, Option, none, some, if◌then◌else◌, ◌==◌,
  bit, count, List, [], ◌∷◌, arith, inl, inr, Bool-cases, not, count_congr, ◌↔◌, Option-cases,
}
use sbma.Mmu.{Flags, Ate, is_resident, is_charged, is_dirty}
use sbma.Ipc.{Ipc}
use sbma.Api.{less, vmm_to_sys}

-- The loop over the pages from `i` on, with `l`, `c` and `d`.
pub tally : ℕ → ℕ → (ℕ → Flags) → ℕ → ℕ → ℕ → ℕ × ℕ × ℕ
tally zero i flags l c d = (l, c, d)
tally (suc k) i flags l c d =
    tally k (i + 1) flags (l + bit (is_resident (flags i))) (c + bit (is_charged (flags i)))
      (d + bit (is_dirty (flags i)))

-- What VMM_EXTRA compares.
pub extra_check : Ate → Bool
unfolding tally
extra_check a =
    let (l, c, d) = tally a.n_pages 0 a.flags 0 0 0 in
    (l == a.l_pages) && ((c == a.c_pages) && (d == a.d_pages))

-- `ate_size` is the size of `struct ate`.
module _ (page_size sys_page ate_size : ℕ) (metach : Bool) where
  abbrev pub meta_pages : Ate → ℕ
  meta_pages a =
      if metach then 1 + less ate_size 1 / page_size + (1 + less a.n_pages 1 / page_size) else 0

  -- The loop over the entries; `none` is the early exit.
  pub sum_entries : Bool → List Ate → ℕ → ℕ → Option (ℕ × ℕ)
  unfolding extra_check
  sum_entries extra [] c_pages d_pages = some (c_pages, d_pages)
  sum_entries extra (a ∷ rest) c_pages d_pages =
      let sums =
        sum_entries extra rest (c_pages + (meta_pages a + a.c_pages)) (d_pages + a.d_pages) in
      if extra && not (extra_check a) then none else sums

  -- Whether `sbma_mcheck` returns 0.
  unfoldable pub sbma_mcheck : Bool → Bool → List Ate → Ipc → Bool
  unfolding sum_entries
  sbma_mcheck check extra entries ipc =
      if check
      then elim (sum_entries extra entries 0 0) [
        | none ↦ false
        | some (c_pages, d_pages) ↦
            (vmm_to_sys page_size sys_page c_pages == ipc.c_mem ipc.id)
            && (vmm_to_sys page_size sys_page d_pages == ipc.d_mem ipc.id)
      ]
      else true

-- What the check is to establish of an entry.
pub record HasCounts (a : Ate) : Type 0 where
  pub loaded : count a.n_pages is_resident a.flags ≡ a.l_pages
  pub charged : count a.n_pages is_charged a.flags ≡ a.c_pages
  pub dirtied : count a.n_pages is_dirty a.flags ≡ a.d_pages

-- Counting upwards is counting.
count_front :
    (k i : ℕ) (p : Flags → Bool) (f : ℕ → Flags)
    → count (suc k) p (λ j. f (i + j)) ≡ bit (p (f i)) + count k p (λ j. f (i + 1 + j))
unfolding count
count_front zero i p f = ground arith
count_front (suc k) i p f = ground (arith, count_front k i p f)

tally-count :
    (k i : ℕ) (f : ℕ → Flags) (l c d : ℕ)
    → tally k i f l c d ≡ (
      l + count k is_resident (λ j. f (i + j)),
      c + count k is_charged (λ j. f (i + j)),
      d + count k is_dirty (λ j. f (i + j)),
    )
unfolding tally count
tally-count zero i f l c d = ground arith
tally-count (suc k) i f l c d = ground (
  arith,
  tally-count k (i + 1) f (l + bit (is_resident (f i))) (c + bit (is_charged (f i)))
      (d + bit (is_dirty (f i))),
  count_front k i is_resident f,
  count_front k i is_charged f,
  count_front k i is_dirty f,
)

pub extra_check-HasCounts : (a : Ate) → extra_check a ≡ true → HasCounts a
unfolding extra_check
extra_check-HasCounts a h = record {
  loaded = ground (arith, tally-count a.n_pages 0 a.flags 0 0 0, from_front is_resident);
  charged = ground (arith, tally-count a.n_pages 0 a.flags 0 0 0, from_front is_charged);
  dirtied = ground (arith, tally-count a.n_pages 0 a.flags 0 0 0, from_front is_dirty);
}
  where
    from_front :
        (p : Flags → Bool) → count a.n_pages p (λ j. a.flags (0 + j)) ≡ count a.n_pages p a.flags
    from_front p = count_congr a.n_pages p (λ j. a.flags (0 + j)) a.flags (λ j l. ground arith)

pub HasCounts-extra_check : (a : Ate) → HasCounts a → extra_check a ≡ true
unfolding extra_check
HasCounts-extra_check a counts = ground (
  arith,
  tally-count a.n_pages 0 a.flags 0 0 0,
  from_front is_resident,
  from_front is_charged,
  from_front is_dirty,
  counts.loaded,
  counts.charged,
  counts.dirtied,
)
  where
    from_front :
        (p : Flags → Bool) → count a.n_pages p (λ j. a.flags (0 + j)) ≡ count a.n_pages p a.flags
    from_front p = count_congr a.n_pages p (λ j. a.flags (0 + j)) a.flags (λ j l. ground arith)

pub data AllCounted : List Ate → Type 0 where
  no_entry : AllCounted []
  an_entry : {a : Ate} {rest : List Ate} → HasCounts a → AllCounted rest → AllCounted (a ∷ rest)

-- The sums over the entries.
pub total : (Ate → ℕ) → List Ate → ℕ
total f [] = 0
total f (a ∷ rest) = f a + total f rest

module _ (page_size sys_page ate_size : ℕ) (metach : Bool) where
  sum_entries-AllCounted :
      (entries : List Ate) (c d c' d' : ℕ)
      → sum_entries page_size sys_page ate_size metach true entries c d ≡ some (c', d')
      → AllCounted entries
        × (c'
            ≡ c + total (λ a. meta_pages page_size sys_page ate_size metach a + a.c_pages) entries)
        × (d' ≡ d + total (λ a. a.d_pages) entries)
  unfolding sum_entries total
  sum_entries-AllCounted [] c d c' d' e = (no_entry, ground arith, ground arith)
  sum_entries-AllCounted (a ∷ rest) c d c' d' e = elim (Bool-cases (extra_check a)) [
    | inr ill ↦ absurd (ground (arith, ill))
    | inl well ↦
        let (all, ec, ed) =
          sum_entries-AllCounted rest
            (c + (meta_pages page_size sys_page ate_size metach a + a.c_pages)) (d + a.d_pages) c'
            d' (ground (arith, well, e)) in
        (an_entry (extra_check-HasCounts a well) all, omega (arith, ec), omega (arith, ed))
  ]

  AllCounted-sum_entries :
      (entries : List Ate) (c d : ℕ)
      → AllCounted entries
      → sum_entries page_size sys_page ate_size metach true entries c d
        ≡ some (
          c + total (λ a. meta_pages page_size sys_page ate_size metach a + a.c_pages) entries,
          d + total (λ a. a.d_pages) entries,
        )
  unfolding sum_entries total
  AllCounted-sum_entries [] c d no_entry = ground arith
  AllCounted-sum_entries (a ∷ rest) c d (an_entry well all) = ground (
    arith,
    HasCounts-extra_check a well,
    AllCounted-sum_entries rest (c + (meta_pages page_size sys_page ate_size metach a + a.c_pages))
        (d + a.d_pages) all,
  )

  -- With VMM_CHECK and VMM_EXTRA, `sbma_mcheck` returns 0 exactly if the counters of every entry are the
  -- numbers of its resident, charged and dirty pages, and the sums over the entries, with the
  -- metadata under VMM_METACH, are what the process has charged and dirtied at the node.
  pub sbma_mcheck_iff :
      (entries : List Ate) (ipc : Ipc)
      → (sbma_mcheck page_size sys_page ate_size metach true true entries ipc ≡ true) ↔ (
          AllCounted entries
          × (vmm_to_sys page_size sys_page
                (total (λ a. meta_pages page_size sys_page ate_size metach a + a.c_pages) entries)
              ≡ ipc.c_mem ipc.id)
          × (vmm_to_sys page_size sys_page (total (λ a. a.d_pages) entries) ≡ ipc.d_mem ipc.id))
  unfolding sbma_mcheck
  sbma_mcheck_iff entries ipc = (
    (λ h. elim (Option-cases (sum_entries page_size sys_page ate_size metach true entries 0 0)) [
      | inl e ↦ absurd (ground (arith, e, h))
      | inr ((c, d), e) ↦
          let (all, ec, ed) = sum_entries-AllCounted entries 0 0 c d e in
          (all, ground (arith, e, h, ec), ground (arith, e, h, ed))
    ]),
    λ (all, ec, ed). ground (arith, AllCounted-sum_entries entries 0 0 all, ec, ed),
  )
