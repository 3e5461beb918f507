-- ===== src/Klmalloc/Heap/Lists.antt =====
-- The lists of free chunks of src/klmalloc/klmalloc.c: how often they hold a chunk.
use sbma.Common.{
  ℕ, ◌+◌, ◌-◌, ◌%◌, ◌≤◌, ◌<◌, ◌≡◌, refl, ◌&&◌, if◌then◌else◌, ◌==◌, bit, update, List, [], ◌∷◌,
  some, arith, inl, inr, Bool-cases, done,
}
use sbma.Klmalloc.Heap.{Heap, unlink, kl_chunk_del, kl_g_size}
use sbma.Klmalloc.Heap.Tiles.{Chunk, class, del_bin-class}

-- How often a list has an address.
unfoldable pub occurs : ℕ → List ℕ → ℕ
occurs x [] = 0
occurs x (c ∷ cs) = bit (c == x) + occurs x cs

-- How often the list `b` ought to have the address `x`, of a chunk `t` that stands at `a`.
abbrev pub listed_at : Chunk → ℕ → ℕ → ℕ → ℕ
listed_at t a x b = if t.used then 0 else bit ((a == x) && (class t.size == b))

-- The same of the chunks that end, or start, at `a`.
unfoldable pub listed_before : List Chunk → ℕ → ℕ → ℕ → ℕ
listed_before [] a x b = 0
listed_before (t ∷ ts) a x b = listed_at t (a - t.size) x b + listed_before ts (a - t.size) x b

unfoldable pub listed_after : List Chunk → ℕ → ℕ → ℕ → ℕ
listed_after [] a x b = 0
listed_after (t ∷ ts) a x b = listed_at t a x b + listed_after ts (a + t.size) x b

pub unlink_some :
    (c : ℕ) (xs : List ℕ)
    → 0 < occurs c xs
    → (ys : List ℕ) × (unlink c xs ≡ some ys) × ((x : ℕ) → occurs x xs ≡ occurs x ys + bit (c == x))
unfolding unlink occurs
unlink_some c [] pos = absurd (omega arith)
unlink_some c (a ∷ xs) pos = elim (Bool-cases (a == c)) [
  | inl e ↦ (xs, rw e refl, λ x. ground arith)
  | inr e ↦
      let (ys, found, counted) = unlink_some c xs (ground arith) in
      (a ∷ ys, rw (e, found) refl, λ x. omega (arith, counted x))
]

module _ {W : Type 0} where
  -- A free chunk that is listed as its size wants it is taken out of its list.
  pub kl_chunk_del_lem :
      (q n : ℕ) (h : Heap W)
      → h.words q ≡ n
      → 32 ≤ n
      → n % 8 ≡ 0
      → n < 1048576
      → 0 < occurs q (h.chunk_bin (class n))
      → (bins : ℕ → List ℕ) × (kl_chunk_del q h ≡ done tt (record h { chunk_bin = bins }))
        × ((x b : ℕ)
            → occurs x (h.chunk_bin b) ≡ occurs x (bins b) + bit ((q == x) && (class n == b)))
  unfolding kl_chunk_del
  kl_chunk_del_lem q n h e low aligned high pos =
      let (ys, found, counted) = unlink_some q (h.chunk_bin (class n)) pos in
      (
        update h.chunk_bin (class n) ys,
        ground (arith, even, del_bin-class n low high, found),
        λ x b. elim (Bool-cases (b == class n)) [
          | inl same ↦ rw same (ground (arith, counted x))
          | inr other ↦ ground arith
        ],
      )
    where
      even : kl_g_size h.words q ≡ n
      even = ground arith
