-- ===== src/Klmalloc/Search.antt =====
-- The search for a free chunk in src/klmalloc/klmalloc.c.
use sbma.Common.{
  List-cases, ℕ, zero, suc, ◌+◌, ◌≤◌, ◌<◌, ◌≡◌, ◌⊎◌, ap, ◌∙◌, subst, sym, true, false, ◌==◌, ltb,
  List, [], ◌∷◌, arith, inl, inr, Bool-cases,
}
use sbma.Klmalloc.{kl_size2bin, Placed, placed, dropped, refused, put_bin, Bins, first_bin}
use sbma.Klmalloc.Sizes.{largest, largest_mono}
use sbma.Klmalloc.Bins.{kl_size2bin-IsFirst}
use sbma.Klmalloc.Chunks.{IsLast, put_bin-IsLast}

module _ (bins : Bins) where
  first_bin_next :
      (fuel b : ℕ)
      → bins b ≡ []
      → b < 1532
      → first_bin bins (suc fuel) b ≡ first_bin bins fuel (b + 1)
  unfolding first_bin
  first_bin_next fuel b e h = ground (arith, e)

  first_bin_end : (fuel b : ℕ) → bins b ≡ [] → 1532 ≤ b → first_bin bins (suc fuel) b ≡ b
  unfolding first_bin
  first_bin_end fuel b e h = ground (arith, e)

  first_bin_here :
      (fuel b n : ℕ) (rest : List ℕ) → bins b ≡ n ∷ rest → first_bin bins (suc fuel) b ≡ b
  unfolding first_bin
  first_bin_here fuel b n rest e = ground (arith, e)

  -- The bins from `b` to `r` are empty, and `r` is not unless it is the end.
  pub record IsFound (b r : ℕ) : Type 0 where
    pub empty : (c : ℕ) → b ≤ c → c < r → bins c ≡ []
    pub le : b ≤ r
    pub found : (1532 ≤ r) ⊎ ((n : ℕ) × (rest : List ℕ) × (bins r ≡ n ∷ rest))

  IsFound-next : (b r : ℕ) → bins b ≡ [] → IsFound (b + 1) r → IsFound b r
  IsFound-next b r e found = record {
    empty = λ c ge lt. elim (Bool-cases (c == b)) [
      | inl q ↦ subst (λ x. bins x ≡ []) (eq c q) e
      | inr q ↦ found.empty c (ground arith) lt
    ];
    le = omega (arith, found.le);
    found = found.found;
  }
    where
      eq : (c : ℕ) → (c == b) ≡ true → b ≡ c
      eq c q = ground arith

  pub first_bin-IsFound : (fuel b : ℕ) → 1532 ≤ b + fuel → IsFound b (first_bin bins fuel b)
  unfolding first_bin
  first_bin-IsFound zero b enough = record {
    empty = λ c ge lt. absurd (omega (arith, ge, lt));
    le = omega arith;
    found = inl (omega arith);
  }
  first_bin-IsFound (suc fuel) b enough = elim (List-cases (bins b)) [
    | inr (n, rest, e) ↦ subst (IsFound b) (sym (first_bin_here fuel b n rest e)) (record {
      empty = λ c ge lt. absurd (omega (arith, ge, lt));
      le = omega arith;
      found = inr (n, rest, e);
    })
    | inl e ↦ elim (Bool-cases (ltb b 1532)) [
      | inl h ↦ subst (IsFound b) (sym (first_bin_next fuel b e (ground arith))) (
          IsFound-next b (first_bin bins fuel (b + 1)) e
            (first_bin-IsFound fuel (b + 1) (omega arith)))
      | inr h ↦ subst (IsFound b) (sym (first_bin_end fuel b e (ground arith))) (record {
        empty = λ c ge lt. absurd (omega (arith, ge, lt));
        le = omega arith;
        found = inl (ground arith);
      })
    ]
  ]

largest_le : (b c : ℕ) → b ≤ c → largest b ≤ largest c
largest_le b c le = elim (Bool-cases (ltb b c)) [
  | inl e ↦ omega (arith, largest_mono b c (ground arith))
  | inr e ↦ subst (λ x. largest b ≤ largest x) (same e) (omega arith)
]
  where
    same : ltb b c ≡ false → b ≡ c
    same e = ground arith

bin_of : Placed → ℕ
bin_of (placed b) = b
bin_of dropped = 0
bin_of refused = 0

-- What `put_bin-IsLast` says of the bin that is known.
bin-IsLast : (n b : ℕ) → 32 ≤ n → n < 1048576 → put_bin n ≡ placed b → IsLast n b
unfolding bin_of
bin-IsLast n b low high e =
    let (c, e', _, is_last) = put_bin-IsLast n low high in
    subst (IsLast n) (ap bin_of (sym e' ∙ e)) is_last

module _ (want : ℕ) (some_bytes : 0 < want) (small : want ≤ 1048576) where
  -- What stands in a list at or after the wanted bin is large enough.
  pub fits_in :
      (n b : ℕ) → 32 ≤ n → n < 1048576 → put_bin n ≡ placed b → kl_size2bin want ≤ b → want ≤ n
  fits_in n b low high e le = omega (
    arith,
    (kl_size2bin-IsFirst want some_bytes small).enough,
    largest_le (kl_size2bin want) b le,
    (bin-IsLast n b low high e).has,
  )
