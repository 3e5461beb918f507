-- ===== src/Ipc/Madmit/Candidate/Best.antt =====
-- The search for a candidate, as a whole.
use sbma.Common.{
  ℕ, zero, suc, ◌<◌, ◌≡◌, refl, Bool, true, false, arith, ◌==◌, inl, inr, Option, none, some,
  Bool-cases, ◌⊎◌, subst,
}
use sbma.Ipc.{Ipc}
use sbma.Ipc.Madmit.{Choice, is_better, consider, find_candidate}
use sbma.Ipc.Madmit.Candidate.{is_candidate, Beats, IsBest}
use sbma.Ipc.Madmit.Candidate.Choose.{
  skipped, refused, taken, keep_none, keep_some, none_refused, some_refused, none_taken,
  some_taken_pos, some_taken, itself, beaten,
}

module _ (ipc : Ipc) (need : ℕ) (admitd : Bool) (pos : 0 < need) where
  abbrev Chosen : ℕ → Choice → Type 0
  Chosen n c = IsBest ipc need admitd n c.ii c.mx_c_mem c.mx_d_mem

  keep :
      (n : ℕ) (ii : Option ℕ) (mx_c mx_d : ℕ)
      → IsBest ipc need admitd n ii mx_c mx_d
      → (is_candidate ipc n ≡ false)
        ⊎ (is_better ipc need admitd n (record { ii = ii; mx_c_mem = mx_c; mx_d_mem = mx_d })
            ≡ false)
      → IsBest ipc need admitd (suc n) ii mx_c mx_d
  keep n none mx_c mx_d best (inl e) =
      keep_none ipc need admitd pos n mx_c mx_d best (λ c. absurd (cc (e, c)))
  keep n none mx_c mx_d (z, h) (inr e) =
      keep_none ipc need admitd pos n mx_c mx_d (z, h)
        (λ c. none_refused ipc need admitd pos n mx_d (
          subst
            (λ m.
              is_better ipc need admitd n (record { ii = none; mx_c_mem = m; mx_d_mem = mx_d })
              ≡ false)
            z e))
  keep n (some i) mx_c mx_d best (inl e) =
      keep_some ipc need admitd pos n i mx_c mx_d best (λ c. absurd (cc (e, c)))
  keep n (some i) mx_c mx_d (l, c, ec, ed, p, h) (inr e) =
      keep_some ipc need admitd pos n i mx_c mx_d (l, c, ec, ed, p, h)
        (λ c'. some_refused ipc need admitd pos n i (
          subst
            (λ m.
              is_better ipc need admitd n
                (record { ii = some i; mx_c_mem = m; mx_d_mem = ipc.d_mem i })
              ≡ false)
            ec
            (subst
              (λ m.
                is_better ipc need admitd n (record { ii = some i; mx_c_mem = mx_c; mx_d_mem = m })
                ≡ false)
              ed e)))

  take :
      (n : ℕ) (ii : Option ℕ) (mx_c mx_d : ℕ)
      → IsBest ipc need admitd n ii mx_c mx_d
      → is_candidate ipc n ≡ true
      → is_better ipc need admitd n (record { ii = ii; mx_c_mem = mx_c; mx_d_mem = mx_d }) ≡ true
      → IsBest ipc need admitd (suc n) (some n) (ipc.c_mem n) (ipc.d_mem n)
  take n none mx_c mx_d (z, h) c b = (
    omega arith,
    c,
    refl,
    refl,
    none_taken ipc need admitd pos n mx_d (rw z at b),
    λ j l cj. elim (Bool-cases (j == n)) [
      | inl q ↦ subst (λ k. Beats ipc need admitd n k) (ground arith) (itself ipc need admitd pos n)
      | inr q ↦ beaten ipc need admitd pos n j (h j (ground arith) cj)
    ],
  )
  take n (some i) mx_c mx_d (l, ci, ec, ed, p, h) c b = (
    omega arith,
    c,
    refl,
    refl,
    some_taken_pos ipc need admitd pos n i better,
    λ j l' cj. elim (Bool-cases (j == n)) [
      | inl q ↦ subst (λ k. Beats ipc need admitd n k) (ground arith) (itself ipc need admitd pos n)
      | inr q ↦ some_taken ipc need admitd pos n i j better (h j (ground arith) cj)
    ],
  )
    where
      better :
          is_better ipc need admitd n
            (record { ii = some i; mx_c_mem = ipc.c_mem i; mx_d_mem = ipc.d_mem i })
          ≡ true
      better =
          subst
            (λ m.
              is_better ipc need admitd n
                (record { ii = some i; mx_c_mem = m; mx_d_mem = ipc.d_mem i })
              ≡ true)
            ec
            (subst
              (λ m.
                is_better ipc need admitd n (record { ii = some i; mx_c_mem = mx_c; mx_d_mem = m })
                ≡ true)
              ed b)

  consider-IsBest :
      (n : ℕ) (c : Choice) → Chosen n c → Chosen (suc n) (consider ipc need admitd n c)
  consider-IsBest n c best = elim (Bool-cases (is_candidate ipc n)) [
    | inr e ↦
        rw (skipped ipc need admitd pos n c e) (keep n c.ii c.mx_c_mem c.mx_d_mem best (inl e))
    | inl e ↦ elim (Bool-cases (is_better ipc need admitd n c)) [
      | inr b ↦
          rw (refused ipc need admitd pos n c b) (keep n c.ii c.mx_c_mem c.mx_d_mem best (inr b))
      | inl b ↦ rw (taken ipc need admitd pos n c e b) (take n c.ii c.mx_c_mem c.mx_d_mem best e b)
    ]
  ]

  -- When `need` pages are missing, the loop over the `n` processes chooses none only if no other
  -- eligible process has any memory. Otherwise it chooses another eligible process: one with at least
  -- `need` pages if there is one, and then the one of these with the least resident memory, or with
  -- the least dirty memory under VMM_ADMITD, and the one with the most resident memory if not.
  pub find_candidate-IsBest :
      (n : ℕ)
      → IsBest ipc need admitd n
          (find_candidate ipc need admitd n).ii
          (find_candidate ipc need admitd n).mx_c_mem
          (find_candidate ipc need admitd n).mx_d_mem
  unfolding find_candidate
  find_candidate-IsBest zero = (refl, λ j l c. absurd (omega arith))
  find_candidate-IsBest (suc n) =
      consider-IsBest n (find_candidate ipc need admitd n) (find_candidate-IsBest n)
