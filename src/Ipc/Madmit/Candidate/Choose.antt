-- ===== src/Ipc/Madmit/Candidate/Choose.antt =====
-- What one round of the search for a candidate does to the choice.
use sbma.Common.{
  ℕ, suc, ◌<◌, ◌≡◌, Bool, true, false, arith, ◌==◌, inl, inr, none, some, Bool-cases, subst,
}
use sbma.Ipc.{Ipc}
use sbma.Ipc.Madmit.{Choice, is_better, consider}
use sbma.Ipc.Madmit.Candidate.{is_candidate, Beats, IsBest}

module _ (ipc : Ipc) (need : ℕ) (admitd : Bool) (pos : 0 < need) where
  pub skipped : (n : ℕ) (c : Choice) → is_candidate ipc n ≡ false → consider ipc need admitd n c ≡ c
  unfolding consider
  skipped n c h = ground arith

  pub refused :
      (n : ℕ) (c : Choice)
      → is_better ipc need admitd n c ≡ false
      → consider ipc need admitd n c ≡ c
  unfolding consider
  refused n c h = ground (arith, h)

  pub taken :
      (n : ℕ) (c : Choice)
      → is_candidate ipc n ≡ true
      → is_better ipc need admitd n c ≡ true
      → consider ipc need admitd n c
        ≡ record { ii = some n; mx_c_mem = ipc.c_mem n; mx_d_mem = ipc.d_mem n }
  unfolding consider
  taken n c h b = ground (arith, h, b)

  pub keep_none :
      (n mx_c mx_d : ℕ)
      → IsBest ipc need admitd n none mx_c mx_d
      → (is_candidate ipc n ≡ true → ipc.c_mem n ≡ 0)
      → IsBest ipc need admitd (suc n) none mx_c mx_d
  keep_none n mx_c mx_d (e, h) last = (
    e,
    λ j l c. elim (Bool-cases (j == n)) [
      | inl q ↦ ground (arith, last)
      | inr q ↦ h j (ground arith) c
    ],
  )

  pub keep_some :
      (n i mx_c mx_d : ℕ)
      → IsBest ipc need admitd n (some i) mx_c mx_d
      → (is_candidate ipc n ≡ true → Beats ipc need admitd i n)
      → IsBest ipc need admitd (suc n) (some i) mx_c mx_d
  keep_some n i mx_c mx_d (l, c, ec, ed, p, h) last = (
    omega arith,
    c,
    ec,
    ed,
    p,
    λ j l' c'. elim (Bool-cases (j == n)) [
      | inl q ↦
          subst (λ k. Beats ipc need admitd i k) (ground arith)
            (last (subst (λ k. is_candidate ipc k ≡ true) (ground arith) c'))
      | inr q ↦ h j (ground arith) c'
    ],
  )

  pub none_refused :
      (n mx_d : ℕ)
      → is_better ipc need admitd n (record { ii = none; mx_c_mem = 0; mx_d_mem = mx_d }) ≡ false
      → ipc.c_mem n ≡ 0
  unfolding is_better
  none_refused n mx_d h = ground arith

  pub some_refused :
      (n i : ℕ)
      → is_better ipc need admitd n
          (record { ii = some i; mx_c_mem = ipc.c_mem i; mx_d_mem = ipc.d_mem i })
        ≡ false
      → Beats ipc need admitd i n
  unfolding is_better
  some_refused n i h = record {
    enough = λ e. ground arith;
    most = λ e. ground arith;
    least = λ a e. ground arith;
    cleanest = λ a e. ground arith;
  }

  pub none_taken :
      (n mx_d : ℕ)
      → is_better ipc need admitd n (record { ii = none; mx_c_mem = 0; mx_d_mem = mx_d }) ≡ true
      → 0 < ipc.c_mem n
  unfolding is_better
  none_taken n mx_d h = ground arith

  pub some_taken :
      (n i j : ℕ)
      → is_better ipc need admitd n
          (record { ii = some i; mx_c_mem = ipc.c_mem i; mx_d_mem = ipc.d_mem i })
        ≡ true
      → Beats ipc need admitd i j
      → Beats ipc need admitd n j
  unfolding is_better
  some_taken n i j h b = record {
    enough = λ e. ground (arith, b.enough);
    most = λ e. ground (arith, b.most, b.enough);
    least = λ a e. ground (arith, b.least, b.enough);
    cleanest = λ a e. ground (arith, b.cleanest, b.enough);
  }

  pub some_taken_pos :
      (n i : ℕ)
      → is_better ipc need admitd n
          (record { ii = some i; mx_c_mem = ipc.c_mem i; mx_d_mem = ipc.d_mem i })
        ≡ true
      → 0 < ipc.c_mem n
  unfolding is_better
  some_taken_pos n i h = ground arith

  pub itself : (n : ℕ) → Beats ipc need admitd n n
  itself n = record {
    enough = λ e. e;
    most = λ e. omega arith;
    least = λ a e. omega arith;
    cleanest = λ a e. omega arith;
  }

  -- A process without memory is beaten by any that has some.
  pub beaten : (n j : ℕ) → ipc.c_mem j ≡ 0 → Beats ipc need admitd n j
  beaten n j e = record {
    enough = λ l. absurd (omega arith);
    most = λ l. omega arith;
    least = λ a l. absurd (omega arith);
    cleanest = λ a l. absurd (omega arith);
  }
