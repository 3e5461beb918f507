-- ===== src/Ipc/Madmit/Admitted.antt =====
-- `ipc_madmit` terminates when the other processes have enough to give.
use sbma.Common.{
  ℕ, zero, suc, ◌+◌, ◌-◌, ◌≤◌, ◌<◌, ◌≡◌, ◌≢◌, refl, Bool, true, false, arith, ltb, inl, inr, Option,
  none, some, Bool-cases, ◌∙◌, count, count-le, done,
}
use native.Mathlib.Decide.{ℕ_discrete}
use sbma.Ipc.{Ipc, ipc_is_eligible}
use sbma.Ipc.Accounts.{sum, sum_zero, IsBalanced, charged, IsBalanced-charged, ipc_atomic_inc-eq}
use sbma.Ipc.Madmit.{Peers, find_candidate, madmit_loop, ipc_madmit}
use sbma.Ipc.Madmit.Candidate.{is_candidate, IsBest}
use sbma.Ipc.Madmit.Candidate.Best.{find_candidate-IsBest}
use sbma.Ipc.Madmit.Released.{
  offers, available, IsObliging, released, sigipc-eq, IsBalanced-released, available-released,
  fewer,
}

module _ (max_mem : ℕ) (peers : Peers) (obliging : IsObliging peers) (value : ℕ)
    (admitd : Bool) where
  round :
      (k i : ℕ) (s : Ipc)
      → IsBalanced max_mem s
      → i < s.n_procs
      → is_candidate s i ≡ true
      → s.s_mem < value
      → (find_candidate s (value - s.s_mem) admitd s.n_procs).ii ≡ some i
      → madmit_loop peers value admitd (suc k) s.s_mem s
        ≡ madmit_loop peers value admitd k (released i s).s_mem (released i s)
  unfolding madmit_loop
  round k i s balanced h c lt e = ground (
    arith,
    e,
    obliging.kill i s,
    sigipc-eq max_mem peers obliging value admitd i s balanced h c,
    obliging.sem_wait (released i s),
  )

  stop :
      (k : ℕ) (s : Ipc)
      → ltb s.s_mem value ≡ false
      → madmit_loop peers value admitd (suc k) s.s_mem s ≡ done s.s_mem s
  unfolding madmit_loop
  stop k s e = ground arith

  -- A process that has something to give is found.
  found :
      (s : Ipc)
      → s.s_mem < value
      → value ≤ available s
      → (i : ℕ) × ((find_candidate s (value - s.s_mem) admitd s.n_procs).ii ≡ some i)
        × (i < s.n_procs)
        × (is_candidate s i ≡ true)
        × (0 < s.c_mem i)
  unfolding available
  found s lt enough =
      pick (find_candidate s (value - s.s_mem) admitd s.n_procs).ii
        (find_candidate s (value - s.s_mem) admitd s.n_procs).mx_c_mem
        (find_candidate s (value - s.s_mem) admitd s.n_procs).mx_d_mem refl
        (find_candidate-IsBest s (value - s.s_mem) admitd (omega arith) s.n_procs)
    where
      nothing :
          ((j : ℕ) → j < s.n_procs → is_candidate s j ≡ true → s.c_mem j ≡ 0)
          → sum s.n_procs (offers s) ≡ 0
      nothing h = sum_zero s.n_procs (offers s) (λ j l. ground (arith, h j l))

      pick :
          (ii : Option ℕ) (m d : ℕ)
          → (find_candidate s (value - s.s_mem) admitd s.n_procs).ii ≡ ii
          → IsBest s (value - s.s_mem) admitd s.n_procs ii m d
          → (i : ℕ) × ((find_candidate s (value - s.s_mem) admitd s.n_procs).ii ≡ some i)
            × (i < s.n_procs)
            × (is_candidate s i ≡ true)
            × (0 < s.c_mem i)
      pick none m d e (z, h) = absurd (omega (arith, nothing h))
      pick (some i) m d e (l, c, ec, ed, p, h) = (i, e, l, c, p)

  -- The loop stops, with enough free memory and the caller's own account as it was.
  pub record Waited (s t : Ipc) : Type 0 where
    pub balanced : IsBalanced max_mem t
    pub enough : value ≤ t.s_mem
    pub id : t.id ≡ s.id
    pub own : t.c_mem s.id ≡ s.c_mem s.id
    pub inter_mtx : t.inter_mtx ≡ s.inter_mtx
    pub maxpages : t.maxpages ≡ s.maxpages

  madmit_loop-Waited :
      (k : ℕ) (s : Ipc)
      → IsBalanced max_mem s
      → value ≤ available s
      → count s.n_procs (ltb 0) (offers s) < k
      → (t : Ipc) × (madmit_loop peers value admitd k s.s_mem s ≡ done t.s_mem t) × Waited s t
  madmit_loop-Waited zero s balanced enough fuel = absurd (omega arith)
  madmit_loop-Waited (suc k) s balanced enough fuel = elim (Bool-cases (ltb s.s_mem value)) [
    | inr e ↦ (
      s,
      stop k s e,
      record {
        balanced = balanced;
        enough = ground arith;
        id = refl;
        own = refl;
        inter_mtx = refl;
        maxpages = refl;
      },
    )
    | inl e ↦
        let (i, chosen, l, c, p) = found s (ground arith) enough in
        let (t, run, w) =
          madmit_loop-Waited k (released i s)
            (IsBalanced-released max_mem peers obliging value admitd i s balanced l)
            (omega (arith, available-released max_mem peers obliging value admitd i s l c))
            (omega (arith, fewer max_mem peers obliging value admitd i s l c p)) in
        (
          t,
          round k i s balanced l c (ground arith) chosen ∙ run,
          record {
            balanced = w.balanced;
            enough = w.enough;
            id = w.id;
            own = ground (arith, w.own);
            inter_mtx = w.inter_mtx;
            maxpages = w.maxpages;
          },
        )
  ]

  admits :
      (fuel : ℕ) (s t : Ipc)
      → value ≢ 0
      → s.inter_mtx ≡ false
      → madmit_loop peers value admitd fuel s.s_mem (record s { inter_mtx = true }) ≡ done t.s_mem t
      → IsBalanced max_mem t
      → value ≤ t.s_mem
      → ipc_madmit peers fuel value admitd s
        ≡ done tt (record (charged value t) { inter_mtx = false })
  unfolding ipc_madmit
  admits fuel s t ne free run balanced enough =
      ground (arith, run, ipc_atomic_inc-eq max_mem t balanced value enough)

  -- When no call fails and each process that is asked evicts all that it holds, `ipc_madmit` of no more
  -- than what is free or held by other eligible processes returns 0 without an abort, after at most
  -- `n_procs` signals: with that fuel it does not run out. It charges the caller with exactly
  -- `value` pages more, leaves `inter_mtx` free and the caller as it is, and what is free and held
  -- still adds up.
  pub ipc_madmit-Admitted :
      (fuel : ℕ) (s : Ipc)
      → IsBalanced max_mem s
      → s.inter_mtx ≡ false
      → value ≤ available s
      → s.n_procs < fuel
      → (t : Ipc) × (ipc_madmit peers fuel value admitd s ≡ done tt t)
        × IsBalanced max_mem t
        × (t.c_mem s.id ≡ s.c_mem s.id + value)
        × (t.inter_mtx ≡ false)
        × (t.id ≡ s.id)
  unfolding ipc_madmit available ipc_is_eligible
  ipc_madmit-Admitted fuel s balanced free enough fueled = elim (ℕ_discrete value 0) [
    | yes e ↦ (s, ground (arith, e), balanced, omega arith, free, refl)
    | no ne ↦
        let (t, run, w) =
          madmit_loop-Waited fuel (record s { inter_mtx = true })
            (record { member = balanced.member; total = balanced.total; fits = balanced.fits })
            enough (omega (arith, count-le s.n_procs (ltb 0) (offers s))) in
        (
          record (charged value t) { inter_mtx = false },
          admits fuel s t ne free run w.balanced w.enough,
          record {
            member = w.balanced.member;
            total = (IsBalanced-charged max_mem t w.balanced value w.enough).total;
            fits = w.balanced.fits;
          },
          ground (arith, w.own, w.id),
          refl,
          w.id,
        )
  ]
