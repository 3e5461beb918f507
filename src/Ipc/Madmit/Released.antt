-- ===== src/Ipc/Madmit/Released.antt =====
-- What the processes of a node have to give, and what is left when one has released its memory.
use sbma.Common.{
  ℕ, ◌+◌, ◌-◌, ◌<◌, ◌≡◌, Bool, true, arith, if◌then◌else◌, ltb, update, count, count_congr,
  count-update, done,
}
use sbma.Ipc.{Ipc, ipc_is_eligible}
use sbma.Ipc.Accounts.{sum, sum_congr, sum-update, IsBalanced, ipc_atomic_dec-eq}
use sbma.Ipc.Madmit.{Peers, vmm_sigipc}
use sbma.Ipc.Madmit.Candidate.{is_candidate}

-- What the process `i` can be asked for.
abbrev pub offers : Ipc → ℕ → ℕ
offers s i = if is_candidate s i then s.c_mem i else 0

-- What is free, or can be.
unfoldable pub available : Ipc → ℕ
available s = s.s_mem + sum s.n_procs (offers s)

-- No call fails, and a process evicts all that it holds.
pub record IsObliging (peers : Peers) : Type 0 where
  pub kill : (i : ℕ) (s : Ipc) → peers.kill i s ≡ true
  pub sem_wait : (s : Ipc) → peers.sem_wait s ≡ true
  pub mevictall : (i : ℕ) (s : Ipc) → peers.mevictall i s ≡ (s.c_mem i, s.d_mem i)

-- The state when the process `i` has released its memory.
abbrev pub released : ℕ → Ipc → Ipc
released i s = record s {
  s_mem = s.s_mem + s.c_mem i;
  c_mem = update s.c_mem i (s.c_mem i - s.c_mem i);
  d_mem = update s.d_mem i (s.d_mem i - s.d_mem i);
}

module _ (max_mem : ℕ) (peers : Peers) (obliging : IsObliging peers) (value : ℕ)
    (admitd : Bool) where
  pub sigipc-eq :
      (i : ℕ) (s : Ipc)
      → IsBalanced max_mem s
      → i < s.n_procs
      → is_candidate s i ≡ true
      → vmm_sigipc peers i s ≡ done tt (released i s)
  unfolding vmm_sigipc
  sigipc-eq i s balanced h c = ground (
    arith,
    obliging.mevictall i s,
    ipc_atomic_dec-eq max_mem (record s { id = i })
        (record { member = h; total = balanced.total; fits = balanced.fits }) (s.c_mem i)
        (s.d_mem i) (omega arith) (omega arith),
  )

  pub IsBalanced-released :
      (i : ℕ) (s : Ipc) → IsBalanced max_mem s → i < s.n_procs → IsBalanced max_mem (released i s)
  IsBalanced-released i s balanced h = record {
    member = balanced.member;
    total = omega (arith, balanced.total, sum-update s.n_procs i s.c_mem (s.c_mem i - s.c_mem i) h);
    fits = balanced.fits;
  }

  pub offers-released :
      (i j : ℕ) (s : Ipc)
      → is_candidate s i ≡ true
      → offers (released i s) j ≡ update (offers s) i 0 j
  unfolding ipc_is_eligible
  offers-released i j s c = ground arith

  pub available-released :
      (i : ℕ) (s : Ipc)
      → i < s.n_procs
      → is_candidate s i ≡ true
      → available (released i s) ≡ available s
  unfolding available
  available-released i s h c = ground (
    arith,
    sum_congr s.n_procs (offers (released i s)) (update (offers s) i 0)
        (λ j l. offers-released i j s c),
    sum-update s.n_procs i (offers s) 0 h,
  )

  pub fewer :
      (i : ℕ) (s : Ipc)
      → i < s.n_procs
      → is_candidate s i ≡ true
      → 0 < s.c_mem i
      → count s.n_procs (ltb 0) (offers (released i s)) + 1 ≡ count s.n_procs (ltb 0) (offers s)
  fewer i s h c p = ground (
    arith,
    count_congr s.n_procs (ltb 0) (offers (released i s)) (update (offers s) i 0)
        (λ j l. offers-released i j s c),
    count-update s.n_procs i (ltb 0) (offers s) 0 h,
  )
