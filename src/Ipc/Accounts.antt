-- ===== src/Ipc/Accounts.antt =====
-- No operation creates or loses memory: what is free and what the processes hold add up.
use sbma.Common.{
  ℕ, zero, suc, ◌+◌, ◌-◌, ◌≤◌, ◌<◌, ◌≡◌, refl, false, arith, if◌then◌else◌, ltb, update, inl, inr,
  Bool-cases, ◌==◌, done,
}
use sbma.Ipc.{Ipc, wrap, ipc_atomic_inc, ipc_atomic_dec, ipc_mevict}

unfoldable pub sum : ℕ → (ℕ → ℕ) → ℕ
sum zero f = 0
sum (suc n) f = f n + sum n f

pub sum_congr : (n : ℕ) (f g : ℕ → ℕ) → ((i : ℕ) → i < n → f i ≡ g i) → sum n f ≡ sum n g
unfolding sum
sum_congr zero f g h = refl
sum_congr (suc n) f g h =
    omega (arith, h n (omega arith), sum_congr n f g (λ i l. h i (omega arith)))

pub sum-update : (n i : ℕ) (f : ℕ → ℕ) (v : ℕ) → i < n → sum n (update f i v) + f i ≡ sum n f + v
unfolding sum
sum-update zero i f v h = absurd (omega arith)
sum-update (suc n) i f v h = elim (Bool-cases (n == i)) [
  | inl e ↦ ground (arith, sum_congr n (update f i v) f (λ j l. ground arith))
  | inr e ↦ ground (arith, sum-update n i f v (ground arith))
]

pub le-sum : (n i : ℕ) (f : ℕ → ℕ) → i < n → f i ≤ sum n f
unfolding sum
le-sum zero i f h = absurd (omega arith)
le-sum (suc n) i f h = elim (Bool-cases (n == i)) [
  | inl e ↦ ground arith
  | inr e ↦ ground (arith, le-sum n i f (ground arith))
]

pub sum_zero : (n : ℕ) (f : ℕ → ℕ) → ((i : ℕ) → i < n → f i ≡ 0) → sum n f ≡ 0
unfolding sum
sum_zero zero f h = refl
sum_zero (suc n) f h = omega (arith, h n (omega arith), sum_zero n f (λ i l. h i (omega arith)))

wrap_small : (n : ℕ) → n < 18446744073709551616 → wrap n ≡ n
wrap_small n h = omega arith

-- The memory of the node is `max_mem`, which a size_t holds.
pub record IsBalanced (max_mem : ℕ) (s : Ipc) : Type 0 where
  pub member : s.id < s.n_procs
  pub total : s.s_mem + sum s.n_procs s.c_mem ≡ max_mem
  pub fits : max_mem < 18446744073709551616

-- The state after `ipc_atomic_inc`, without wrapping.
abbrev pub charged : ℕ → Ipc → Ipc
charged value s = record s {
  s_mem = s.s_mem - value;
  c_mem = update s.c_mem s.id (s.c_mem s.id + value);
  maxpages = if ltb s.maxpages (s.c_mem s.id + value) then s.c_mem s.id + value else s.maxpages;
}

-- The state after `ipc_atomic_dec`, without wrapping.
abbrev pub discharged : ℕ → ℕ → Ipc → Ipc
discharged c d s = record s {
  s_mem = s.s_mem + c;
  c_mem = update s.c_mem s.id (s.c_mem s.id - c);
  d_mem = update s.d_mem s.id (s.d_mem s.id - d);
}

module _ (max_mem : ℕ) (s : Ipc) (balanced : IsBalanced max_mem s) where
  pub IsBalanced-charged : (value : ℕ) → value ≤ s.s_mem → IsBalanced max_mem (charged value s)
  IsBalanced-charged value le = record {
    member = balanced.member;
    total = omega (
      arith,
      balanced.total,
      sum-update s.n_procs s.id s.c_mem (s.c_mem s.id + value) balanced.member,
    );
    fits = balanced.fits;
  }

  pub IsBalanced-discharged : (c d : ℕ) → c ≤ s.c_mem s.id → IsBalanced max_mem (discharged c d s)
  IsBalanced-discharged c d le = record {
    member = balanced.member;
    total = omega (
      arith,
      balanced.total,
      sum-update s.n_procs s.id s.c_mem (s.c_mem s.id - c) balanced.member,
    );
    fits = balanced.fits;
  }

  pub ipc_atomic_inc-eq :
      (value : ℕ) → value ≤ s.s_mem → ipc_atomic_inc value s ≡ done tt (charged value s)
  unfolding ipc_atomic_inc
  ipc_atomic_inc-eq value le = ground (arith, exact)
    where
      exact : wrap (s.c_mem s.id + value) ≡ s.c_mem s.id + value
      exact = wrap_small (s.c_mem s.id + value) (
          omega
            (arith, balanced.total, balanced.fits, le-sum s.n_procs s.id s.c_mem balanced.member))

  pub ipc_atomic_dec-eq :
      (c d : ℕ)
      → c ≤ s.c_mem s.id
      → d ≤ s.d_mem s.id
      → ipc_atomic_dec c d s ≡ done tt (discharged c d s)
  unfolding ipc_atomic_dec
  ipc_atomic_dec-eq c d lc ld = ground (arith, exact)
    where
      exact : wrap (s.s_mem + c) ≡ s.s_mem + c
      exact = wrap_small (s.s_mem + c) (
          omega
            (arith, balanced.total, balanced.fits, le-sum s.n_procs s.id s.c_mem balanced.member))

  -- `ipc_mevict` of no more than the process holds, with `inter_mtx` free, returns 0 without an abort. It
  -- moves exactly those pages from the process, which is the same afterwards, to the free memory and
  -- leaves `inter_mtx` free, and what is free and held still adds up.
  pub ipc_mevict-IsBalanced :
      (c d : ℕ)
      → c ≤ s.c_mem s.id
      → d ≤ s.d_mem s.id
      → s.inter_mtx ≡ false
      → (t : Ipc) × (ipc_mevict c d s ≡ done tt t)
        × IsBalanced max_mem t
        × (t.s_mem ≡ s.s_mem + c)
        × (t.c_mem s.id + c ≡ s.c_mem s.id)
        × (t.d_mem s.id + d ≡ s.d_mem s.id)
        × (t.inter_mtx ≡ false)
        × (t.id ≡ s.id)
  unfolding ipc_mevict ipc_atomic_dec
  ipc_mevict-IsBalanced c d lc ld free = (
    discharged c d s,
    ground (arith, exact),
    IsBalanced-discharged c d lc,
    refl,
    ground arith,
    ground arith,
    free,
    refl,
  )
    where
      exact : wrap (s.s_mem + c) ≡ s.s_mem + c
      exact = wrap_small (s.s_mem + c) (
          omega
            (arith, balanced.total, balanced.fits, le-sum s.n_procs s.id s.c_mem balanced.member))
