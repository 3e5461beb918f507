-- ===== src/Ipc/Madmit.antt =====
-- `ipc_madmit` of src/ipc/madmit.c, and `vmm_sigipc` of src/vmm/init.c, which answers its signal.
pub mod Candidate
pub mod Released
pub mod Admitted
pub mod Refused
use sbma.Common.{
  ℕ, zero, suc, ◌+◌, ◌-◌, Bool, true, false, not, ◌&&◌, ◌||◌, Option, none, some, if◌then◌else◌,
  ◌==◌, leb, ltb, Cmd, done, failed, diverged, pure, assert, modify, ◌>>=◌, ◌>>◌,
}
use sbma.Ipc.{
  Ipc, size_max, ipc_is_eligible, ipc_atomic_inc, ipc_atomic_dec, inter_critical_section_beg,
  inter_critical_section_end,
}

-- What `ipc_madmit` meets outside: whether kill(2) and sem_wait(3) succeed, the pages that
-- `sbma_mevictall_int` of src/api/mevict.c reports in a process, and what the other processes do before a
-- retry.
pub record Peers : Type 0 where
  pub kill : ℕ → Ipc → Bool
  pub sem_wait : Ipc → Bool
  pub mevictall : ℕ → Ipc → ℕ × ℕ
  pub retry : Ipc → Ipc

-- The candidate so far, with its resident and its dirty memory: `ii`, `mx_c_mem` and `mx_d_mem`.
pub record Choice : Type 0 where
  pub ii : Option ℕ
  pub mx_c_mem : ℕ
  pub mx_d_mem : ℕ

-- `need` is `value-s_mem`, and `admitd` is `VMM_ADMITD == admitd`.
pub is_better : Ipc → ℕ → Bool → ℕ → Choice → Bool
is_better ipc need admitd i best =
    (ltb best.mx_c_mem need && ltb best.mx_c_mem (ipc.c_mem i))
    || (leb need (ipc.c_mem i)
        && ((not admitd && ltb (ipc.c_mem i) best.mx_c_mem)
            || (admitd && ltb (ipc.d_mem i) best.mx_d_mem)))

pub consider : Ipc → ℕ → Bool → ℕ → Choice → Choice
unfolding is_better
consider ipc need admitd i best =
    if i == ipc.id
    then best
    else if not (ipc_is_eligible ipc i)
    then best
    else if is_better ipc need admitd i best
    then record { ii = some i; mx_c_mem = ipc.c_mem i; mx_d_mem = ipc.d_mem i }
    else best

-- The loop over the processes `0` to `n-1`.
unfoldable pub find_candidate : Ipc → ℕ → Bool → ℕ → Choice
unfolding consider
find_candidate ipc need admitd zero = record { ii = none; mx_c_mem = 0; mx_d_mem = size_max }
find_candidate ipc need admitd (suc n) =
    consider ipc need admitd n (find_candidate ipc need admitd n)

-- The handler in the process `i`, with the counters that it changes.
pub vmm_sigipc : Peers → ℕ → Cmd Ipc (Unit {0})
vmm_sigipc peers i s =
    if ipc_is_eligible s i
    then (do
      ipc_atomic_dec (peers.mevictall i s).0 (peers.mevictall i s).1
      modify (λ t. record t { id = s.id; maxpages = s.maxpages }))
        (record s { id = i })
    else done tt s

pub madmit_loop : Peers → ℕ → Bool → ℕ → ℕ → Cmd Ipc ℕ
unfolding find_candidate vmm_sigipc
madmit_loop peers value admitd zero s_mem = λ _. diverged
madmit_loop peers value admitd (suc k) s_mem = λ s.
    if not (ltb s_mem value)
    then done s_mem s
    else elim (find_candidate s (value - s_mem) admitd s.n_procs).ii [
      | none ↦ madmit_loop peers value admitd k s_mem (peers.retry s)
      | some i ↦
          if not (peers.kill i s)
          then failed s
          else (do
            vmm_sigipc peers i
            λ t.
                if not (peers.sem_wait t)
                then failed t
                else madmit_loop peers value admitd k t.s_mem t)
              s
    ]

pub ipc_madmit : Peers → ℕ → ℕ → Bool → Cmd Ipc (Unit {0})
unfolding madmit_loop
ipc_madmit peers fuel value admitd = if value == 0 then pure tt else (do
  inter_critical_section_beg
  s_mem ← (λ s. madmit_loop peers value admitd fuel s.s_mem s)
  assert (λ _. leb value s_mem)
  ipc_atomic_inc value
  inter_critical_section_end)
