-- ===== src/Ipc/Madmit/Refused.antt =====
-- The error exit of `ipc_madmit`.
use sbma.Common.{ℕ, suc, ◌-◌, ◌<◌, ◌≡◌, refl, Bool, true, false, arith, some, failed, diverged}
use sbma.Ipc.{Ipc, ipc_mevict}
use sbma.Ipc.Madmit.{Peers, find_candidate, madmit_loop, ipc_madmit}

-- When kill(2) of the first candidate fails, `ipc_madmit` returns -1 with `inter_mtx` still taken and
-- nothing charged, so that the next `ipc_mevict` of one resident page or more waits forever.
pub ipc_madmit_refused :
    (peers : Peers) (fuel value : ℕ) (admitd : Bool) (i : ℕ) (s : Ipc)
    → s.inter_mtx ≡ false
    → s.s_mem < value
    → (find_candidate (record s { inter_mtx = true }) (value - s.s_mem) admitd s.n_procs).ii
      ≡ some i
    → peers.kill i (record s { inter_mtx = true }) ≡ false
    → (t : Ipc) × (ipc_madmit peers (suc fuel) value admitd s ≡ failed t)
      × (t.inter_mtx ≡ true)
      × (t.c_mem s.id ≡ s.c_mem s.id)
      × ((c d : ℕ) → 0 < c → ipc_mevict c d t ≡ diverged)
unfolding ipc_madmit madmit_loop ipc_mevict
ipc_madmit_refused peers fuel value admitd i s free lt chosen refused = (
  record s { inter_mtx = true },
  ground (arith, chosen, refused),
  refl,
  refl,
  λ c d pos. ground arith,
)
