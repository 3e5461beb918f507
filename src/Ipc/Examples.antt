-- ===== src/Ipc/Examples.antt =====
-- Three processes on a node of 100 pages.
use sbma.Common.{
  ℕ, suc, ◌+◌, ◌≤◌, ◌<◌, ◌≡◌, refl, true, false, arith, some, if◌then◌else◌, ◌==◌, done, failed,
  diverged,
}
use sbma.Ipc.{Ipc, ipc_is_eligible, ipc_mevict}
use sbma.Ipc.Accounts.{sum, IsBalanced}
use sbma.Ipc.Madmit.{Peers, find_candidate, ipc_madmit}
use sbma.Ipc.Madmit.Candidate.{IsBest}
use sbma.Ipc.Madmit.Candidate.Best.{find_candidate-IsBest}
use sbma.Ipc.Madmit.Released.{available, IsObliging}
use sbma.Ipc.Madmit.Admitted.{ipc_madmit-Admitted}
use sbma.Ipc.Madmit.Refused.{ipc_madmit_refused}

-- The process 0 holds 10 pages, the process 1 holds 30 and the process 2 holds 50.
abbrev node : Ipc
node = record {
  id = 0;
  n_procs = 3;
  maxpages = 10;
  inter_mtx = false;
  s_mem = 10;
  c_mem = λ i. if i == 0 then 10 else if i == 1 then 30 else 50;
  d_mem = λ i. if i == 1 then 20 else 5;
  flags = λ i. true;
}

node-IsBalanced : IsBalanced 100 node
unfolding sum
node-IsBalanced = record { member = omega arith; total = refl; fits = omega arith }

abbrev obliging : Peers
obliging = record {
  kill = λ i s. true;
  sem_wait = λ s. true;
  mevictall = λ i s. (s.c_mem i, s.d_mem i);
  retry = λ s. s;
}

abbrev deaf : Peers
deaf = record obliging { kill = λ i s. false }

obliging-IsObliging : IsObliging obliging
obliging-IsObliging = record { kill = λ i s. refl; sem_wait = λ s. refl; mevictall = λ i s. refl }

-- The least resident memory that is enough, the least dirty one, and the most.
chosen_resident : (find_candidate node 15 false 3).ii ≡ some 1
unfolding find_candidate ipc_is_eligible
chosen_resident = refl

chosen_dirty : (find_candidate node 15 true 3).ii ≡ some 2
unfolding find_candidate ipc_is_eligible
chosen_dirty = refl

chosen_most : (find_candidate node 60 false 3).ii ≡ some 2
unfolding find_candidate ipc_is_eligible
chosen_most = refl

node-available : 85 ≤ available node
unfolding available ipc_is_eligible sum
node-available = omega arith

find_candidate-IsBest_example :
    IsBest node 15 true 3
      (find_candidate node 15 true 3).ii
      (find_candidate node 15 true 3).mx_c_mem
      (find_candidate node 15 true 3).mx_d_mem
find_candidate-IsBest_example = find_candidate-IsBest node 15 true (omega arith) 3

ipc_madmit-Admitted_example :
    (t : Ipc) × (ipc_madmit obliging 4 85 false node ≡ done tt t)
    × IsBalanced 100 t
    × (t.c_mem node.id ≡ 10 + 85)
    × (t.inter_mtx ≡ false)
    × (t.id ≡ 0)
ipc_madmit-Admitted_example =
    ipc_madmit-Admitted 100 obliging obliging-IsObliging 85 false 4 node node-IsBalanced refl
      node-available (omega arith)

ipc_madmit_refused_example :
    (t : Ipc) × (ipc_madmit deaf (suc 3) 25 false node ≡ failed t)
    × (t.inter_mtx ≡ true)
    × (t.c_mem node.id ≡ node.c_mem node.id)
    × ((c d : ℕ) → 0 < c → ipc_mevict c d t ≡ diverged)
unfolding find_candidate ipc_is_eligible
ipc_madmit_refused_example = ipc_madmit_refused deaf 3 25 false 1 node refl (omega arith) refl refl
