-- ===== src/Api/Alloc/Fresh.antt =====
-- The parts of `sbma_malloc` of src/api/malloc.c: the new entry, its size, and the admission.
use sbma.Common.{
  ℕ, ◌+◌, ◌-◌, ◌*◌, ◌/◌, ◌≤◌, ◌<◌, ◌≡◌, refl, Bool, true, false, if◌then◌else◌, arith, done, pure,
  count_full, count_none,
}
use sbma.Mmu.{is_resident, is_charged, is_dirty}
use sbma.Mmu.Valid.{IsValid}
use sbma.Ipc.{Ipc}
use sbma.Ipc.Accounts.{IsBalanced}
use sbma.Ipc.Madmit.{Peers, ipc_madmit}
use sbma.Ipc.Madmit.Released.{available, IsObliging}
use sbma.Ipc.Madmit.Admitted.{ipc_madmit-Admitted}
use sbma.Api.{less, vmm_to_sys}
use sbma.Api.All.{AllEntries, on_node}
use sbma.Api.All.Evicted.{IsEvictable}
use sbma.Api.Alloc.{attempt, fresh, new_ate}

new_ate-IsValid : (rsdnt : Bool) (n base : ℕ) → IsValid (new_ate rsdnt n base)
new_ate-IsValid true n base = record {
  loaded = count_full n is_resident (fresh true) refl;
  charged = count_full n is_charged (fresh true) refl;
  dirtied = count_none n is_dirty (λ i. fresh true) (λ i h. refl);
  pages = λ i h. refl;
}
new_ate-IsValid false n base = record {
  loaded = count_none n is_resident (λ i. fresh false) (λ i h. refl);
  charged = count_none n is_charged (λ i. fresh false) (λ i h. refl);
  dirtied = count_none n is_dirty (λ i. fresh false) (λ i h. refl);
  pages = λ i h. refl;
}

pub new_ate-IsEvictable :
    (rsdnt : Bool) (key n base : ℕ) → 0 < n → IsEvictable (key, new_ate rsdnt n base)
new_ate-IsEvictable rsdnt key n base pos = record {
  nonempty = pos;
  valid = new_ate-IsValid rsdnt n base;
  lazy = λ e. e;
}

-- The pages hold the bytes, and one less does not.
pub whole_pages :
    (ps bytes : ℕ)
    → 0 < ps
    → 0 < bytes
    → (bytes ≤ (1 + less bytes 1 / ps) * ps) × (less bytes 1 / ps * ps < bytes)
whole_pages ps bytes pos some_bytes = (ground (arith, exact, up), ground (arith, exact, down))
  where
    exact : less bytes 1 ≡ bytes - 1
    exact = ground arith

    up : bytes ≤ (1 + (bytes - 1) / ps) * ps
    up = grind arith

    down : (bytes - 1) / ps * ps < bytes
    down = grind arith

-- The admission, when the pages can be had.
pub admission :
    {W : Type 0} (peers : Peers)
    → IsObliging peers
    → (max_mem fuel value : ℕ) (asks admitd : Bool) (s : AllEntries W) → IsBalanced max_mem s.ipc
    → s.ipc.inter_mtx ≡ false
    → s.ipc.n_procs < fuel
    → value ≤ available s.ipc
    → (asks ≡ false → value ≡ 0)
    → (t : Ipc) × (attempt
          ((if asks then on_node (ipc_madmit peers fuel value admitd) else pure tt) s)
        ≡ done true (record s { ipc = t }))
      × IsBalanced max_mem t
      × (t.c_mem s.ipc.id ≡ s.ipc.c_mem s.ipc.id + value)
      × (t.inter_mtx ≡ false)
      × (t.id ≡ s.ipc.id)
admission peers obliging max_mem fuel value true admitd s balanced free fueled had none_asked =
    let (t, run, balanced', own, free', id) =
      ipc_madmit-Admitted max_mem peers obliging value admitd fuel s.ipc balanced free had fueled in
    (t, rw run refl, balanced', own, free', id)
admission peers obliging max_mem fuel value false admitd s balanced free fueled had none_asked =
    (s.ipc, refl, balanced, omega (arith, none_asked refl), free, refl)

pub vmm_to_sys_zero : (ps sys_page : ℕ) → vmm_to_sys ps sys_page 0 ≡ 0
vmm_to_sys_zero ps sys_page = grind arith
