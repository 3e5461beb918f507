-- ===== src/Api/Process.antt =====
-- `sbma_mtouch` of src/api/mtouch.c on a given entry: the probe, the admission and the operation. The state is
-- the entry, the system, and the counters of the node.
use sbma.Common.{Checks, unchecked, state_check}
use sbma.Common.{
  ℕ, ◌+◌, ◌≤◌, ◌<◌, ◌≡◌, refl, Bool, false, if◌then◌else◌, ◌==◌, Run, done, failed, aborted,
  diverged, Cmd, pure, ◌>>=◌, ◌>>◌, arith, Ensures, returns, fails, bind, Bool-cases, inl, inr,
  subst, sym,
}
use sbma.Os.{Os, IsReliable}
use sbma.Vmm.{State}
use sbma.Ipc.{Ipc}
use sbma.Ipc.Accounts.{IsBalanced}
use sbma.Ipc.Madmit.{Peers, ipc_madmit}
use sbma.Ipc.Madmit.Released.{available, IsObliging}
use sbma.Ipc.Madmit.Admitted.{ipc_madmit-Admitted}
use sbma.Api.{sbma_mtouch_probe, sbma_mtouch_int}

pub record Process (W : Type 0) : Type 0 where
  pub vm : State W
  pub ipc : Ipc

module _ {W : Type 0} where
  abbrev pub with_vm : {A : Type 0} → Process W → Run (State W) A → Run (Process W) A
  with_vm s (done a t) = done a (record s { vm = t })
  with_vm s (failed t) = failed (record s { vm = t })
  with_vm s aborted = aborted
  with_vm s diverged = diverged

  abbrev pub with_ipc : {A : Type 0} → Process W → Run Ipc A → Run (Process W) A
  with_ipc s (done a t) = done a (record s { ipc = t })
  with_ipc s (failed t) = failed (record s { ipc = t })
  with_ipc s aborted = aborted
  with_ipc s diverged = diverged

  abbrev pub on_vm : {A : Type 0} → Cmd (State W) A → Cmd (Process W) A
  on_vm call s = with_vm s (call s.vm)

  abbrev pub on_ipc : {A : Type 0} → Cmd Ipc A → Cmd (Process W) A
  on_ipc call s = with_ipc s (call s.ipc)

  pub with_vm-Ensures :
      {A : Type 0} {P : A → State W → Type 0} {F : Type 0} {r : Run (State W) A} (s : Process W)
      → Ensures P (λ _. F) r
      → Ensures (λ a t. P a t.vm × (t.ipc ≡ s.ipc)) (λ _. F) (with_vm s r)
  with_vm-Ensures s (returns p) = returns (p, refl)
  with_vm-Ensures s (fails e) = fails e

module _ {W : Type 0} (os : Os W) (page_size sys_page key : ℕ) (peers : Peers) (fuel : ℕ)
    (checks : Checks (Process W)) where
  pub sbma_mtouch : Bool → Bool → Bool → ℕ → ℕ → Cmd (Process W) ℕ
  sbma_mtouch eager ghost admitd addr len = do
    state_check checks
    c_pages ← on_vm (sbma_mtouch_probe os page_size sys_page key eager addr len)
    if c_pages == 0 then pure tt else on_ipc (ipc_madmit peers fuel c_pages admitd)
    on_vm (sbma_mtouch_int os page_size sys_page key eager ghost addr len)
    state_check checks
    pure c_pages

module _ {W : Type 0} (os : Os W) (ps sys_page key : ℕ) (max_mem : ℕ) (peers : Peers)
    (obliging : IsObliging peers) where
  admission :
      (c fuel : ℕ) (admitd : Bool) (s : Process W)
      → IsBalanced max_mem s.ipc
      → s.ipc.inter_mtx ≡ false
      → c ≤ available s.ipc
      → s.ipc.n_procs < fuel
      → Ensures
          (λ _ t.
            (t.vm ≡ s.vm)
            × IsBalanced max_mem t.ipc
            × (t.ipc.c_mem s.ipc.id ≡ s.ipc.c_mem s.ipc.id + c))
          (λ _. ¬ IsReliable os)
          ((if c == 0 then pure tt else on_ipc (ipc_madmit peers fuel c admitd)) s)
  admission c fuel admitd s balanced free enough fueled =
      let (t, run, balanced', own, _, _) =
        ipc_madmit-Admitted max_mem peers obliging c admitd fuel s.ipc balanced free enough
          fueled in
      elim (Bool-cases (c == 0)) [
        | inl e ↦ rw e (returns (refl, balanced, ground arith))
        | inr e ↦ rw (e, on_ipc, run) (returns (refl, balanced', own))
      ]

  -- What the operation does on the entry, with the admission of `c` pages before it.
  pub sbma_mtouch-Ensures :
      {Q : State W → Type 0} (fuel : ℕ) (admitd : Bool) (addr len c : ℕ) (s : Process W)
      → IsBalanced max_mem s.ipc
      → s.ipc.inter_mtx ≡ false
      → s.ipc.n_procs < fuel
      → c ≤ available s.ipc
      → sbma_mtouch_probe os ps sys_page key false addr len s.vm ≡ done c s.vm
      → Ensures
          (λ _ u. Q u)
          (λ _. ¬ IsReliable os)
          (sbma_mtouch_int os ps sys_page key false false addr len s.vm)
      → Ensures
          (λ r t.
            (r ≡ c)
            × Q t.vm
            × (t.ipc.c_mem s.ipc.id ≡ s.ipc.c_mem s.ipc.id + c)
            × IsBalanced max_mem t.ipc)
          (λ _. ¬ IsReliable os)
          (sbma_mtouch os ps sys_page key peers fuel unchecked false false admitd addr len s)
  unfolding sbma_mtouch
  sbma_mtouch-Ensures {Q} fuel admitd addr len c s balanced free fueled had probed touched =
      rw probed (
        bind (admission c fuel admitd s balanced free had fueled) λ _ t (same, balanced', own).
          bind
            (with_vm-Ensures t (
              subst
                (λ v.
                  Ensures (λ _ u. Q u) (λ _. ¬ IsReliable os)
                    (sbma_mtouch_int os ps sys_page key false false addr len v))
                (sym same) touched))
            λ m u (q, e). returns (refl, q, rw e own, rw e balanced'))
