-- ===== src/Api/All.antt =====
-- The functions on all entries, of src/api/mevict.c, src/api/mclear.c and src/api/mtouch.c, and the handler
-- `vmm_sigipc` of src/vmm/init.c in a process with all its entries. The lists are `_vmm_.mmu.a_tbl`.
pub mod Passed
pub mod Evicted
pub mod Handled
pub mod Cleared
pub mod Examples
use sbma.Common.{Checks, state_check}
use sbma.Common.{
  ℕ, zero, suc, ◌+◌, ◌*◌, Bool, true, false, if◌then◌else◌, ◌==◌, Run, Cmd, done, failed, aborted,
  diverged, pure, assert, ◌>>=◌, ◌>>◌, List, [], ◌∷◌, insist,
}
use sbma.Mmu.{Ate}
use sbma.Os.{Os}
use sbma.Ipc.{Ipc, ℤ, pos, negsuc, ipc_is_eligible, ipc_atomic_dec, ipc_mevict, ipc_mdirty}
use sbma.Ipc.Madmit.{Peers, ipc_madmit}
use sbma.Api.{vmm_to_sys, sbma_mtouch_probe, sbma_mtouch_int, sbma_mevict_int}
use sbma.Api.Process.{Process, on_vm, on_ipc}
use sbma.Api.Release.{sbma_mclear}

-- The entries, each with the name of its file, the system, and the counters of the node.
pub record AllEntries (W : Type 0) : Type 0 where
  pub entries : List (ℕ × Ate)
  pub world : W
  pub ipc : Ipc

module _ {W A : Type 0} where
  -- One entry has been visited, and `next` visits the others. A return of -1 leaves these as they are.
  pub proceed :
      ℕ
      → List (ℕ × Ate)
      → Run (Process W) A
      → (A → W → Ipc → Run (AllEntries W) A)
      → Run (AllEntries W) A
  proceed key rest (done a t) next = elim (next a t.vm.world t.ipc) [
    | done b u ↦ done b (record u { entries = (key, t.vm.ate) ∷ u.entries })
    | failed u ↦ failed (record u { entries = (key, t.vm.ate) ∷ u.entries })
    | aborted ↦ aborted
    | diverged ↦ diverged
  ]
  proceed key rest (failed t) next =
      failed (record { entries = (key, t.vm.ate) ∷ rest; world = t.vm.world; ipc = t.ipc })
  proceed key rest aborted next = aborted
  proceed key rest diverged next = diverged

  -- for (ate=_vmm_.mmu.a_tbl; NULL!=ate; ate=ate->next)
  pub visit : (ℕ → A → Cmd (Process W) A) → A → List (ℕ × Ate) → W → Ipc → Run (AllEntries W) A
  unfolding proceed
  visit body acc [] world ipc = done acc (record { entries = []; world = world; ipc = ipc })
  visit body acc ((key, ate) ∷ rest) world ipc =
      proceed key rest
        (body key acc (record { vm = record { ate = ate; world = world }; ipc = ipc }))
        (λ b w i. visit body b rest w i)

  abbrev pub for_each : (ℕ → A → Cmd (Process W) A) → A → Cmd (AllEntries W) A
  for_each body acc s = visit body acc s.entries s.world s.ipc

module _ {W : Type 0} where
  -- A call that leaves the entries and the system alone.
  abbrev pub with_node : {A : Type 0} → AllEntries W → Run Ipc A → Run (AllEntries W) A
  with_node s (done a t) = done a (record s { ipc = t })
  with_node s (failed t) = failed (record s { ipc = t })
  with_node s aborted = aborted
  with_node s diverged = diverged

  abbrev pub on_node : {A : Type 0} → Cmd Ipc A → Cmd (AllEntries W) A
  on_node call s = with_node s (call s.ipc)

-- What sbma_mevictall_int adds up: the charged and dirty pages before, and the pages written.
pub record Sums : Type 0 where
  pub c_pages : ℕ
  pub d_pages : ℕ
  pub numwr : ℕ

abbrev pub no_sums : Sums
no_sums = record { c_pages = 0; d_pages = 0; numwr = 0 }

-- -VMM_TO_SYS(d_pages), as ssize_t
pub negated : ℕ → ℤ
negated zero = pos 0
negated (suc n) = negsuc n

module _ {W : Type 0} (os : Os W) (page_size sys_page : ℕ) where
  pub evict_entry : Bool → ℕ → Sums → Cmd (Process W) Sums
  evict_entry mlock key sums s =
      (do
        ret ← on_vm (λ t.
            sbma_mevict_int os page_size sys_page key mlock t.ate.base (t.ate.n_pages * page_size)
              t)
        assert (λ t. t.vm.ate.l_pages == 0)
        assert (λ t. t.vm.ate.c_pages == 0)
        assert (λ t. t.vm.ate.d_pages == 0)
        pure (record {
          c_pages = sums.c_pages + s.vm.ate.c_pages;
          d_pages = sums.d_pages + s.vm.ate.d_pages;
          numwr = sums.numwr + ret;
        }))
        s

  unfoldable pub sbma_mevictall_int : Bool → Cmd (AllEntries W) Sums
  unfolding visit evict_entry
  sbma_mevictall_int mlock = do
    sums ← for_each (evict_entry mlock) no_sums
    pure (record {
      c_pages = vmm_to_sys page_size sys_page sums.c_pages;
      d_pages = vmm_to_sys page_size sys_page sums.d_pages;
      numwr = vmm_to_sys page_size sys_page sums.numwr;
    })

  pub sbma_mevictall : Checks (AllEntries W) → Bool → Cmd (AllEntries W) ℕ
  unfolding sbma_mevictall_int
  sbma_mevictall checks mlock = do
    state_check checks
    sums ← sbma_mevictall_int mlock
    on_node (ipc_mevict sums.c_pages sums.d_pages)
    state_check checks
    pure sums.c_pages

  -- `vmm_sigipc`, up to sem_post(3).
  pub honor_sigipc : Bool → Cmd (AllEntries W) (Unit {0})
  unfolding sbma_mevictall_int
  honor_sigipc mlock s =
      if ipc_is_eligible s.ipc s.ipc.id
      then (do
        sums ← (λ t. insist (sbma_mevictall_int mlock t))
        on_node (ipc_atomic_dec sums.c_pages sums.d_pages))
          s
      else done tt s

  pub clear_entry : Checks (Process W) → ℕ → ℕ → Cmd (Process W) ℕ
  clear_entry checks key d_pages s =
      (do
        λ t.
            sbma_mclear os page_size sys_page key checks t.vm.ate.base
              (t.vm.ate.n_pages * page_size) t
        assert (λ t. t.vm.ate.d_pages == 0)
        pure (d_pages + s.vm.ate.d_pages))
        s

  -- Both kinds of checks are the same, of the whole process, and of it while one entry is visited.
  pub sbma_mclearall : Checks (AllEntries W) → Checks (Process W) → Cmd (AllEntries W) (Unit {0})
  unfolding visit clear_entry
  sbma_mclearall checks checks' = do
    state_check checks
    d_pages ← for_each (clear_entry checks') 0
    on_node (ipc_mdirty (negated (vmm_to_sys page_size sys_page d_pages)))
    state_check checks

  module _ (peers : Peers) (fuel : ℕ) (checks : Checks (AllEntries W))
      (eager ghost admitd : Bool) where
    pub probe_entry : ℕ → ℕ → Cmd (Process W) ℕ
    probe_entry key c_pages = do
      retval ← on_vm (λ t.
          sbma_mtouch_probe os page_size sys_page key eager t.ate.base (t.ate.n_pages * page_size)
            t)
      pure (c_pages + retval)

    pub touch_entry : ℕ → ℕ → Cmd (Process W) ℕ
    touch_entry key numrd = do
      retval ← on_vm (λ t.
          sbma_mtouch_int os page_size sys_page key eager ghost t.ate.base
            (t.ate.n_pages * page_size) t)
      assert (λ t. t.vm.ate.l_pages == t.vm.ate.n_pages)
      assert (λ t. t.vm.ate.c_pages == t.vm.ate.n_pages)
      pure (numrd + retval)

    pub sbma_mtouchall : Cmd (AllEntries W) ℕ
    unfolding visit probe_entry touch_entry
    sbma_mtouchall = do
      state_check checks
      c_pages ← for_each probe_entry 0
      if c_pages == 0 then pure tt else on_node (ipc_madmit peers fuel c_pages admitd)
      for_each touch_entry 0
      state_check checks
      pure c_pages
