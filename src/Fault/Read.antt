-- ===== src/Fault/Read.antt =====
-- The first access to a page that is not resident.
use sbma.Common.{ℕ, ◌+◌, ◌/◌, ◌<◌, ◌≡◌, true}
use sbma.Mmu.{is_resident}
use sbma.Mmu.Valid.{IsValid}
use sbma.Os.{Os}
use sbma.Vmm.View.{view, IsCoherent}
use sbma.Ipc.Accounts.{IsBalanced}
use sbma.Ipc.Madmit.{Peers}
use sbma.Ipc.Madmit.Released.{IsObliging}
use sbma.Api.{vmm_to_sys}
use sbma.Api.Process.{Process}

module _ {W : Type 0} (os : Os W) (ps sys_page key : ℕ) (max_mem : ℕ) (peers : Peers)
    (obliging : IsObliging peers) where
  -- What the handler does on an access to the page `ip`.
  pub record Faulted (ip : ℕ) (s t : Process W) : Type 0 where
    pub valid : IsValid t.vm.ate
    pub coherent : IsCoherent os ps key t.vm
    pub same : (x : ℕ) → x / ps < s.vm.ate.n_pages → view os ps key t.vm x ≡ view os ps key s.vm x
    pub resident : is_resident (t.vm.ate.flags ip) ≡ true
    pub balanced : IsBalanced max_mem t.ipc
    -- The pages that are charged to the entry, and at the node.
    pub charged :
        (c : ℕ) × (t.vm.ate.c_pages ≡ s.vm.ate.c_pages + c)
        × (t.ipc.c_mem s.ipc.id ≡ s.ipc.c_mem s.ipc.id + vmm_to_sys ps sys_page c)
