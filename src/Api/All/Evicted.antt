-- ===== src/Api/All/Evicted.antt =====
-- What an eviction of all entries reports, and leaves.
use sbma.Common.{
  Every, every_nil, every_cons, ℕ, ◌+◌, ◌-◌, ◌*◌, ◌/◌, ◌≤◌, ◌<◌, ◌≡◌, refl, inl, inr, Bool, false,
  arith, List, ◌==◌, count, count_none, Ensures, returns, bind, assert-Ensures, ap, ◌∙◌,
}
use sbma.Mmu.{Flags, Ate, is_resident, is_charged, is_dirty, evicted}
use sbma.Mmu.Valid.{FitsWrite, IsValid}
use sbma.Os.{Os, IsPosix, HasFullWrites, IsReliable}
use sbma.Vmm.{State}
use sbma.Vmm.SwapO.Result.{SwappedOut, vmm_swap_o-SwappedOut}
use sbma.Ipc.{Ipc}
use sbma.Api.{outer_beg, outer_end, vmm_to_sys, sbma_mevict_int}
use sbma.Api.Span.{outer_nonempty, outer_fits}
use sbma.Api.Mevict.{nothing_dirty}
use sbma.Api.Process.{Process, with_vm-Ensures}
use sbma.Api.All.{AllEntries, Sums, no_sums, evict_entry, sbma_mevictall_int}
use sbma.Api.All.Passed.{total, Passed, passed_nil, passed_cons, visit-Passed}

-- An entry that can be evicted: it has pages, and charges one only if one is resident.
pub record IsEvictable (ka : ℕ × Ate) : Type 0 where
  pub nonempty : 0 < ka.1.n_pages
  pub valid : IsValid ka.1
  pub lazy : ka.1.l_pages ≡ 0 → ka.1.c_pages ≡ 0

-- Nothing of the entry is in memory.
pub record IsOut (ka : ℕ × Ate) : Type 0 where
  pub valid : IsValid ka.1
  pub loaded : ka.1.l_pages ≡ 0
  pub charged : ka.1.c_pages ≡ 0
  pub dirtied : ka.1.d_pages ≡ 0

record Added (a : Sums) (ate : Ate) (b : Sums) (ate' : Ate) : Type 0 where
  pub c_pages : b.c_pages ≡ a.c_pages + ate.c_pages
  pub d_pages : b.d_pages ≡ a.d_pages + ate.d_pages
  pub out : (key : ℕ) → IsOut (key, ate')

module _ {W : Type 0} (os : Os W) (ps sys_page : ℕ) (pos : 0 < ps) (posix : IsPosix os)
    (full : HasFullWrites os) (mlock : Bool) where
  evict_all :
      (key : ℕ) (s : State W)
      → IsEvictable (key, s.ate)
      → FitsWrite ps s.ate
      → Ensures
          (λ _ t. IsOut (key, t.ate))
          (λ _. ¬ IsReliable os)
          (sbma_mevict_int os ps sys_page key mlock s.ate.base (s.ate.n_pages * ps) s)
  unfolding sbma_mevict_int
  evict_all key s can fits =
      bind (vmm_swap_o-SwappedOut posix full ps key mlock pos beg num s can.valid room fits) λ m t.
        elim [
          | inl (inl e, _, _) ↦ absurd (omega (arith, nonempty, e))
          | inl (inr empty, _, e) ↦ returns (
              rw e (record {
                valid = can.valid;
                loaded = empty;
                charged = can.lazy empty;
                dirtied = nothing_dirty os ps sys_page key s can.valid empty;
              }))
          | inr out ↦ returns (record {
            valid = out.valid;
            loaded = none_passes is_resident out (λ x. refl) out.valid.loaded;
            charged = none_passes is_charged out (λ x. refl) out.valid.charged;
            dirtied = none_passes is_dirty out (λ x. refl) out.valid.dirtied;
          })
        ]
    where
      beg : ℕ
      beg = outer_beg ps s.ate.base s.ate.base

      num : ℕ
      num = outer_end ps s.ate.base s.ate.base (s.ate.n_pages * ps) - beg

      bytes : 0 < s.ate.n_pages * ps
      bytes = grind (arith, can.nonempty)

      nonempty : beg < outer_end ps s.ate.base s.ate.base (s.ate.n_pages * ps)
      nonempty =
          outer_nonempty ps s.ate.base s.ate.base (s.ate.n_pages * ps) s.ate.n_pages pos
            (omega arith) bytes (omega arith)

      room : beg + num ≤ s.ate.n_pages
      room = omega (
        arith,
        nonempty,
        outer_fits ps s.ate.base s.ate.base (s.ate.n_pages * ps) s.ate.n_pages pos (omega arith)
            bytes (omega arith),
      )

      first : beg ≡ 0
      first = ground arith

      whole : num ≡ s.ate.n_pages
      whole = ground (arith, first, nonempty, last)
        where
          last : (s.ate.n_pages * ps - 1) / ps + 1 ≡ s.ate.n_pages
          last = grind (arith, can.nonempty)

      none_passes :
          {m after : ℕ} {t : State W} (p : Flags → Bool)
          → SwappedOut os ps key s beg num m t
          → ((x : Flags) → p (evicted x) ≡ false)
          → count t.ate.n_pages p t.ate.flags ≡ after
          → after ≡ 0
      none_passes {m} {after} {t} p out never is = omega (
        arith,
        is,
        count_none t.ate.n_pages p t.ate.flags
            (λ i h. ground (arith, out.flags i, out.n_pages, first, whole, never (s.ate.flags i))),
      )

  evict_entry-Added :
      {ipc : Ipc} (key : ℕ) (sums : Sums) (s : Process W)
      → IsEvictable (key, s.vm.ate) × FitsWrite ps s.vm.ate
      → s.ipc ≡ ipc
      → Ensures
          (λ sums' t. Added sums s.vm.ate sums' t.vm.ate × (t.ipc ≡ ipc))
          (λ _. ¬ IsReliable os)
          (evict_entry os ps sys_page mlock key sums s)
  unfolding evict_entry
  evict_entry-Added key sums s (can, fits) e =
      bind (with_vm-Ensures s (evict_all key s.vm can fits)) λ ret t (out, same).
        bind
          (assert-Ensures {P = λ _ u. u ≡ t} (λ t. t.vm.ate.l_pages == 0) t
            (ground (arith, out.loaded)) refl)
          λ _ u e₁.
            bind
              (assert-Ensures {P = λ _ u. u ≡ t} (λ t. t.vm.ate.c_pages == 0) u
                (ground (arith, out.charged, e₁)) e₁)
              λ _ v e₂.
                bind
                  (assert-Ensures {P = λ _ u. u ≡ t} (λ t. t.vm.ate.d_pages == 0) v
                    (ground (arith, out.dirtied, e₂)) e₂)
                  λ _ x e₃. returns (
                    record {
                      c_pages = refl;
                      d_pages = refl;
                      out = λ k. rw e₃ (record {
                        valid = out.valid;
                        loaded = out.loaded;
                        charged = out.charged;
                        dirtied = out.dirtied;
                      });
                    },
                    rw e₃ (same ∙ e),
                  )

sums_total :
    {a b : Sums} {before after : List (ℕ × Ate)}
    → Passed Added a before b after
    → (b.c_pages ≡ a.c_pages + total (λ x. x.c_pages) before)
      × (b.d_pages ≡ a.d_pages + total (λ x. x.d_pages) before)
      × Every IsOut after
unfolding total
sums_total passed_nil = (omega arith, omega arith, every_nil)
sums_total (passed_cons added passed) =
    let (c, d, out) = sums_total passed in
    (omega (arith, c, added.c_pages), omega (arith, d, added.d_pages), every_cons (added.out _) out)

module _ {W : Type 0} (os : Os W) (ps sys_page : ℕ) where
  -- `sbma_mevictall_int`, when each entry is valid and charges no page unless one is resident, never aborts
  -- or waits forever, and returns -1 only where a call can. Otherwise it reports the sums of the
  -- entries' charged and dirty pages, converted to system pages, leaves no entry with a resident, charged
  -- or dirty page, and leaves the counters of the node as they were.
  pub sbma_mevictall_int-Reported :
      (posix : IsPosix os) (full : HasFullWrites os) (mlock : Bool) (s : AllEntries W)
      → 0 < ps
      → Every (λ ka. IsEvictable ka × FitsWrite ps ka.1) s.entries
      → Ensures
          (λ r t.
            (r.c_pages ≡ vmm_to_sys ps sys_page (total (λ x. x.c_pages) s.entries))
            × (r.d_pages ≡ vmm_to_sys ps sys_page (total (λ x. x.d_pages) s.entries))
            × Every IsOut t.entries
            × (t.ipc ≡ s.ipc))
          (λ _. ¬ IsReliable os)
          (sbma_mevictall_int os ps sys_page mlock s)
  unfolding sbma_mevictall_int
  sbma_mevictall_int-Reported posix full mlock s pos every =
      bind
        (visit-Passed (λ w i. i ≡ s.ipc) (evict_entry os ps sys_page mlock)
          (λ key sums t can e.
            evict_entry-Added os ps sys_page pos posix full mlock key sums t can e)
          no_sums s.entries s.world s.ipc every refl)
        λ sums t (passed, same).
          let (c, d, out) = sums_total passed in
          returns (
            ap (vmm_to_sys ps sys_page) (omega (arith, c)),
            ap (vmm_to_sys ps sys_page) (omega (arith, d)),
            out,
            same,
          )
