-- ===== src/Vmm/SwapI/Result.antt =====
-- What `vmm_swap_i` without ghost pages does to the entry, the memory and its protection.
use sbma.Common.{sym}
use sbma.Common.{
  ℕ, ◌+◌, ◌-◌, ◌*◌, ◌≤◌, ◌<◌, ◌≡◌, ◌≢◌, refl, ◌⊎◌, inl, inr, true, false, none, arith, count_mono,
  count-le, if◌then◌else◌, Ensures, returns, bind, checked, checked-Ensures, mono, ◌∙◌, subst, done,
  ◌>>◌,
}
use native.Mathlib.Decide.{ℕ_discrete}
use sbma.Mmu.{Ate, is_resident, is_charged}
use sbma.Mmu.Valid.{IsValid}
use sbma.Os.{Os, Same, Same-trans, prot_read, prot_write, prot_rw, IsPosix, IsReliable}
use sbma.Vmm.{as_int, State, on_world, lift-Ensures}
use sbma.Vmm.SwapI.{to_read, prepare, finish, swap_i_pages, vmm_swap_i}
use sbma.Vmm.SwapI.Loading.{Loading}
use sbma.Vmm.SwapI.Loop.{swap_i_loop-Loading}
use sbma.Vmm.Protect.{Reprotected, reprotect}
use sbma.Vmm.SwapI.Rewrite.{rewrite_dirty-Reprotected}
use sbma.Vmm.SwapI.Finished.{SwappedIn, started, finished}

module _ {W : Type 0} {os : Os W} (posix : IsPosix os) (ps key : ℕ) (ps_pos : 0 < ps) where
  module _ (s₀ : State W) (beg num : ℕ) (valid : IsValid s₀.ate) (room : beg + num ≤ s₀.ate.n_pages)
      (on_disk : (i : ℕ)
        → i < s₀.ate.n_pages
        → to_read (s₀.ate.flags i) ≡ true
        → (i + 1) * ps ≤ os.size s₀.world key) where
    finish-Reprotected :
        (s : State W)
        → Ensures
            (λ _ t.
              (w : W) × Reprotected os ps s₀.ate.base beg (beg + num) (λ _ _. prot_read) s.world w
              × Reprotected os ps s₀.ate.base beg
                  (beg + num)
                  (λ i p. if (s.ate.flags i).dirty then prot_rw else p)
                  w
                  t.world
              × (t.ate ≡ s.ate))
            (λ _. ¬ IsReliable os)
            (finish os ps key false (s₀.ate.base + beg * ps) beg num s)
    unfolding finish
    finish-Reprotected s =
        bind (reprotect posix ps ps_pos s₀.ate.base beg num prot_read s) λ _ t (readable, same).
          mono
            (rewrite_dirty-Reprotected posix ps key ps_pos s₀.ate.base beg num beg t (omega arith))
            (λ _ u (again, same'). (
              t.world,
              readable,
              subst
                  (λ (a : Ate).
                    Reprotected os ps s₀.ate.base beg (beg + num)
                      (λ i p. if (a.flags i).dirty then prot_rw else p) t.world u.world)
                  same again,
              same' ∙ same,
            ))
            (λ _ x. x)

    close_and_finish :
        (s : State W) (u w₁ : W) (m : ℕ)
        → Reprotected os ps s₀.ate.base beg (beg + num) (λ _ _. prot_write) s₀.world u
        → Same os u w₁
        → Loading os ps key
            (record { ate = s₀.ate; world = w₁ })
            beg
            (beg + num)
            (beg + num)
            none
            m
            s
        → Ensures
            (λ r t. (c : ℕ) × (r ≡ as_int c) × SwappedIn os ps key s₀ beg num c t)
            (λ _. ¬ IsReliable os)
            ((do
              on_world (checked (os.close key))
              finish os ps key false (s₀.ate.base + beg * ps) beg num
              done (as_int m))
              s)
    close_and_finish s u w₁ m writable same loading =
        bind
          (lift-Ensures s (
            checked-Ensures {P = λ _ w. Same os s.world w} (os.close key) s.world
              (λ _. posix.close_same key s.world)
              (λ e r. ground (arith, r.close_true key s.world))))
          λ _ s₃ (same₃, e₃). bind (finish-Reprotected s₃) λ _ t (w, readable, again, e). returns (
            m,
            refl,
            finished posix ps key ps_pos t valid writable same loading same₃ readable
                (subst
                  (λ (a : Ate).
                    Reprotected os ps s₀.ate.base beg (beg + num)
                      (λ i p. if (a.flags i).dirty then prot_rw else p) w t.world)
                  e₃ again)
                (e ∙ e₃),
          )

    prepare-Reprotected :
        Ensures
          (λ a t.
            (a ≡ s₀.ate.base + beg * ps)
            × Reprotected os ps s₀.ate.base beg (beg + num) (λ _ _. prot_write) s₀.world t.world
            × (t.ate ≡ s₀.ate))
          (λ _. ¬ IsReliable os)
          (prepare os ps key false beg num s₀)
    unfolding prepare
    prepare-Reprotected =
        bind (reprotect posix ps ps_pos s₀.ate.base beg num prot_write s₀)
          λ _ t (writable, e). returns (refl, writable, e)

    swap_i_pages-SwappedIn :
        Ensures
          (λ r t. (c : ℕ) × (r ≡ as_int c) × SwappedIn os ps key s₀ beg num c t)
          (λ _. ¬ IsReliable os)
          (swap_i_pages os ps key false beg num s₀)
    unfolding swap_i_pages
    swap_i_pages-SwappedIn = bind prepare-Reprotected λ a s₁ (ea, writable, e₁).
        bind
          (lift-Ensures s₁ (
            checked-Ensures {P = λ _ w. Same os s₁.world w} os.snprintf s₁.world
              (λ _. posix.snprintf_same s₁.world)
              (λ e r. ground (arith, r.snprintf_true s₁.world))))
          λ _ s₂ (same₂, e₂).
            bind
              (lift-Ensures s₂ (
                checked-Ensures {P = λ _ w. Same os s₂.world w} (os.open_file key) s₂.world
                  (λ _. posix.open_same key s₂.world)
                  (λ e r. ground (arith, r.open_true key s₂.world))))
              λ _ s₃ (same₃, e₃). rw ea (
                bind
                  (swap_i_loop-Loading posix ps key ps_pos valid
                    (held s₁.world s₂.world s₃.world writable same₂ same₃) num beg none 0
                    (started posix ps key ps_pos s₀ s₃ beg valid (e₃ ∙ (e₂ ∙ e₁))) (omega arith)
                    room)
                  λ m s₄ loading.
                    close_and_finish s₄ s₁.world s₃.world m writable (Same-trans same₂ same₃)
                      loading)
      where
        held :
            (u v w : W)
            → Reprotected os ps s₀.ate.base beg (beg + num) (λ _ _. prot_write) s₀.world u
            → Same os u v
            → Same os v w
            → (i : ℕ) → i < s₀.ate.n_pages
            → to_read (s₀.ate.flags i) ≡ true
            → (i + 1) * ps ≤ os.size w key
        held u v w writable same same' i h wanted =
            omega (arith, on_disk i h wanted, writable.size key, same.size key, same'.size key)

  skips :
      (beg num : ℕ) (s : State W)
      → num ≤ s.ate.n_pages
      → beg ≤ s.ate.n_pages - num
      → (num ≡ 0) ⊎ ((s.ate.l_pages ≡ s.ate.n_pages) × (s.ate.c_pages ≡ s.ate.n_pages))
      → vmm_swap_i os ps key false beg num s ≡ done 0 s
  unfolding vmm_swap_i
  skips beg num s h k q = ground arith

  works :
      (beg num : ℕ) (s : State W)
      → num ≤ s.ate.n_pages
      → beg ≤ s.ate.n_pages - num
      → num ≢ 0
      → s.ate.l_pages ≢ s.ate.n_pages
      → vmm_swap_i os ps key false beg num s ≡ swap_i_pages os ps key false beg num s
  unfolding vmm_swap_i
  works beg num s h k q r = ground arith

  -- A resident page is charged.
  all_charged :
      (s : State W) → IsValid s.ate → s.ate.l_pages ≡ s.ate.n_pages → s.ate.c_pages ≡ s.ate.n_pages
  all_charged s valid e = omega (
    arith,
    valid.loaded,
    valid.charged,
    count_mono s.ate.n_pages is_resident is_charged s.ate.flags
        (λ i h r. ground (arith, valid.pages i h)),
    count-le s.ate.n_pages is_charged s.ate.flags,
  )

  -- The same with the count as an int.
  pub vmm_swap_i-Counted :
      (beg num : ℕ) (s₀ : State W)
      → IsValid s₀.ate
      → beg + num ≤ s₀.ate.n_pages
      → ((i : ℕ)
          → i < s₀.ate.n_pages
          → to_read (s₀.ate.flags i) ≡ true
          → (i + 1) * ps ≤ os.size s₀.world key)
      → Ensures
          (λ r t.
            (((num ≡ 0) ⊎ (s₀.ate.l_pages ≡ s₀.ate.n_pages)) × (r ≡ 0) × (t ≡ s₀))
            ⊎ ((c : ℕ) × (r ≡ as_int c) × SwappedIn os ps key s₀ beg num c t))
          (λ _. ¬ IsReliable os)
          (vmm_swap_i os ps key false beg num s₀)
  vmm_swap_i-Counted beg num s₀ valid room on_disk = elim (ℕ_discrete num 0) [
    | yes e ↦
        rw (skips beg num s₀ (omega arith) (omega arith) (inl e))
          (returns (inl (inl e, refl, refl)))
    | no ne ↦ elim (ℕ_discrete s₀.ate.l_pages s₀.ate.n_pages) [
      | yes e ↦
          rw (skips beg num s₀ (omega arith) (omega arith) (inr (e, all_charged s₀ valid e)))
            (returns (inl (inr e, refl, refl)))
      | no ne' ↦
          rw (works beg num s₀ (omega arith) (omega arith) ne ne') (
            mono (swap_i_pages-SwappedIn s₀ beg num valid room on_disk) (λ m t p. inr p) (λ _ x. x))
    ]
  ]

  -- `vmm_swap_i` without ghost pages, on pages of a valid entry of fewer than 2^31 pages whose file is
  -- long enough for them, never aborts or loops forever. It returns -1 only in a system where a call can
  -- return -1. Otherwise it returns the number of pages it read: it does nothing if the range is empty
  -- or all pages are resident, and makes exactly the range resident and charged if not.
  pub vmm_swap_i-SwappedIn :
      (beg num : ℕ) (s₀ : State W)
      → IsValid s₀.ate
      → beg + num ≤ s₀.ate.n_pages
      → ((i : ℕ)
          → i < s₀.ate.n_pages
          → to_read (s₀.ate.flags i) ≡ true
          → (i + 1) * ps ≤ os.size s₀.world key)
      → s₀.ate.n_pages < 2147483648
      → Ensures
          (λ m t.
            (((num ≡ 0) ⊎ (s₀.ate.l_pages ≡ s₀.ate.n_pages)) × (m ≡ 0) × (t ≡ s₀))
            ⊎ SwappedIn os ps key s₀ beg num m t)
          (λ _. ¬ IsReliable os)
          (vmm_swap_i os ps key false beg num s₀)
  vmm_swap_i-SwappedIn beg num s₀ valid room on_disk few =
      mono (vmm_swap_i-Counted beg num s₀ valid room on_disk)
        (λ r t. elim [
          | inl nothing ↦ inl nothing
          | inr (c, e, out) ↦
              inr (subst (λ m. SwappedIn os ps key s₀ beg num m t) (sym (e ∙ held c t out)) out)
        ])
        (λ _ x. x)
    where
      held : (c : ℕ) (t : State W) → SwappedIn os ps key s₀ beg num c t → as_int c ≡ c
      held c t out = ground (arith, few, out.read, count-le s₀.ate.n_pages to_read s₀.ate.flags)
