-- ===== src/Api/All/Passed.antt =====
-- What the loop over the entries does, when its body does something to each.
use sbma.Common.{Every, every_cons, ℕ, ◌+◌, List, [], ◌∷◌, Cmd, Ensures, returns, fails, Run, done}
use sbma.Mmu.{Ate}
use sbma.Ipc.{Ipc}
use sbma.Api.Process.{Process}
use sbma.Api.All.{AllEntries, proceed, visit}

-- The sum of a count over the entries.
unfoldable pub total : (Ate → ℕ) → List (ℕ × Ate) → ℕ
total f [] = 0
total f ((key, ate) ∷ rest) = f ate + total f rest

-- `R` relates what is added up, and an entry, before and after its visit.
pub data Passed {A : Type 0} (R : A → Ate → A → Ate → Type 0)
    : A → List (ℕ × Ate) → A → List (ℕ × Ate) → Type 0 where
  passed_nil : {a : A} → Passed R a [] a []
  passed_cons :
      {a b c : A} {key : ℕ} {ate ate' : Ate} {rest rest' : List (ℕ × Ate)}
      → R a ate b ate'
      → Passed R b rest c rest'
      → Passed R a ((key, ate) ∷ rest) c ((key, ate') ∷ rest')

module _ {W A F : Type 0} (I : W → Ipc → Type 0) {R : A → Ate → A → Ate → Type 0} where
  proceed-Ensures :
      (a : A) (key : ℕ) (ate : Ate) (rest : List (ℕ × Ate)) (r : Run (Process W) A)
      (next : A → W → Ipc → Run (AllEntries W) A)
      → Ensures (λ b t. R a ate b t.vm.ate × I t.vm.world t.ipc) (λ _. F) r
      → ((b : A) (w : W) (i : Ipc)
          → I w i
          → Ensures (λ c u. Passed R b rest c u.entries × I u.world u.ipc) (λ _. F) (next b w i))
      → Ensures
          (λ c u. Passed R a ((key, ate) ∷ rest) c u.entries × I u.world u.ipc)
          (λ _. F)
          (proceed key rest r next)
  unfolding proceed
  proceed-Ensures a key ate rest _ next (returns {a = b} {s = t} (related, inv)) others =
      added (next b t.vm.world t.ipc) (others b t.vm.world t.ipc inv)
    where
      added :
          (q : Run (AllEntries W) A)
          → Ensures (λ c u. Passed R b rest c u.entries × I u.world u.ipc) (λ _. F) q
          → Ensures
              (λ c u. Passed R a ((key, ate) ∷ rest) c u.entries × I u.world u.ipc)
              (λ _. F)
              (proceed key rest (done b t) (λ _ _ _. q))
      added _ (returns (passed, inv')) = returns (passed_cons related passed, inv')
      added _ (fails e) = fails e
  proceed-Ensures a key ate rest _ next (fails e) others = fails e

  pub visit-Passed :
      {Pre : ℕ × Ate → Type 0} (body : ℕ → A → Cmd (Process W) A)
      → ((key : ℕ) (a : A) (s : Process W)
          → Pre (key, s.vm.ate)
          → I s.vm.world s.ipc
          → Ensures (λ b t. R a s.vm.ate b t.vm.ate × I t.vm.world t.ipc) (λ _. F) (body key a s))
      → (a : A) (entries : List (ℕ × Ate)) (w : W) (i : Ipc) → Every Pre entries
      → I w i
      → Ensures
          (λ b t. Passed R a entries b t.entries × I t.world t.ipc)
          (λ _. F)
          (visit body a entries w i)
  unfolding visit
  visit-Passed body step a [] w i every inv = returns (passed_nil, inv)
  visit-Passed body step a ((key, ate) ∷ rest) w i (every_cons p ps) inv =
      proceed-Ensures a key ate rest
        (body key a (record { vm = record { ate = ate; world = w }; ipc = i }))
        (λ b w' i'. visit body b rest w' i')
        (step key a (record { vm = record { ate = ate; world = w }; ipc = i }) p inv)
        (λ b w' i' inv'. visit-Passed body step b rest w' i' ps inv')
