-- ===== src/Klmalloc/Heap/Obtained.antt =====
-- Where `kl_chunk_get` of src/klmalloc/klmalloc.c gets a block from, and what stays as it is.
use sbma.Common.{
  ℕ, ◌+◌, ◌%◌, ◌≡◌, refl, ap, false, ltb, within, if◌then◌else◌, [], ◌∷◌, Option, some, none,
  Option-cases, List, List-cases, subst, inl, inr, arith, ◌∙◌, sym,
}
use sbma.Klmalloc.Heap.{Sys, Heap, block_default_size, kl_block_alloc, some_block, whole}
use sbma.Klmalloc.Heap.Lists.{occurs}
use sbma.Klmalloc.Heap.Loose.{SameOutside}

module _ {W : Type 0} where
  -- Memory and lists are the same.
  pub record IsHeld (h h0 : Heap W) : Type 0 where
    pub words : h0.words ≡ h.words
    pub chunk_bin : h0.chunk_bin ≡ h.chunk_bin
    pub brick_bin : h0.brick_bin ≡ h.brick_bin
    pub enabled : h0.enabled ≡ h.enabled

  -- What does not belong to the block is the same.
  pub record IsElsewhere (block : ℕ) (h h' : Heap W) : Type 0 where
    pub words : (x : ℕ) → within block (block + 262128) x ≡ false → h'.words x ≡ h.words x
    pub lists :
        (x b : ℕ)
        → within (block + 8) (block + 262120) x ≡ false
        → occurs x (h'.chunk_bin b) ≡ occurs x (h.chunk_bin b)
    pub brick_bin : h'.brick_bin ≡ h.brick_bin
    pub enabled : h'.enabled ≡ h.enabled

  -- The block leaves the undesignated stack, or the system gives it.
  pub data Obtained (sys : Sys W) (block : ℕ) (h h' : Heap W) : Type 0 where
    reused :
        h.undes_bin ≡ block ∷ h'.undes_bin
        → h'.mem_total ≡ h.mem_total
        → h'.mem_max ≡ h.mem_max
        → h'.sys_ctr ≡ h.sys_ctr
        → h'.world ≡ h.world
        → Obtained sys block h h'
    allocated :
        h.undes_bin ≡ []
        → h'.undes_bin ≡ []
        → sys.alloc 262144 h.world ≡ (some block, h'.world)
        → h'.mem_total ≡ (h.mem_total + 262144) % 18446744073709551616
        → h'.mem_max ≡ (if ltb h.mem_max h'.mem_total then h'.mem_total else h.mem_max)
        → h'.sys_ctr ≡ (h.sys_ctr + 1) % 18446744073709551616
        → Obtained sys block h h'

  pub whole-IsElsewhere :
      (block : ℕ) (h h0 h' : Heap W)
      → IsHeld h h0
      → SameOutside (block + 8) (block + 262120) (whole block h0) h'
      → IsElsewhere block h h'
  whole-IsElsewhere block h h0 h' held same = record {
    words = λ x o. ground (arith, same.words x (ground (arith, o)), o) ∙ ap (λ f. f x) held.words;
    lists = λ x b o. same.lists x b o ∙ ap (λ f. occurs x (f b)) held.chunk_bin;
    brick_bin = same.brick_bin ∙ held.brick_bin;
    enabled = same.enabled ∙ held.enabled;
  }

  pub Obtained-same :
      (sys : Sys W) (block : ℕ) (h h0 h' : Heap W)
      → Obtained sys block h h0
      → SameOutside (block + 8) (block + 262120) (whole block h0) h'
      → Obtained sys block h h'
  Obtained-same sys block h h0 h' (reused u t m c w) same =
      reused (u ∙ ap (λ y. block ∷ y) (sym same.undes_bin)) (same.mem_total ∙ t) (same.mem_max ∙ m)
        (same.sys_ctr ∙ c) (same.world ∙ w)
  Obtained-same sys block h h0 h' (allocated u v a t m c) same =
      allocated u (same.undes_bin ∙ v) (a ∙ ap (λ y. (some block, y)) (sym same.world))
        (same.mem_total ∙ t)
        (same.mem_max ∙ m ∙ ap (λ y. if ltb h.mem_max y then y else h.mem_max) (sym same.mem_total))
        (same.sys_ctr ∙ c)

  module _ (sys : Sys W) (h : Heap W) where
    from_stack :
        (b : ℕ) (rest : List ℕ)
        → h.undes_bin ≡ b ∷ rest
        → some_block sys h ≡ (some b, record h { undes_bin = rest })
    unfolding some_block
    from_stack b rest e = rw e refl

    abbrev bought : W → Heap W
    bought w =
        let total = (h.mem_total + 262144) % 18446744073709551616 in
        record h {
          mem_total = total;
          mem_max = if ltb h.mem_max total then total else h.mem_max;
          sys_ctr = (h.sys_ctr + 1) % 18446744073709551616;
          world = w;
        }

    block_alloc :
        (r : Option ℕ)
        → (sys.alloc 262144 h.world).0 ≡ r
        → kl_block_alloc sys 262144 h ≡ (
          r,
          elim r [
            | none ↦ record h { world = (sys.alloc 262144 h.world).1 }
            | some block ↦ bought (sys.alloc 262144 h.world).1
          ],
        )
    unfolding kl_block_alloc
    block_alloc none found = rw (kl_block_alloc, found) refl
    block_alloc (some block) found = rw (kl_block_alloc, found) refl

    from_system :
        (r : Option ℕ)
        → h.undes_bin ≡ []
        → (sys.alloc 262144 h.world).0 ≡ r
        → some_block sys h ≡ (
          r,
          elim r [
            | none ↦ record h { world = (sys.alloc 262144 h.world).1 }
            | some block ↦ bought (sys.alloc 262144 h.world).1
          ],
        )
    unfolding some_block
    from_system r e found =
        ap
          (λ (l : List ℕ). elim l [
            | block ∷ rest ↦ (some block, record h { undes_bin = rest })
            | [] ↦ kl_block_alloc sys block_default_size h
          ])
          e
        ∙ block_alloc r found

    pub some_block-Obtained :
        (h0 : Heap W) (block : ℕ)
        → some_block sys h ≡ (some block, h0)
        → IsHeld h h0 × Obtained sys block h h0
    some_block-Obtained h0 block found = elim (List-cases h.undes_bin) [
      | inr (b, rest, e) ↦ of_stack b rest e (sym (from_stack b rest e) ∙ found)
      | inl e ↦ elim (Option-cases (sys.alloc 262144 h.world).0) [
        | inl r ↦ absurd (no_block (sym (from_system none e r) ∙ found))
        | inr (b, r) ↦ of_system b e r (sym (from_system (some b) e r) ∙ found)
      ]
    ]
      where
        no_block : {h1 : Heap W} → ¬ (◌≡◌ {A = Option ℕ × Heap W} (none, h1) (some block, h0))
        no_block q =
            absurd
              (subst (λ (y : Option ℕ × Heap W). elim y.0 [ none ↦ Unit {0} | some a ↦ ⊥ ]) q tt)

        same_block :
            {b : ℕ} {h1 : Heap W}
            → ◌≡◌ {A = Option ℕ × Heap W} (some b, h1) (some block, h0)
            → b ≡ block
        same_block {b} q = ap (λ (y : Option ℕ × Heap W). elim y.0 [ none ↦ b | some a ↦ a ]) q

        of_stack :
            (b : ℕ) (rest : List ℕ)
            → h.undes_bin ≡ b ∷ rest
            → ◌≡◌ {A = Option ℕ × Heap W} (some b, record h { undes_bin = rest }) (some block, h0)
            → IsHeld h h0 × Obtained sys block h h0
        of_stack b rest e q = (
          record {
            words = ap (λ (y : Option ℕ × Heap W). y.1.words) (sym q);
            chunk_bin = ap (λ (y : Option ℕ × Heap W). y.1.chunk_bin) (sym q);
            brick_bin = ap (λ (y : Option ℕ × Heap W). y.1.brick_bin) (sym q);
            enabled = ap (λ (y : Option ℕ × Heap W). y.1.enabled) (sym q);
          },
          reused
              (e
                ∙ ap (λ x. x ∷ rest) (same_block q)
                ∙ ap (λ (y : Option ℕ × Heap W). block ∷ y.1.undes_bin) q)
              (ap (λ (y : Option ℕ × Heap W). y.1.mem_total) (sym q))
              (ap (λ (y : Option ℕ × Heap W). y.1.mem_max) (sym q))
              (ap (λ (y : Option ℕ × Heap W). y.1.sys_ctr) (sym q))
              (ap (λ (y : Option ℕ × Heap W). y.1.world) (sym q)),
        )

        of_system :
            (b : ℕ)
            → h.undes_bin ≡ []
            → (sys.alloc 262144 h.world).0 ≡ some b
            → ◌≡◌ {A = Option ℕ × Heap W}
                (some b, bought (sys.alloc 262144 h.world).1)
                (some block, h0)
            → IsHeld h h0 × Obtained sys block h h0
        of_system b e r q = (
          record {
            words = ap (λ (y : Option ℕ × Heap W). y.1.words) (sym q);
            chunk_bin = ap (λ (y : Option ℕ × Heap W). y.1.chunk_bin) (sym q);
            brick_bin = ap (λ (y : Option ℕ × Heap W). y.1.brick_bin) (sym q);
            enabled = ap (λ (y : Option ℕ × Heap W). y.1.enabled) (sym q);
          },
          allocated e (ap (λ (y : Option ℕ × Heap W). y.1.undes_bin) (sym q) ∙ e)
              (ap (λ (x : Option ℕ). (x, (sys.alloc 262144 h.world).1)) r
                ∙ ap (λ (y : Option ℕ × Heap W). (y.0, y.1.world)) q)
              (ap (λ (y : Option ℕ × Heap W). y.1.mem_total) (sym q))
              (ap (λ (y : Option ℕ × Heap W). y.1.mem_max) (sym q)
                ∙ ap
                    (λ (y : Option ℕ × Heap W).
                      if ltb h.mem_max y.1.mem_total then y.1.mem_total else h.mem_max)
                    q)
              (ap (λ (y : Option ℕ × Heap W). y.1.sys_ctr) (sym q)),
        )
