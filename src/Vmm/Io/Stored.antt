-- ===== src/Vmm/Io/Stored.antt =====
-- `vmm_write` puts its buffer into the file if write(2) is never short, and loses bytes if it is.
use sbma.Common.{
  ℕ, suc, ◌+◌, ◌-◌, ◌≤◌, ◌<◌, ◌≡◌, inl, inr, true, none, some, arith, if◌then◌else◌, within, ◌≢◌,
  ◌∙◌, subst, Option-cases, failed, done, Ensures, returns, fails, mono, bind, checked-Ensures,
}
use sbma.Os.{Os, Same, Wrote, IsPosix, HasFullWrites, IsReliable}
use sbma.Vmm.Io.{write_rounds, vmm_write}

module _ {W : Type 0} (os : Os W) where
  -- The `len` bytes at `buf` are in the file at `off`.
  pub record Stored (fd buf len off : ℕ) (v w : W) : Type 0 where
    pub mem : (x : ℕ) → os.mem w x ≡ os.mem v x
    pub prot : (x : ℕ) → os.prot w x ≡ os.prot v x
    pub file :
        (x : ℕ)
        → os.file w fd x
          ≡ (if within off (off + len) x then os.mem v (buf + (x - off)) else os.file v fd x)
    pub others : (j x : ℕ) → j ≢ fd → os.file w j x ≡ os.file v j x
    pub size : os.size v fd ≤ os.size w fd
    pub reached : off + len ≤ os.size w fd
    pub others_size : (j : ℕ) → j ≢ fd → os.size w j ≡ os.size v j

module _ {W : Type 0} (os : Os W) where
  -- Whatever write(2) took, there is no second round.
  write_round :
      (k fd buf len n : ℕ) (v : W)
      → (os.write fd buf len v).0 ≡ some n
      → 0 < n
      → write_rounds os (suc k) fd buf len v ≡ done tt (os.write fd buf len v).1
  unfolding write_rounds
  write_round k fd buf len n v e pos = ground arith

  write_round_failed :
      (k fd buf len : ℕ) (v : W)
      → (os.write fd buf len v).0 ≡ none
      → write_rounds os (suc k) fd buf len v ≡ failed (os.write fd buf len v).1
  unfolding write_rounds
  write_round_failed k fd buf len v e = ground arith

  Stored-Wrote :
      {fd buf len n off : ℕ} {v w u : W}
      → Same os v w
      → os.pos w fd ≡ off
      → Wrote os fd buf len n w u
      → Stored os fd buf n off v u
  Stored-Wrote {fd} {buf} {len} {n} {off} same at put = record {
    mem = λ x. put.mem x ∙ same.mem x;
    prot = λ x. put.prot x ∙ same.prot x;
    file = λ x. ground (arith, put.file x, same.file fd x, same.mem (buf + (x - off)));
    others = λ j x ne. put.others j x ne ∙ same.file j x;
    size = omega (arith, put.size, same.size fd);
    reached = omega (arith, put.reached);
    others_size = λ j ne. put.others_size j ne ∙ same.size j;
  }

  module _ (posix : IsPosix os) where
    vmm_write_cases :
        (fd buf len off : ℕ) (v : W)
        → 0 < len
        → ((n : ℕ) (w : W) → (os.write fd buf len w).0 ≡ some n → 0 < n)
        → Ensures
            (λ _ u.
              (n : ℕ) × (w : W) × ((os.write fd buf len w).0 ≡ some n) × Stored os fd buf n off v u)
            (λ _. ¬ IsReliable os)
            (vmm_write os fd buf len off v)
    unfolding vmm_write
    vmm_write_cases fd buf len off v pos more =
        bind
          (checked-Ensures {P = λ _ w. Same os v w × (os.pos w fd ≡ off)} (os.lseek fd off) v
            (λ e. (posix.lseek_same fd off v, posix.lseek_pos fd off v e))
            (λ e r. ground (arith, r.lseek_true fd off v)))
          λ _ w (same, at). elim (Option-cases (os.write fd buf len w).0) [
            | inl e ↦
                rw (write_round_failed len fd buf len w e) (fails (λ r. r.write_ne fd buf len w e))
            | inr (n, e) ↦
                rw (write_round len fd buf len n w e (more n w e))
                  (returns (n, w, e, Stored-Wrote same at (posix.write_some fd buf len n w e)))
          ]

    -- With full writes, and at most 0x7ffff000 bytes, `vmm_write` returns -1 only where a call can, and
    -- otherwise the whole buffer is in the file, which has at least that size, and all else is as before.
    pub vmm_write-Stored :
        (full : HasFullWrites os) (fd buf len off : ℕ) (v : W)
        → 0 < len
        → len ≤ 2147479552
        → Ensures
            (λ _. Stored os fd buf len off v)
            (λ _. ¬ IsReliable os)
            (vmm_write os fd buf len off v)
    vmm_write-Stored full fd buf len off v pos le =
        mono
          (vmm_write_cases fd buf len off v pos (λ n w e. omega (arith, full fd buf len n w le e)))
          (λ _ u (n, w, e, stored).
            subst (λ m. Stored os fd buf m off v u) (full fd buf len n w le e) stored)
          (λ _ x. x)

    -- A write(2) that takes only the first `n` bytes ends the loop, since the code subtracts `len` from
    -- itself: `vmm_write` returns 0, and the file keeps its old bytes behind those `n`.
    pub vmm_write_short :
        (fd buf len off n : ℕ) (v : W)
        → (os.lseek fd off v).0 ≡ true
        → (os.write fd buf len (os.lseek fd off v).1).0 ≡ some n
        → 0 < n
        → (u : W) × (vmm_write os fd buf len off v ≡ done tt u)
          × ((x : ℕ) → off + n ≤ x → os.file u fd x ≡ os.file v fd x)
    unfolding vmm_write
    vmm_write_short fd buf len off n v sought e pos =
        let w = (os.lseek fd off v).1 in
        let put = posix.write_some fd buf len n w e in
        let same = posix.lseek_same fd off v in
        let at = posix.lseek_pos fd off v sought in
        (
          (os.write fd buf len w).1,
          ground (arith, write_round len fd buf len n w e),
          λ x h. ground (arith, put.file x, same.file fd x),
        )
