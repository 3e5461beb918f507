-- ===== src/Vmm/Io/Loaded.antt =====
-- `vmm_read` fills its buffer from the file, however short each read(2) is.
use sbma.Common.{
  ℕ, zero, suc, ◌+◌, ◌-◌, ◌≤◌, ◌<◌, ◌≡◌, inl, inr, none, some, arith, ltb, if◌then◌else◌, within,
  Bool-cases, ltb→lt, ◌∙◌, Option-cases, failed, pure, Ensures, returns, fails, mono, bind,
  checked-Ensures,
}
use sbma.Os.{Os, Same, Read, IsPosix, IsReliable}
use sbma.Vmm.Io.{read_rounds, vmm_read}

module _ {W : Type 0} (os : Os W) where
  -- The `len` bytes of the file at `off` are at `buf`.
  pub record Loaded (fd buf len off : ℕ) (v w : W) : Type 0 where
    pub mem :
        (x : ℕ)
        → os.mem w x
          ≡ (if within buf (buf + len) x then os.file v fd (off + (x - buf)) else os.mem v x)
    pub prot : (x : ℕ) → os.prot w x ≡ os.prot v x
    pub file : (k x : ℕ) → os.file w k x ≡ os.file v k x
    pub size : (k : ℕ) → os.size w k ≡ os.size v k

module _ {W : Type 0} (os : Os W) where
  read_round :
      (k fd buf len n : ℕ) (v : W)
      → (os.read fd buf len v).0 ≡ some n
      → 0 < n
      → read_rounds os (suc k) fd buf len v
        ≡ (if ltb 0 (len - n) then read_rounds os k fd (buf + n) (len - n) else pure tt)
            (os.read fd buf len v).1
  unfolding read_rounds
  read_round k fd buf len n v e pos = ground arith

  read_round_failed :
      (k fd buf len : ℕ) (v : W)
      → (os.read fd buf len v).0 ≡ none
      → read_rounds os (suc k) fd buf len v ≡ failed (os.read fd buf len v).1
  unfolding read_rounds
  read_round_failed k fd buf len v e = ground arith

  Loaded-Read :
      {fd buf len n off : ℕ} {u v w : W}
      → os.pos u fd ≡ off
      → Read os fd buf len n u v
      → Loaded os fd (buf + n) (len - n) (off + n) v w
      → Loaded os fd buf len off u w
  Loaded-Read {fd} {buf} {len} {n} {off} at got rest = record {
    mem = λ x.
        ground
          (arith, rest.mem x, got.mem x, got.file fd (off + n + (x - (buf + n))), got.some_bytes);
    prot = λ x. rest.prot x ∙ got.prot x;
    file = λ k x. rest.file k x ∙ got.file k x;
    size = λ k. rest.size k ∙ got.size k;
  }

  Loaded-whole :
      {fd buf len n off : ℕ} {u v : W}
      → os.pos u fd ≡ off
      → Read os fd buf len n u v
      → len ≤ n
      → Loaded os fd buf len off u v
  Loaded-whole {fd} {buf} {len} {n} {off} at got all = record {
    mem = λ x. ground (arith, got.mem x, got.some_bytes);
    prot = got.prot;
    file = got.file;
    size = got.size;
  }

  module _ (posix : IsPosix os) where
    read_rounds-Loaded :
        (k fd buf len off : ℕ) (v : W)
        → os.pos v fd ≡ off
        → off + len ≤ os.size v fd
        → 0 < len
        → len < k
        → Ensures
            (λ _. Loaded os fd buf len off v)
            (λ _. ¬ IsReliable os)
            (read_rounds os k fd buf len v)
    read_rounds-Loaded zero fd buf len off v at room pos fuel = absurd (omega arith)
    read_rounds-Loaded (suc k) fd buf len off v at room pos fuel =
        elim (Option-cases (os.read fd buf len v).0) [
          | inl e ↦ rw (read_round_failed k fd buf len v e) (fails (λ r. r.read_ne fd buf len v e))
          | inr (n, e) ↦
              let w = (os.read fd buf len v).1 in
              let got = posix.read_some fd buf len n v e in
              let some_read = posix.read_pos fd buf len n v e pos (omega arith) in
              rw (read_round k fd buf len n v e some_read) (elim (Bool-cases (ltb 0 (len - n))) [
                | inl more ↦ rw more (
                    mono
                      (read_rounds-Loaded k fd (buf + n) (len - n) (off + n) w
                        (omega (arith, got.moved)) (omega (arith, got.size fd, ltb→lt _ _ more))
                        (ltb→lt _ _ more) (omega arith))
                      (λ _ u rest. Loaded-Read at got rest) (λ _ x. x))
                | inr over ↦ rw over (returns (Loaded-whole at got (ground arith)))
              ])
        ]

    -- `vmm_read` of a range that the file holds returns -1 only where a call can, and otherwise the
    -- whole range is in the buffer, with all other memory, protection and files as before.
    pub vmm_read-Loaded :
        (fd buf len off : ℕ) (v : W)
        → 0 < len
        → off + len ≤ os.size v fd
        → Ensures
            (λ _. Loaded os fd buf len off v)
            (λ _. ¬ IsReliable os)
            (vmm_read os fd buf len off v)
    unfolding vmm_read
    vmm_read-Loaded fd buf len off v pos room =
        bind
          (checked-Ensures {P = λ _ w. Same os v w × (os.pos w fd ≡ off)} (os.lseek fd off) v
            (λ e. (posix.lseek_same fd off v, posix.lseek_pos fd off v e))
            (λ e r. ground (arith, r.lseek_true fd off v)))
          λ _ w (same, at).
            mono
              (read_rounds-Loaded (suc len) fd buf len off w at (omega (arith, same.size fd)) pos
                (omega arith))
              (λ _ u l. record {
                mem = λ x. ground (arith, l.mem x, same.mem x, same.file fd (off + (x - buf)));
                prot = λ x. l.prot x ∙ same.prot x;
                file = λ k x. l.file k x ∙ same.file k x;
                size = λ k. l.size k ∙ same.size k;
              })
              (λ _ x. x)
