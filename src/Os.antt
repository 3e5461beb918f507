-- ===== src/Os.antt =====
-- The operating system as the library uses it: anonymous memory, its protection, and swap files.
-- `W` is the state of the system, of which `mem`, `prot`, `file`, `size` and `pos` are observed.
-- A call returns the next state; a `false` or a `none` is a return of -1. An allocation's file is
-- opened and closed within one function, so its descriptor is named by the allocation's address.
pub mod Ideal
use sbma.Common.{
  ℕ, ◌+◌, ◌-◌, ◌≤◌, ◌<◌, ◌≡◌, ◌≢◌, ◌∙◌, Bool, true, false, Option, none, some, if◌then◌else◌,
  within,
}

pub data Prot : Type 0 where
  prot_none prot_read prot_write prot_rw : Prot

pub record Os (W : Type 0) : Type 0 where
  pub mem : W → ℕ → ℕ
  pub prot : W → ℕ → Prot
  pub file : W → ℕ → ℕ → ℕ
  pub size : W → ℕ → ℕ
  pub pos : W → ℕ → ℕ
  pub snprintf : W → Bool × W
  pub open_file : ℕ → W → Bool × W
  pub close : ℕ → W → Bool × W
  -- lseek(fd, off, SEEK_SET)
  pub lseek : ℕ → ℕ → W → Bool × W
  -- read(fd, buf, len) and write(fd, buf, len)
  pub read : ℕ → ℕ → ℕ → W → Option ℕ × W
  pub write : ℕ → ℕ → ℕ → W → Option ℕ × W
  -- mprotect(addr, len, prot)
  pub mprotect : ℕ → ℕ → Prot → W → Bool × W
  pub munlock : ℕ → ℕ → W → Bool × W
  -- madvise(addr, len, MADV_DONTNEED)
  pub dontneed : ℕ → ℕ → W → Bool × W
  -- mmap(NULL, len, prot, SBMA_MMAP_FLAG, -1, 0), munmap(addr, len), and mremap(from, len, len,
  -- MREMAP_MAYMOVE|MREMAP_FIXED, to)
  pub mmap : ℕ → Prot → W → Option ℕ × W
  pub munmap : ℕ → ℕ → W → Bool × W
  pub mremap : ℕ → ℕ → ℕ → W → Bool × W

-- What is documented of the calls, in a system that keeps its promises.
module _ {W : Type 0} (os : Os W) where
  -- Memory, protection and files are as before.
  pub record Same (v w : W) : Type 0 where
    pub mem : (x : ℕ) → os.mem w x ≡ os.mem v x
    pub prot : (x : ℕ) → os.prot w x ≡ os.prot v x
    pub file : (k x : ℕ) → os.file w k x ≡ os.file v k x
    pub size : (k : ℕ) → os.size w k ≡ os.size v k

  -- mprotect(2) on the `len` bytes at `a`.
  pub record Protected (a len : ℕ) (p : Prot) (v w : W) : Type 0 where
    pub mem : (x : ℕ) → os.mem w x ≡ os.mem v x
    pub prot : (x : ℕ) → os.prot w x ≡ (if within a (a + len) x then p else os.prot v x)
    pub file : (k x : ℕ) → os.file w k x ≡ os.file v k x
    pub size : (k : ℕ) → os.size w k ≡ os.size v k

  -- write(2) of `len` bytes at `a`: the first `m` of them go to the file at its offset.
  pub record Wrote (k a len m : ℕ) (v w : W) : Type 0 where
    pub some_bytes : m ≤ len
    pub mem : (x : ℕ) → os.mem w x ≡ os.mem v x
    pub prot : (x : ℕ) → os.prot w x ≡ os.prot v x
    pub file :
        (x : ℕ)
        → os.file w k x ≡ (
            if within (os.pos v k) (os.pos v k + m) x
            then os.mem v (a + (x - os.pos v k))
            else os.file v k x)
    pub others : (j x : ℕ) → j ≢ k → os.file w j x ≡ os.file v j x
    pub size : os.size v k ≤ os.size w k
    pub reached : os.pos v k + m ≤ os.size w k
    pub others_size : (j : ℕ) → j ≢ k → os.size w j ≡ os.size v j

  -- read(2) of `len` bytes to `a`: `m` bytes come from the file at its offset.
  pub record Read (k a len m : ℕ) (v w : W) : Type 0 where
    pub some_bytes : m ≤ len
    pub mem :
        (x : ℕ)
        → os.mem w x
          ≡ (if within a (a + m) x then os.file v k (os.pos v k + (x - a)) else os.mem v x)
    pub prot : (x : ℕ) → os.prot w x ≡ os.prot v x
    pub file : (j x : ℕ) → os.file w j x ≡ os.file v j x
    pub size : (j : ℕ) → os.size w j ≡ os.size v j
    pub moved : os.pos w k ≡ os.pos v k + m

  -- madvise(2) with MADV_DONTNEED on private anonymous memory: it reads as zero afterwards.
  pub record Dropped (a len : ℕ) (v w : W) : Type 0 where
    pub mem : (x : ℕ) → os.mem w x ≡ (if within a (a + len) x then 0 else os.mem v x)
    pub prot : (x : ℕ) → os.prot w x ≡ os.prot v x
    pub file : (k x : ℕ) → os.file w k x ≡ os.file v k x
    pub size : (k : ℕ) → os.size w k ≡ os.size v k

  -- A call that succeeds does what its manual page says. Nothing is said of mprotect(2) and madvise(2) when they
  -- return -1.
  pub record IsPosix : Type 0 where
    pub snprintf_same : (w : W) → Same w (os.snprintf w).1
    pub open_same : (k : ℕ) (w : W) → Same w (os.open_file k w).1
    pub close_same : (k : ℕ) (w : W) → Same w (os.close k w).1
    pub lseek_same : (k off : ℕ) (w : W) → Same w (os.lseek k off w).1
    pub lseek_pos :
        (k off : ℕ) (w : W) → (os.lseek k off w).0 ≡ true → os.pos (os.lseek k off w).1 k ≡ off
    pub munlock_same : (a n : ℕ) (w : W) → Same w (os.munlock a n w).1
    pub write_failed :
        (k a n : ℕ) (w : W) → (os.write k a n w).0 ≡ none → Same w (os.write k a n w).1
    pub write_some :
        (k a n m : ℕ) (w : W) → (os.write k a n w).0 ≡ some m → Wrote k a n m w (os.write k a n w).1
    pub read_failed : (k a n : ℕ) (w : W) → (os.read k a n w).0 ≡ none → Same w (os.read k a n w).1
    pub read_some :
        (k a n m : ℕ) (w : W) → (os.read k a n w).0 ≡ some m → Read k a n m w (os.read k a n w).1
    -- Before the end of the file read(2) returns at least one byte.
    pub read_pos :
        (k a n m : ℕ) (w : W)
        → (os.read k a n w).0 ≡ some m
        → 0 < n
        → os.pos w k < os.size w k
        → 0 < m
    pub mprotect_done :
        (a n : ℕ) (p : Prot) (w : W)
        → (os.mprotect a n p w).0 ≡ true
        → Protected a n p w (os.mprotect a n p w).1
    pub dontneed_done :
        (a n : ℕ) (w : W) → (os.dontneed a n w).0 ≡ true → Dropped a n w (os.dontneed a n w).1

  -- No write(2) of at most 0x7ffff000 bytes is short. The manual page does not promise it: a file system that is
  -- full, a limit or a signal can cut a write short. It is a condition on the system under which
  -- `vmm_write`, which does not write what is left, does what it means to.
  abbrev pub HasFullWrites : Type 0
  HasFullWrites = (k a n m : ℕ) (w : W) → n ≤ 2147479552 → (os.write k a n w).0 ≡ some m → m ≡ n

  -- No call returns -1.
  pub record IsReliable : Type 0 where
    pub snprintf_true : (w : W) → (os.snprintf w).0 ≡ true
    pub open_true : (k : ℕ) (w : W) → (os.open_file k w).0 ≡ true
    pub close_true : (k : ℕ) (w : W) → (os.close k w).0 ≡ true
    pub lseek_true : (k off : ℕ) (w : W) → (os.lseek k off w).0 ≡ true
    pub munlock_true : (a n : ℕ) (w : W) → (os.munlock a n w).0 ≡ true
    pub write_ne : (k a n : ℕ) (w : W) → (os.write k a n w).0 ≢ none
    pub read_ne : (k a n : ℕ) (w : W) → (os.read k a n w).0 ≢ none
    pub mprotect_true : (a n : ℕ) (p : Prot) (w : W) → (os.mprotect a n p w).0 ≡ true
    pub dontneed_true : (a n : ℕ) (w : W) → (os.dontneed a n w).0 ≡ true

module _ {W : Type 0} {os : Os W} where
  pub Same-trans : {u v w : W} → Same os u v → Same os v w → Same os u w
  Same-trans p q = record {
    mem = λ x. q.mem x ∙ p.mem x;
    prot = λ x. q.prot x ∙ p.prot x;
    file = λ k x. q.file k x ∙ p.file k x;
    size = λ k. q.size k ∙ p.size k;
  }
