-- ===== src/Os/Ideal.antt =====
-- Concrete systems that never fail, to run the model on and to meet its hypotheses.
use sbma.Common.{
  ℕ, ◌+◌, ◌-◌, ◌≤◌, ◌≡◌, refl, true, some, arith, ltb, ◌==◌, if◌then◌else◌, within, update, subst,
}
use sbma.Os.{Os, Prot, Same, Wrote, Read, IsPosix, HasFullWrites, IsReliable}

pub record World : Type 0 where
  pub mem : ℕ → ℕ
  pub prot : ℕ → Prot
  pub file : ℕ → ℕ → ℕ
  pub size : ℕ → ℕ
  pub pos : ℕ → ℕ

-- The bytes that a read of `len` bytes at `pos` gets.
abbrev got_bytes : ℕ → ℕ → ℕ → ℕ
got_bytes pos size len = if ltb (size - pos) len then size - pos else len

abbrev pub read_world : ℕ → ℕ → ℕ → World → World
read_world k a m w = record w {
  mem = λ x. if within a (a + m) x then w.file k (w.pos k + (x - a)) else w.mem x;
  pos = update w.pos k (w.pos k + m);
}

abbrev pub write_world : ℕ → ℕ → ℕ → World → World
write_world k a m w = record w {
  file = λ j.
      if j == k
      then (λ x. if within (w.pos k) (w.pos k + m) x then w.mem (a + (x - w.pos k)) else w.file k x)
      else w.file j;
  size = update w.size k (if ltb (w.size k) (w.pos k + m) then w.pos k + m else w.size k);
  pos = update w.pos k (w.pos k + m);
}

-- The system whose write(2) takes `takes n` of `n` bytes; memory is given out at address 4096.
abbrev pub system : (ℕ → ℕ) → Os World
system takes = record {
  mem = λ w. w.mem;
  prot = λ w. w.prot;
  file = λ w. w.file;
  size = λ w. w.size;
  pos = λ w. w.pos;
  snprintf = λ w. (true, w);
  open_file = λ k w. (true, w);
  close = λ k w. (true, w);
  lseek = λ k off w. (true, record w { pos = update w.pos k off });
  read = λ k a n w. let m = got_bytes (w.pos k) (w.size k) n in (some m, read_world k a m w);
  write = λ k a n w. (some (takes n), write_world k a (takes n) w);
  mprotect = λ a n p w. (true, record w { prot = λ x. if within a (a + n) x then p else w.prot x });
  munlock = λ a n w. (true, w);
  dontneed = λ a n w. (true, record w { mem = λ x. if within a (a + n) x then 0 else w.mem x });
  mmap = λ n p w. (some 4096, w);
  munmap = λ a n w. (true, w);
  mremap = λ a n b w. (true, w);
}

module _ (takes : ℕ → ℕ) where
  unchanged :
      {v w : World}
      → w.mem ≡ v.mem
      → w.prot ≡ v.prot
      → w.file ≡ v.file
      → w.size ≡ v.size
      → Same (system takes) v w
  unchanged m p f s = record { mem = λ x. cc; prot = λ x. cc; file = λ k x. cc; size = λ k. cc }

  Read-system :
      (k a n : ℕ) (w : World)
      → Read
          (system takes)
          k
          a
          n
          (got_bytes (w.pos k) (w.size k) n)
          w
          ((system takes).read k a n w).1
  Read-system k a n w = record {
    some_bytes = ground arith;
    mem = λ x. refl;
    prot = λ x. refl;
    file = λ j x. refl;
    size = λ j. refl;
    moved = ground arith;
  }

  Wrote-system :
      (k a n m : ℕ) (w : World)
      → takes n ≡ m
      → m ≤ n
      → Wrote (system takes) k a n m w ((system takes).write k a n w).1
  Wrote-system k a n m w e h = record {
    some_bytes = omega arith;
    mem = λ x. refl;
    prot = λ x. refl;
    file = λ x. ground arith;
    others = λ j x ne. ground arith;
    size = ground arith;
    reached = ground arith;
    others_size = λ j ne. ground arith;
  }

  pub system-IsPosix : ((n : ℕ) → takes n ≤ n) → IsPosix (system takes)
  system-IsPosix few = record {
    snprintf_same = λ w. unchanged refl refl refl refl;
    open_same = λ k w. unchanged refl refl refl refl;
    close_same = λ k w. unchanged refl refl refl refl;
    lseek_same = λ k off w. unchanged refl refl refl refl;
    lseek_pos = λ k off w e. ground arith;
    munlock_same = λ a n w. unchanged refl refl refl refl;
    write_failed = λ k a n w e. absurd (cc e);
    write_some = λ k a n m w e. Wrote-system k a n m w (cc e) (ground (arith, few n, e));
    read_failed = λ k a n w e. absurd (cc e);
    read_some = λ k a n m w e.
        subst (λ j. Read (system takes) k a n j w ((system takes).read k a n w).1) (cc e)
          (Read-system k a n w);
    read_pos = λ k a n m w e pos lt. ground arith;
    mprotect_done = λ a n p w e. record {
      mem = λ x. refl;
      prot = λ x. refl;
      file = λ k x. refl;
      size = λ k. refl;
    };
    dontneed_done = λ a n w e. record {
      mem = λ x. refl;
      prot = λ x. refl;
      file = λ k x. refl;
      size = λ k. refl;
    };
  }

abbrev pub ideal : Os World
ideal = system (λ n. n)

-- At most two bytes at a time are written.
abbrev pub short : Os World
short = system (λ n. if ltb 2 n then 2 else n)

pub ideal-IsPosix : IsPosix ideal
ideal-IsPosix = system-IsPosix (λ n. n) (λ n. omega arith)

pub short-IsPosix : IsPosix short
short-IsPosix = system-IsPosix (λ n. if ltb 2 n then 2 else n) (λ n. ground arith)

pub ideal-HasFullWrites : HasFullWrites ideal
ideal-HasFullWrites k a n m w le e = cc

pub ideal-IsReliable : IsReliable ideal
ideal-IsReliable = record {
  snprintf_true = λ w. refl;
  open_true = λ k w. refl;
  close_true = λ k w. refl;
  lseek_true = λ k off w. refl;
  munlock_true = λ a n w. refl;
  write_ne = λ k a n w e. cc;
  read_ne = λ k a n w e. cc;
  mprotect_true = λ a n p w. refl;
  dontneed_true = λ a n w. refl;
}
