-- ===== src/Mmu.antt =====
-- src/include/mmu.h: the page flags and the allocation table entries.
pub mod Valid
pub mod Table
use sbma.Common.{ℕ, ◌+◌, ◌*◌, Bool, true, false, not, ◌&&◌, ◌||◌, bit}

-- The bits of one flag byte, `enum mmu_status_code`: a set `rsdnt` means that the page is not
-- resident, and a set `chrgd` that it is not charged.
pub record Flags : Type 0 where
  pub zfill : Bool
  pub rsdnt : Bool
  pub dirty : Bool
  pub chrgd : Bool

abbrev pub is_resident : Flags → Bool
is_resident f = not f.rsdnt

abbrev pub is_charged : Flags → Bool
is_charged f = not f.chrgd

abbrev pub is_dirty : Flags → Bool
is_dirty f = f.dirty

-- `struct ate`, less the list pointers (they stand in `Mmu.Table`) and the lock.
pub record Ate : Type 0 where
  pub n_pages : ℕ
  pub l_pages : ℕ
  pub c_pages : ℕ
  pub d_pages : ℕ
  pub base : ℕ
  pub flags : ℕ → Flags

-- The page after `vmm_swap_o`: neither resident, dirty nor charged, and on disk if it was dirty.
abbrev pub evicted : Flags → Flags
evicted f = record { zfill = f.zfill || f.dirty; rsdnt = true; dirty = false; chrgd = true }

-- The page after `vmm_swap_i`: resident and charged.
abbrev pub loaded : Flags → Flags
loaded f = record f { rsdnt = false; chrgd = false }
