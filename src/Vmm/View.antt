-- ===== src/Vmm/View.antt =====
-- What the application sees of its memory, wherever the runtime keeps it.
use sbma.Common.{ℕ, ◌+◌, ◌*◌, ◌/◌, ◌≤◌, ◌<◌, ◌≡◌, true, false, if◌then◌else◌}
use sbma.Mmu.{is_resident, is_dirty}
use sbma.Os.{Os}
use sbma.Vmm.{State}

module _ {W : Type 0} (os : Os W) (page_size key : ℕ) where
  -- What a read fault brings in: the file, or zeros for a page that was never written out.
  abbrev pub backing : State W → ℕ → ℕ
  backing s x = if (s.ate.flags (x / page_size)).zfill then os.file s.world key x else 0

  -- The byte `x` of the allocation.
  abbrev pub view : State W → ℕ → ℕ
  view s x =
      if is_resident (s.ate.flags (x / page_size))
      then os.mem s.world (s.ate.base + x)
      else backing s x

  pub record IsCoherent (s : State W) : Type 0 where
    -- A clean page that is resident can be dropped.
    pub clean :
        (x : ℕ)
        → x / page_size < s.ate.n_pages
        → is_resident (s.ate.flags (x / page_size)) ≡ true
        → is_dirty (s.ate.flags (x / page_size)) ≡ false
        → os.mem s.world (s.ate.base + x) ≡ backing s x
    -- The file is long enough for the pages that it holds.
    pub on_disk :
        (i : ℕ)
        → i < s.ate.n_pages
        → (s.ate.flags i).zfill ≡ true
        → (i + 1) * page_size ≤ os.size s.world key
    -- The memory of a page that is not resident is zero.
    pub absent :
        (x : ℕ)
        → x / page_size < s.ate.n_pages
        → is_resident (s.ate.flags (x / page_size)) ≡ false
        → os.mem s.world (s.ate.base + x) ≡ 0
