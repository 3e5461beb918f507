-- ===== src/Mmu/Valid.antt =====
-- When an allocation table entry is consistent: what `sbma_mcheck` of src/api/mcheck.c compares under
-- VMM_EXTRA, and how the bits of one page go together.
use sbma.Common.{ℕ, ◌*◌, ◌≤◌, ◌<◌, ◌≡◌, Bool, true, not, ◌&&◌, ◌||◌, count}
use sbma.Mmu.{Flags, Ate, is_resident, is_charged, is_dirty}

-- A resident page is charged, and a dirty page is resident.
abbrev pub page_ok : Flags → Bool
page_ok f = (f.rsdnt || not f.chrgd) && (not f.dirty || not f.rsdnt)

-- The pages can be written with one write(2), of at most 0x7ffff000 bytes.
abbrev pub FitsWrite : ℕ → Ate → Type 0
FitsWrite page_size a = a.n_pages * page_size ≤ 2147479552

pub record IsValid (a : Ate) : Type 0 where
  pub loaded : count a.n_pages is_resident a.flags ≡ a.l_pages
  pub charged : count a.n_pages is_charged a.flags ≡ a.c_pages
  pub dirtied : count a.n_pages is_dirty a.flags ≡ a.d_pages
  pub pages : (i : ℕ) → i < a.n_pages → page_ok (a.flags i) ≡ true
