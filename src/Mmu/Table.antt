-- ===== src/Mmu/Table.antt =====
-- src/mmu/: the allocation table, a doubly linked list of entries. An entry is named by its address, NULL is
-- `none`, and the locks are left out, which do nothing in the default build.
pub mod Order
mod Examples
use sbma.Common.{
  ℕ, zero, suc, ◌+◌, ◌*◌, Bool, ◌&&◌, Option, none, some, if◌then◌else◌, leb, ltb, update,
}

-- `struct mmu` and the fields of the entries that the table uses.
pub record Table : Type 0 where
  pub page_size : ℕ
  pub a_tbl : Option ℕ
  pub n_pages : ℕ → ℕ
  pub base : ℕ → ℕ
  pub prev : ℕ → Option ℕ
  pub next : ℕ → Option ℕ

pub mmu_init : ℕ → Table → Table
mmu_init page_size mmu = record mmu { page_size = page_size; a_tbl = none }

pub mmu_insert_ate : ℕ → Table → Table
mmu_insert_ate ate mmu = elim mmu.a_tbl [
  | none ↦ record mmu {
    a_tbl = some ate;
    prev = update mmu.prev ate none;
    next = update mmu.next ate none;
  }
  | some first ↦ record mmu {
    a_tbl = some ate;
    prev = update (update mmu.prev ate (mmu.prev first)) first (some ate);
    next = update mmu.next ate (some first);
  }
]

-- The predecessor, or the head of the list, skips the entry.
skip_forward : ℕ → Table → Table
skip_forward ate mmu = elim (mmu.prev ate) [
  | none ↦ record mmu { a_tbl = mmu.next ate }
  | some p ↦ record mmu { next = update mmu.next p (mmu.next ate) }
]

skip_backward : ℕ → Table → Table
skip_backward ate mmu = elim (mmu.next ate) [
  | none ↦ mmu
  | some n ↦ record mmu { prev = update mmu.prev n (mmu.prev ate) }
]

pub mmu_invalidate_ate : ℕ → Table → Table
unfolding skip_forward skip_backward
mmu_invalidate_ate ate mmu = skip_backward ate (skip_forward ate mmu)

-- The bytes of the entry `ate`.
abbrev pub has_addr : Table → ℕ → ℕ → Bool
has_addr mmu addr ate =
    leb (mmu.base ate) addr && ltb addr (mmu.base ate + mmu.n_pages ate * mmu.page_size)

-- The search from an entry on; `none` is spent fuel.
pub search : ℕ → Table → ℕ → Option ℕ → Option (Option ℕ)
search zero mmu addr ate = none
search (suc k) mmu addr none = some none
search (suc k) mmu addr (some ate) =
    if has_addr mmu addr ate then some (some ate) else search k mmu addr (mmu.next ate)

pub mmu_lookup_ate : ℕ → Table → ℕ → Option (Option ℕ)
unfolding search
mmu_lookup_ate fuel mmu addr = search fuel mmu addr mmu.a_tbl
