-- ===== src/Vmm/Examples.antt =====
-- Runs of the swap functions on an allocation of four pages of four bytes.
use sbma.Common.{
  ℕ, ◌+◌, ◌*◌, ◌/◌, ◌≤◌, ◌<◌, ◌≡◌, refl, ◌⊎◌, true, false, Option, none, some, arith, ◌==◌, ltb,
  count, if◌then◌else◌, within, Run, done, failed, aborted, diverged, Ensures,
}
use sbma.Mmu.{Flags}
use sbma.Mmu.Valid.{IsValid}
use sbma.Os.{prot_none, prot_read, prot_rw, IsReliable}
use sbma.Os.Ideal.{World, ideal, short, ideal-IsPosix, short-IsPosix, ideal-HasFullWrites}
use sbma.Vmm.{State}
use sbma.Vmm.Io.{vmm_read, vmm_write}
use sbma.Vmm.Io.Stored.{vmm_write_short}
use sbma.Vmm.View.{view, IsCoherent}
use sbma.Vmm.SwapX.{vmm_swap_x}
use sbma.Vmm.Protect.{MprotectFailed}
use sbma.Vmm.SwapX.Result.{Cleared, vmm_swap_x-Cleared}
use sbma.Vmm.SwapO.{vmm_swap_o}
use sbma.Vmm.SwapO.Result.{SwappedOut, vmm_swap_o-SwappedOut}
use sbma.Vmm.SwapO.Transparent.{vmm_swap_o-view}
use sbma.Vmm.SwapI.{to_read, vmm_swap_i}
use sbma.Vmm.SwapI.Finished.{SwappedIn}
use sbma.Vmm.SwapI.Result.{vmm_swap_i-SwappedIn}

abbrev untouched_page : Flags
untouched_page = record { zfill = false; rsdnt = false; dirty = false; chrgd = false }

abbrev dirty_page : Flags
dirty_page = record { zfill = false; rsdnt = false; dirty = true; chrgd = false }

abbrev stored_page : Flags
stored_page = record { zfill = true; rsdnt = true; dirty = false; chrgd = true }

-- Page 0 is clean, the pages 1 and 2 are dirty, and page 3 is in the file.
abbrev pub start : State World
start = record {
  ate = record {
    n_pages = 4;
    l_pages = 3;
    c_pages = 3;
    d_pages = 2;
    base = 4096;
    flags = λ i. if i == 0 then untouched_page else if i == 3 then stored_page else dirty_page;
  };
  world = record {
    mem = λ x. if within 4100 4108 x then 7 else 0;
    prot = λ x. if within 4100 4108 x then prot_rw else if ltb x 4100 then prot_read else prot_none;
    file = λ k x. if within 12 16 x then 9 else 0;
    size = λ k. 16;
    pos = λ k. 0;
  };
}

pub start-IsValid : IsValid start.ate
unfolding count
start-IsValid = record {
  loaded = refl;
  charged = refl;
  dirtied = refl;
  pages = λ i h. ground arith;
}

pub start-IsCoherent : IsCoherent ideal 4 1 start
start-IsCoherent = record {
  clean = λ x h r d. ground arith;
  on_disk = λ i h z. ground arith;
  absent = λ x h r. ground arith;
}

-- What a run returns, if it does.
abbrev returned : {S A : Type 0} → Run S A → Option A
returned (done a s) = some a
returned (failed s) = none
returned aborted = none
returned diverged = none

abbrev byte_after : Run (State World) ℕ → ℕ → Option ℕ
byte_after (done a s) x = some (view ideal 4 1 s x)
byte_after (failed s) x = none
byte_after aborted x = none
byte_after diverged x = none

-- Two pages are written, and read as before.
swap_o_returned : returned (vmm_swap_o ideal 4 true 1 0 4 start) ≡ some 2
unfolding vmm_swap_o vmm_write
swap_o_returned = refl

swap_o_byte : byte_after (vmm_swap_o ideal 4 true 1 0 4 start) 5 ≡ some 7
unfolding vmm_swap_o vmm_write
swap_o_byte = refl

-- One page is read.
swap_i_returned : returned (vmm_swap_i ideal 4 1 false 0 4 start) ≡ some 1
unfolding vmm_swap_i vmm_read
swap_i_returned = refl

swap_i_byte : byte_after (vmm_swap_i ideal 4 1 false 0 4 start) 13 ≡ some 9
unfolding vmm_swap_i vmm_read
swap_i_byte = refl

-- The file as long as it is, for the page that it holds.
pub start-on_disk :
    (i : ℕ) → i < 4 → to_read (start.ate.flags i) ≡ true → (i + 1) * 4 ≤ ideal.size start.world 1
start-on_disk i h wanted = ground arith

vmm_swap_o-view_example :
    Ensures
      (λ m t.
        IsValid t.ate
        × IsCoherent ideal 4 1 t
        × ((x : ℕ) → x / 4 < 4 → view ideal 4 1 t x ≡ view ideal 4 1 start x))
      (λ _. ¬ IsReliable ideal)
      (vmm_swap_o ideal 4 true 1 0 3 start)
vmm_swap_o-view_example =
    vmm_swap_o-view 4 1 ideal-IsPosix ideal-HasFullWrites true 0 3 start (omega arith) start-IsValid
      start-IsCoherent (omega arith) (omega arith)

vmm_swap_o-SwappedOut_example :
    Ensures
      (λ m t.
        (((◌≡◌ {A = ℕ} 3 0) ⊎ (start.ate.l_pages ≡ 0)) × (m ≡ 0) × (t ≡ start))
        ⊎ SwappedOut ideal 4 1 start 0 3 m t)
      (λ _. ¬ IsReliable ideal)
      (vmm_swap_o ideal 4 true 1 0 3 start)
vmm_swap_o-SwappedOut_example =
    vmm_swap_o-SwappedOut ideal-IsPosix ideal-HasFullWrites 4 1 true (omega arith) 0 3 start
      start-IsValid (omega arith) (omega arith)

vmm_swap_i-SwappedIn_example :
    Ensures
      (λ m t.
        (((◌≡◌ {A = ℕ} 3 0) ⊎ (start.ate.l_pages ≡ start.ate.n_pages)) × (m ≡ 0) × (t ≡ start))
        ⊎ SwappedIn ideal 4 1 start 1 3 m t)
      (λ _. ¬ IsReliable ideal)
      (vmm_swap_i ideal 4 1 false 1 3 start)
vmm_swap_i-SwappedIn_example =
    vmm_swap_i-SwappedIn ideal-IsPosix 4 1 (omega arith) 1 3 start start-IsValid (omega arith)
      start-on_disk (omega arith)

vmm_swap_x-Cleared_example :
    Ensures
      (λ _ t. Cleared ideal 4 start 1 3 t)
      (λ t. MprotectFailed ideal t.world)
      (vmm_swap_x ideal 4 1 2 start)
vmm_swap_x-Cleared_example =
    vmm_swap_x-Cleared ideal-IsPosix 4 (omega arith) 1 2 start start-IsValid (omega arith)

vmm_write_short_example :
    (u : World) × (vmm_write short 1 4100 8 4 start.world ≡ done tt u)
    × ((x : ℕ) → 4 + 2 ≤ x → short.file u 1 x ≡ short.file start.world 1 x)
vmm_write_short_example =
    vmm_write_short short short-IsPosix 1 4100 8 4 2 start.world refl refl (omega arith)
