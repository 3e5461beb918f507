-- ===== src/Ipc.antt =====
-- src/ipc/ and src/include/ipc.h: the memory that the processes of a node share, and its accounts.
pub mod Accounts
pub mod Madmit
mod Examples
use sbma.Common.{
  ℕ, ◌+◌, ◌-◌, ◌%◌, ◌^◌, Bool, true, false, not, ◌&&◌, ◌||◌, if◌then◌else◌, ◌==◌, leb, ltb, update,
  Cmd, Run, done, diverged, pure, modify, assert, ◌>>=◌, ◌>>◌,
}

pub data ℤ : Type 0 where
  pos : ℕ → ℤ
  negsuc : ℕ → ℤ

-- What the process `id` reads and writes: the counters in shared memory, and its own `maxpages`.
-- `inter_mtx` says whether the semaphore of that name is taken, and `flags` is IPC_SIGON.
pub record Ipc : Type 0 where
  pub id : ℕ
  pub n_procs : ℕ
  pub maxpages : ℕ
  pub inter_mtx : Bool
  pub s_mem : ℕ
  pub c_mem : ℕ → ℕ
  pub d_mem : ℕ → ℕ
  pub flags : ℕ → Bool

-- size_t
abbrev pub wrap : ℕ → ℕ
wrap n = n % 2 ^ 64

abbrev pub size_max : ℕ
size_max = 18446744073709551615

-- A second sem_wait(3) waits forever.
abbrev pub inter_critical_section_beg : Cmd Ipc (Unit {0})
inter_critical_section_beg s =
    if s.inter_mtx then diverged else done tt (record s { inter_mtx = true })

abbrev pub inter_critical_section_end : Cmd Ipc (Unit {0})
inter_critical_section_end = modify (λ s. record s { inter_mtx = false })

-- Only whether the result is 0 is used. The counter is truncated to an int.
pub ipc_is_eligible : Ipc → ℕ → Bool
ipc_is_eligible ipc id = not (ipc.c_mem id % 2 ^ 32 == 0) || ipc.flags id

pub ipc_sigon : Ipc → Ipc
ipc_sigon ipc = record ipc { flags = update ipc.flags ipc.id true }

pub ipc_sigoff : Ipc → Ipc
ipc_sigoff ipc = record ipc { flags = update ipc.flags ipc.id false }

pub ipc_atomic_inc : ℕ → Cmd Ipc (Unit {0})
ipc_atomic_inc value = do
  assert (λ ipc. leb value ipc.s_mem)
  modify (λ ipc. record ipc { s_mem = ipc.s_mem - value })
  modify (λ ipc. record ipc { c_mem = update ipc.c_mem ipc.id (wrap (ipc.c_mem ipc.id + value)) })
  modify (λ ipc.
      if ltb ipc.maxpages (ipc.c_mem ipc.id)
      then record ipc { maxpages = ipc.c_mem ipc.id }
      else ipc)

pub ipc_atomic_dec : ℕ → ℕ → Cmd Ipc (Unit {0})
ipc_atomic_dec c_pages d_pages = do
  assert (λ ipc. leb c_pages (ipc.c_mem ipc.id))
  assert (λ ipc. leb d_pages (ipc.d_mem ipc.id))
  modify (λ ipc. record ipc { s_mem = wrap (ipc.s_mem + c_pages) })
  modify (λ ipc. record ipc { c_mem = update ipc.c_mem ipc.id (ipc.c_mem ipc.id - c_pages) })
  modify (λ ipc. record ipc { d_mem = update ipc.d_mem ipc.id (ipc.d_mem ipc.id - d_pages) })

unfoldable pub ipc_mdirty : ℤ → Cmd Ipc (Unit {0})
ipc_mdirty (pos value) =
    if value == 0
    then pure tt
    else modify
        (λ ipc. record ipc { d_mem = update ipc.d_mem ipc.id (wrap (ipc.d_mem ipc.id + value)) })
ipc_mdirty (negsuc n) = do
  assert (λ ipc. leb (n + 1) (ipc.d_mem ipc.id))
  modify (λ ipc. record ipc { d_mem = update ipc.d_mem ipc.id (ipc.d_mem ipc.id - (n + 1)) })

pub ipc_mevict : ℕ → ℕ → Cmd Ipc (Unit {0})
unfolding ipc_atomic_dec
ipc_mevict c_pages d_pages =
    if (c_pages == 0) && (d_pages == 0)
    then pure tt
    else (do inter_critical_section_beg; ipc_atomic_dec c_pages d_pages; inter_critical_section_end)
