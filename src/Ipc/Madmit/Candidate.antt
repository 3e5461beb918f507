-- ===== src/Ipc/Madmit/Candidate.antt =====
-- Which process `ipc_madmit` asks to release its memory.
pub mod Choose
pub mod Best
use sbma.Common.{
  ℕ, zero, suc, ◌≤◌, ◌<◌, ◌≡◌, refl, Bool, true, false, arith, not, ◌&&◌, ◌==◌, inl, inr, Option,
  none, some, Bool-cases, ◌⊎◌, subst,
}
use sbma.Ipc.{Ipc, ipc_is_eligible}
use sbma.Ipc.Madmit.{Choice, is_better, consider, find_candidate}

-- Another process that is eligible.
abbrev pub is_candidate : Ipc → ℕ → Bool
is_candidate ipc i = not (i == ipc.id) && ipc_is_eligible ipc i

-- `c` is at least as good a choice as the candidate `j`.
pub record Beats (ipc : Ipc) (need : ℕ) (admitd : Bool) (i j : ℕ) : Type 0 where
  -- Enough memory comes before too little.
  pub enough : need ≤ ipc.c_mem j → need ≤ ipc.c_mem i
  -- Of too little, the most.
  pub most : ipc.c_mem i < need → ipc.c_mem j ≤ ipc.c_mem i
  -- Of enough, the least resident, or the least dirty.
  pub least : admitd ≡ false → need ≤ ipc.c_mem j → ipc.c_mem i ≤ ipc.c_mem j
  pub cleanest : admitd ≡ true → need ≤ ipc.c_mem j → ipc.d_mem i ≤ ipc.d_mem j

-- The choice `ii`, with its resident memory `mx_c` and its dirty memory `mx_d`, among the processes
-- `[0, n)`.
abbrev pub IsBest : Ipc → ℕ → Bool → ℕ → Option ℕ → ℕ → ℕ → Type 0
IsBest ipc need admitd n none mx_c mx_d =
    (mx_c ≡ 0) × ((j : ℕ) → j < n → is_candidate ipc j ≡ true → ipc.c_mem j ≡ 0)
IsBest ipc need admitd n (some i) mx_c mx_d =
    (i < n)
    × (is_candidate ipc i ≡ true)
    × (mx_c ≡ ipc.c_mem i)
    × (mx_d ≡ ipc.d_mem i)
    × (0 < ipc.c_mem i)
    × ((j : ℕ) → j < n → is_candidate ipc j ≡ true → Beats ipc need admitd i j)
