-- ===== src/Optstr.antt =====
-- `sbma_parse_optstr` of src/api/parse_optstr.c, and `enum sbma_vmm_opt_code` of src/include/sbma.h.
pub mod Printer
pub mod Tokens
pub mod RoundTrip
mod Examples
use Prim.Native.Char.{code}
use Prim.Native.String.{String}
use sbma.Common.{
  ℕ, zero, suc, ◌+◌, Bool, true, false, not, ◌&&◌, ◌||◌, Option, none, some, if◌then◌else◌, ◌==◌,
  ltb, List, [], ◌∷◌, ◌++◌,
}

-- A set of options.
pub record Opts : Type 0 where
  pub rsdnt : Bool
  pub lzyrd : Bool
  pub admitd : Bool
  pub aggch : Bool
  pub ghost : Bool
  pub merge : Bool
  pub metach : Bool
  pub mlock : Bool
  pub check : Bool
  pub extra : Bool
  pub osvmm : Bool

abbrev pub no_opts : Opts
no_opts = record {
  rsdnt = false;
  lzyrd = false;
  admitd = false;
  aggch = false;
  ghost = false;
  merge = false;
  metach = false;
  mlock = false;
  check = false;
  extra = false;
  osvmm = false;
}

-- An operator of C on each bit.
abbrev pub bitwise : (Bool → Bool → Bool) → Opts → Opts → Opts
bitwise f a b = record {
  rsdnt = f a.rsdnt b.rsdnt;
  lzyrd = f a.lzyrd b.lzyrd;
  admitd = f a.admitd b.admitd;
  aggch = f a.aggch b.aggch;
  ghost = f a.ghost b.ghost;
  merge = f a.merge b.merge;
  metach = f a.metach b.metach;
  mlock = f a.mlock b.mlock;
  check = f a.check b.check;
  extra = f a.extra b.extra;
  osvmm = f a.osvmm b.osvmm;
}

abbrev pub xor : Bool → Bool → Bool
xor a b = if a then not b else b

abbrev pub has_none : Opts → Bool
has_none o = not (
    o.rsdnt
    || (o.lzyrd
        || (o.admitd
            || (o.aggch
                || (o.ghost
                    || (o.merge
                        || (o.metach || (o.mlock || (o.check || (o.extra || o.osvmm))))))))))

-- (opt&set) == opt
abbrev pub covers : Opts → Opts → Bool
covers opt set = has_none (bitwise (λ a b. a && not b) opt set)

abbrev pub codes : String → List ℕ
codes String.[] = []
codes (String.◌∷◌ c s) = code c ∷ codes s

-- The token is the word.
abbrev pub same_word : List ℕ → List ℕ → Bool
same_word [] [] = true
same_word [] (d ∷ w) = false
same_word (c ∷ s) [] = false
same_word (c ∷ s) (d ∷ w) = if c == d then same_word s w else false

-- A branch of the loop: its word, the options that it settles, and those that it sets.
pub record Branch : Type 0 where
  pub word : List ℕ
  pub opt : Opts
  pub sets : Opts

abbrev pub branch : String → Opts → Opts → Branch
branch word opt sets = record { word = codes word; opt = opt; sets = sets }

abbrev pub both_checks : Opts
both_checks = record no_opts { check = true; extra = true }

-- `all`, which leaves VMM_ADMITD out.
abbrev pub all_opts : Opts
all_opts = bitwise (λ a b. not b) no_opts (record no_opts { admitd = true })

abbrev pub branches : List Branch
branches =
    branch "evict" (record no_opts { rsdnt = true }) no_opts
    ∷ branch "rsdnt" (record no_opts { rsdnt = true }) (record no_opts { rsdnt = true })
    ∷ branch "aggrd" (record no_opts { lzyrd = true }) no_opts
    ∷ branch "lzyrd" (record no_opts { lzyrd = true }) (record no_opts { lzyrd = true })
    ∷ branch "admitr" (record no_opts { admitd = true }) no_opts
    ∷ branch "admitd" (record no_opts { admitd = true }) (record no_opts { admitd = true })
    ∷ branch "noaggch" (record no_opts { aggch = true }) no_opts
    ∷ branch "aggch" (record no_opts { aggch = true }) (record no_opts { aggch = true })
    ∷ branch "noghost" (record no_opts { ghost = true }) no_opts
    ∷ branch "ghost" (record no_opts { ghost = true }) (record no_opts { ghost = true })
    ∷ branch "nomerge" (record no_opts { merge = true }) no_opts
    ∷ branch "merge" (record no_opts { merge = true }) (record no_opts { merge = true })
    ∷ branch "nometach" (record no_opts { metach = true }) no_opts
    ∷ branch "metach" (record no_opts { metach = true }) (record no_opts { metach = true })
    ∷ branch "nomlock" (record no_opts { mlock = true }) no_opts
    ∷ branch "mlock" (record no_opts { mlock = true }) (record no_opts { mlock = true })
    ∷ branch "nocheck" both_checks no_opts
    ∷ branch "check" both_checks (record no_opts { check = true })
    ∷ branch "extra" both_checks both_checks
    ∷ branch "noosvmm" (record no_opts { osvmm = true }) no_opts
    ∷ branch "osvmm" (record no_opts { osvmm = true }) (record no_opts { osvmm = true })
    ∷ branch "default" all_opts (record no_opts { lzyrd = true; merge = true })
    ∷ []

-- The branches in turn; `seen` changes also where a word that was seen is compared.
unfoldable pub token : List Branch → List ℕ → Opts → Opts → Option (Opts × Opts)
token [] tok opts seen = none
token (b ∷ rest) tok opts seen = elim (same_word tok b.word) [
  | false ↦ token rest tok opts seen
  | true ↦ elim (covers b.opt (bitwise xor b.opt seen)) [
    | true ↦ some (bitwise (λ x y. x || y) b.sets opts, bitwise xor b.opt seen)
    | false ↦ token rest tok opts (bitwise xor b.opt seen)
  ]
]

-- The loop over the tokens.
unfoldable pub tokens : List (List ℕ) → Opts → Opts → Option Opts
unfolding token
tokens [] opts seen = some opts
tokens (tok ∷ rest) opts seen = elim (token branches tok opts seen) [
  | none ↦ none
  | some (opts', seen') ↦ tokens rest opts' seen'
]

abbrev pub keep : List ℕ → List (List ℕ) → List (List ℕ)
keep [] rest = rest
keep (c ∷ cur) rest = (c ∷ cur) ∷ rest

-- The tokens that strtok(3) returns in turn, for ',' (code 44): none is empty.
unfoldable pub strtok : List ℕ → List ℕ → List (List ℕ)
strtok [] cur = keep cur []
strtok (c ∷ s) cur = elim (c == 44) [
  | true ↦ keep cur (strtok s [])
  | false ↦ strtok s (cur ++ c ∷ [])
]

unfoldable pub strlen : List ℕ → ℕ
strlen [] = 0
strlen (c ∷ s) = suc (strlen s)

-- What is left of the options when those of `opt` are taken out.
abbrev pub without : Opts → Opts → Opts
without opt o = bitwise (λ a b. not a && b) opt o

-- The three conditions at the end.
abbrev pub is_allowed : Opts → Bool
is_allowed o =
    not (o.osvmm && not (has_none (without (record no_opts { osvmm = true }) o)))
    && (not (o.aggch && not o.lzyrd) && not (o.extra && not o.check))

-- `none` is VMM_INVLD.
unfoldable pub sbma_parse_optstr : List ℕ → Option Opts
sbma_parse_optstr s =
    if ltb 511 (strlen s) then none else elim (tokens (strtok s []) no_opts no_opts) [
      | none ↦ none
      | some o ↦ if is_allowed o then some o else none
    ]
