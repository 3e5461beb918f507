-- ===== src/Optstr/Tokens.antt =====
-- The loop of src/api/parse_optstr.c on the words of the printer, option by option.
use sbma.Common.{
  arith, ℕ, Bool, true, false, not, ◌&&◌, ◌≡◌, refl, some, List, [], ◌∷◌, if◌then◌else◌,
}
use sbma.Optstr.{Opts, no_opts, codes, token, tokens, branches}
use sbma.Optstr.Printer.{words}

-- The options by their bits, in the order of `enum sbma_vmm_opt_code`.
abbrev make : Bool → Bool → Bool → Bool → Bool → Bool → Bool → Bool → Bool → Bool → Bool → Opts
make r l a g h m t k c e v = record {
  rsdnt = r;
  lzyrd = l;
  admitd = a;
  aggch = g;
  ghost = h;
  merge = m;
  metach = t;
  mlock = k;
  check = c;
  extra = e;
  osvmm = v;
}

token_rsdnt :
    (b : Bool)
    → token branches
        (codes (if b then "rsdnt" else "evict"))
        (make false false false false false false false false false false false)
        (make false false false false false false false false false false false)
      ≡ some (
        make b false false false false false false false false false false,
        make true false false false false false false false false false false,
      )
unfolding token
token_rsdnt true = refl
token_rsdnt false = refl

token_lzyrd :
    (b : Bool) (r : Bool)
    → token branches
        (codes (if b then "lzyrd" else "aggrd"))
        (make r false false false false false false false false false false)
        (make true false false false false false false false false false false)
      ≡ some (
        make r b false false false false false false false false false,
        make true true false false false false false false false false false,
      )
unfolding token
token_lzyrd true r = refl
token_lzyrd false r = refl

token_admitd :
    (b : Bool) (r l : Bool)
    → token branches
        (codes (if b then "admitd" else "admitr"))
        (make r l false false false false false false false false false)
        (make true true false false false false false false false false false)
      ≡ some (
        make r l b false false false false false false false false,
        make true true true false false false false false false false false,
      )
unfolding token
token_admitd true r l = refl
token_admitd false r l = refl

token_aggch :
    (b : Bool) (r l a : Bool)
    → token branches
        (codes (if b then "aggch" else "noaggch"))
        (make r l a false false false false false false false false)
        (make true true true false false false false false false false false)
      ≡ some (
        make r l a b false false false false false false false,
        make true true true true false false false false false false false,
      )
unfolding token
token_aggch true r l a = refl
token_aggch false r l a = refl

token_ghost :
    (b : Bool) (r l a g : Bool)
    → token branches
        (codes (if b then "ghost" else "noghost"))
        (make r l a g false false false false false false false)
        (make true true true true false false false false false false false)
      ≡ some (
        make r l a g b false false false false false false,
        make true true true true true false false false false false false,
      )
unfolding token
token_ghost true r l a g = refl
token_ghost false r l a g = refl

token_merge :
    (b : Bool) (r l a g h : Bool)
    → token branches
        (codes (if b then "merge" else "nomerge"))
        (make r l a g h false false false false false false)
        (make true true true true true false false false false false false)
      ≡ some (
        make r l a g h b false false false false false,
        make true true true true true true false false false false false,
      )
unfolding token
token_merge true r l a g h = refl
token_merge false r l a g h = refl

token_metach :
    (b : Bool) (r l a g h m : Bool)
    → token branches
        (codes (if b then "metach" else "nometach"))
        (make r l a g h m false false false false false)
        (make true true true true true true false false false false false)
      ≡ some (
        make r l a g h m b false false false false,
        make true true true true true true true false false false false,
      )
unfolding token
token_metach true r l a g h m = refl
token_metach false r l a g h m = refl

token_mlock :
    (b : Bool) (r l a g h m t : Bool)
    → token branches
        (codes (if b then "mlock" else "nomlock"))
        (make r l a g h m t false false false false)
        (make true true true true true true true false false false false)
      ≡ some (
        make r l a g h m t b false false false,
        make true true true true true true true true false false false,
      )
unfolding token
token_mlock true r l a g h m t = refl
token_mlock false r l a g h m t = refl

token_check :
    (c e : Bool) (r l a g h m t k : Bool)
    → not (e && not c) ≡ true
    → token branches
        (codes (if e then "extra" else if c then "check" else "nocheck"))
        (make r l a g h m t k false false false)
        (make true true true true true true true true false false false)
      ≡ some (
        make r l a g h m t k c e false,
        make true true true true true true true true true true false,
      )
unfolding token
token_check true true r l a g h m t k valid = refl
token_check true false r l a g h m t k valid = refl
token_check false true r l a g h m t k valid = absurd (cc valid)
token_check false false r l a g h m t k valid = refl

token_osvmm :
    (b : Bool) (r l a g h m t k c e : Bool)
    → token branches
        (codes (if b then "osvmm" else "noosvmm"))
        (make r l a g h m t k c e false)
        (make true true true true true true true true true true false)
      ≡ some
          (make r l a g h m t k c e b, make true true true true true true true true true true true)
unfolding token
token_osvmm true r l a g h m t k c e = refl
token_osvmm false r l a g h m t k c e = refl

-- The words that the loop accepts, from some options and some that were seen.
data Accepted : List (List ℕ) → Opts → Opts → Opts → Type 0 where
  ended : {o s : Opts} → Accepted [] o s o
  accepted :
      {w : List ℕ} {rest : List (List ℕ)} {o s o' s' r : Opts}
      → token branches w o s ≡ some (o', s')
      → Accepted rest o' s' r
      → Accepted (w ∷ rest) o s r

tokens-Accepted : {ws : List (List ℕ)} {o s r : Opts} → Accepted ws o s r → tokens ws o s ≡ some r
unfolding tokens
tokens-Accepted ended = refl
tokens-Accepted (accepted e rest) = ground (e, arith, tokens-Accepted rest)

words-Accepted :
    (o : Opts) → not (o.extra && not o.check) ≡ true → Accepted (words o) no_opts no_opts o
unfolding words
words-Accepted o h = accepted (token_rsdnt o.rsdnt) (
    accepted (token_lzyrd o.lzyrd o.rsdnt) (
      accepted (token_admitd o.admitd o.rsdnt o.lzyrd) (
        accepted (token_aggch o.aggch o.rsdnt o.lzyrd o.admitd) (
          accepted (token_ghost o.ghost o.rsdnt o.lzyrd o.admitd o.aggch) (
            accepted (token_merge o.merge o.rsdnt o.lzyrd o.admitd o.aggch o.ghost) (
              accepted (token_metach o.metach o.rsdnt o.lzyrd o.admitd o.aggch o.ghost o.merge) (
                accepted
                  (token_mlock o.mlock o.rsdnt o.lzyrd o.admitd o.aggch o.ghost o.merge o.metach)
                  (accepted
                    (token_check o.check o.extra o.rsdnt o.lzyrd o.admitd o.aggch o.ghost o.merge
                      o.metach o.mlock h)
                    (accepted
                      (token_osvmm o.osvmm o.rsdnt o.lzyrd o.admitd o.aggch o.ghost o.merge o.metach
                        o.mlock o.check o.extra)
                      (ended))))))))))

-- The loop gives back the options that were printed.
pub tokens-words :
    (o : Opts) → not (o.extra && not o.check) ≡ true → tokens (words o) no_opts no_opts ≡ some o
tokens-words o h = tokens-Accepted (words-Accepted o h)
