-- ===== src/Optstr/Printer.antt =====
-- A printer of options: the word of each of them, in the order of their bits.
use sbma.Common.{ℕ, List, [], ◌∷◌, ◌++◌, if◌then◌else◌}
use sbma.Optstr.{Opts, codes}

unfoldable pub words : Opts → List (List ℕ)
words o =
    codes (if o.rsdnt then "rsdnt" else "evict")
    ∷ codes (if o.lzyrd then "lzyrd" else "aggrd")
    ∷ codes (if o.admitd then "admitd" else "admitr")
    ∷ codes (if o.aggch then "aggch" else "noaggch")
    ∷ codes (if o.ghost then "ghost" else "noghost")
    ∷ codes (if o.merge then "merge" else "nomerge")
    ∷ codes (if o.metach then "metach" else "nometach")
    ∷ codes (if o.mlock then "mlock" else "nomlock")
    ∷ codes (if o.extra then "extra" else if o.check then "check" else "nocheck")
    ∷ codes (if o.osvmm then "osvmm" else "noosvmm")
    ∷ []

-- The words, with a comma (code 44) behind each but the last.
unfoldable pub join : List (List ℕ) → List ℕ
join [] = []
join (w ∷ []) = w
join (w ∷ v ∷ ws) = w ++ 44 ∷ join (v ∷ ws)

unfoldable pub print : Opts → List ℕ
unfolding words join
print o = join (words o)
