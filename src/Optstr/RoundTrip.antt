-- ===== src/Optstr/RoundTrip.antt =====
-- src/api/parse_optstr.c reads back what the printer writes.
use Prim.Native.String.{String}
use sbma.Common.{
  ℕ, suc, ◌+◌, ◌*◌, ◌≤◌, ◌<◌, ◌≡◌, refl, ap, ◌∙◌, sym, Bool, true, false, not, ◌&&◌, some,
  if◌then◌else◌, ◌==◌, ltb, leb, List, [], ◌∷◌, ◌++◌, arith, Every, every_nil, every_cons,
}
use mathlib.Core.List.{append_assoc, append-nil}
use sbma.Optstr.{
  Opts, no_opts, codes, keep, strtok, strlen, tokens, is_allowed, has_none, without,
  sbma_parse_optstr,
}
use sbma.Optstr.Printer.{words, join, print}
use sbma.Optstr.Tokens.{tokens-words}

has_no_comma : List ℕ → Bool
has_no_comma [] = true
has_no_comma (c ∷ s) = if c == 44 then false else has_no_comma s

-- A word is not empty, has no comma and at most eight characters.
record IsWord (w : List ℕ) : Type 0 where
  pub some_char : 0 < strlen w
  pub short : strlen w ≤ 8
  pub no_comma : has_no_comma w ≡ true

pick :
    (b : Bool) (y n : String)
    → IsWord (codes y)
    → IsWord (codes n)
    → IsWord (codes (if b then y else n))
pick true y n p q = p
pick false y n p q = q

word :
    (s : String)
    → (ltb 0 (strlen (codes s)) && (leb (strlen (codes s)) 8 && has_no_comma (codes s))) ≡ true
    → IsWord (codes s)
word s e = record {
  some_char = ground (arith, e);
  short = ground (arith, e);
  no_comma = ground (arith, e);
}

keep-word : (w : List ℕ) (rest : List (List ℕ)) → 0 < strlen w → keep w rest ≡ w ∷ rest
unfolding strlen
keep-word [] rest h = absurd (omega (arith, h))
keep-word (c ∷ w) rest h = refl

strlen-append : (v w : List ℕ) → strlen (v ++ w) ≡ strlen v + strlen w
unfolding strlen
strlen-append [] w = omega arith
strlen-append (c ∷ v) w = ground (arith, strlen-append v w)

-- A word is collected.
strtok-append :
    (w rest cur : List ℕ) → has_no_comma w ≡ true → strtok (w ++ rest) cur ≡ strtok rest (cur ++ w)
unfolding strtok has_no_comma
strtok-append [] rest cur h = ap (strtok rest) (sym (append-nil cur))
strtok-append (c ∷ w) rest cur h =
    ground (arith, h, strtok-append w rest (cur ++ c ∷ []), append_assoc cur (c ∷ []) w)

strtok-word : (w rest : List ℕ) → IsWord w → strtok (w ++ 44 ∷ rest) [] ≡ w ∷ strtok rest []
unfolding strtok
strtok-word w rest is_word =
    strtok-append w (44 ∷ rest) [] is_word.no_comma ∙ keep-word w (strtok rest []) is_word.some_char

strtok-join : (ws : List (List ℕ)) → Every IsWord ws → strtok (join ws) [] ≡ ws
unfolding strtok join
strtok-join [] every = refl
strtok-join (w ∷ []) (every_cons p ps) =
    ap (λ s. strtok s []) (sym (append-nil w))
    ∙ strtok-append w [] [] p.no_comma
    ∙ keep-word w [] p.some_char
strtok-join (w ∷ v ∷ ws) (every_cons p ps) =
    strtok-word w (join (v ∷ ws)) p ∙ ap (λ r. w ∷ r) (strtok-join (v ∷ ws) ps)

count_words : List (List ℕ) → ℕ
count_words [] = 0
count_words (w ∷ ws) = suc (count_words ws)

strlen-join : (ws : List (List ℕ)) → Every IsWord ws → strlen (join ws) ≤ 9 * count_words ws
unfolding strlen join count_words
strlen-join [] every = omega arith
strlen-join (w ∷ []) (every_cons p ps) = omega (arith, p.short)
strlen-join (w ∷ v ∷ ws) (every_cons p ps) =
    omega (arith, p.short, strlen-append w (44 ∷ join (v ∷ ws)), strlen-join (v ∷ ws) ps)

words-IsWord : (o : Opts) → Every IsWord (words o)
unfolding words strlen has_no_comma
words-IsWord o = every_cons (pick o.rsdnt "rsdnt" "evict" (word "rsdnt" refl) (word "evict" refl)) (
    every_cons (pick o.lzyrd "lzyrd" "aggrd" (word "lzyrd" refl) (word "aggrd" refl)) (
      every_cons (pick o.admitd "admitd" "admitr" (word "admitd" refl) (word "admitr" refl)) (
        every_cons (pick o.aggch "aggch" "noaggch" (word "aggch" refl) (word "noaggch" refl)) (
          every_cons (pick o.ghost "ghost" "noghost" (word "ghost" refl) (word "noghost" refl)) (
            every_cons (pick o.merge "merge" "nomerge" (word "merge" refl) (word "nomerge" refl)) (
              every_cons
                (pick o.metach "metach" "nometach" (word "metach" refl) (word "nometach" refl))
                (every_cons
                  (pick o.mlock "mlock" "nomlock" (word "mlock" refl) (word "nomlock" refl))
                  (every_cons (check_word o.extra o.check) (
                    every_cons
                      (pick o.osvmm "osvmm" "noosvmm" (word "osvmm" refl) (word "noosvmm" refl))
                      every_nil)))))))))
  where
    check_word :
        (e c : Bool) → IsWord (codes (if e then "extra" else if c then "check" else "nocheck"))
    check_word true c = word "extra" refl
    check_word false c = pick c "check" "nocheck" (word "check" refl) (word "nocheck" refl)

ten_words : (o : Opts) → count_words (words o) ≡ 10
unfolding words count_words
ten_words o = refl

third : (a b c : Bool) → (not a && (not b && not c)) ≡ true → not c ≡ true
third a b c h = ground (arith, h)

short_enough : (n : ℕ) → n ≤ 90 → ltb 511 n ≡ false
short_enough n h = ground arith

accepts :
    (s : List ℕ) (ws : List (List ℕ)) (o : Opts)
    → ltb 511 (strlen s) ≡ false
    → strtok s [] ≡ ws
    → tokens ws no_opts no_opts ≡ some o
    → is_allowed o ≡ true
    → sbma_parse_optstr s ≡ some o
unfolding sbma_parse_optstr
accepts s ws o fits split read allowed = rw (fits, split, read, allowed) refl

-- The parser, given the printed form of options that it allows together, returns these options.
pub sbma_parse_optstr-print :
    (o : Opts) → is_allowed o ≡ true → sbma_parse_optstr (print o) ≡ some o
unfolding print
sbma_parse_optstr-print o allowed =
    accepts (join (words o)) (words o) o fits (strtok-join (words o) (words-IsWord o))
      (tokens-words o extra_checks) allowed
  where
    extra_checks : not (o.extra && not o.check) ≡ true
    extra_checks =
        third (o.osvmm && not (has_none (without (record no_opts { osvmm = true }) o)))
          (o.aggch && not o.lzyrd) (o.extra && not o.check) allowed

    fits : ltb 511 (strlen (join (words o))) ≡ false
    fits =
        short_enough (strlen (join (words o)))
          (omega (arith, strlen-join (words o) (words-IsWord o), ten_words o))
