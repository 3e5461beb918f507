-- ===== src/Optstr/Examples.antt =====
-- Parsing option strings.
use sbma.Common.{◌≡◌, refl, true, some, none}
use sbma.Optstr.{Opts, no_opts, codes, token, tokens, strtok, strlen, sbma_parse_optstr}
use sbma.Optstr.Printer.{print}
use sbma.Optstr.RoundTrip.{sbma_parse_optstr-print}

abbrev lazy_opts : Opts
lazy_opts = record no_opts { lzyrd = true; aggch = true; check = true }

sbma_parse_optstr-print_example : sbma_parse_optstr (print lazy_opts) ≡ some lazy_opts
sbma_parse_optstr-print_example = sbma_parse_optstr-print lazy_opts refl

parse_default :
    sbma_parse_optstr (codes "default,admitd")
    ≡ some (record no_opts { lzyrd = true; merge = true; admitd = true })
unfolding sbma_parse_optstr token tokens strtok strlen
parse_default = refl

parse_repeated : sbma_parse_optstr (codes "merge,,nomerge") ≡ none
unfolding sbma_parse_optstr token tokens strtok strlen
parse_repeated = refl
