-- ===== src/Klmalloc/Examples.antt =====
-- The bin of a size.
use sbma.Common.{arith}
use sbma.Klmalloc.{kl_size2bin}
use sbma.Klmalloc.Bins.{IsFirst, kl_size2bin-IsFirst}

kl_size2bin-IsFirst_example : IsFirst 100 (kl_size2bin 100)
kl_size2bin-IsFirst_example = kl_size2bin-IsFirst 100 (omega arith) (omega arith)
