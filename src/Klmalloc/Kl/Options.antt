-- ===== src/Klmalloc/Kl/Options.antt =====
-- src/klmalloc/klmalloc.c: starting and stopping the allocator, and its statistics.
use sbma.Common.{ℕ, true, false, if◌then◌else◌, List, [], ◌∷◌}
use sbma.Api.{less}
use sbma.Klmalloc.Heap.{Sys, Heap, Enabled, on, off, pause, block_default_size}

module _ {W : Type 0} where
  unfoldable pub kl_mem_init : Heap W → Heap W
  kl_mem_init h = if h.init then h else record h {
    init = true;
    sys_ctr = 0;
    mem_total = 0;
    mem_max = 0;
    undes_bin = [];
    brick_bin = λ b. [];
    chunk_bin = λ b. [];
  }

  module _ (sys : Sys W) where
    -- The blocks of the stack are freed from its bottom on.
    pub free_blocks : List ℕ → Heap W → Heap W
    free_blocks [] h = h
    free_blocks (block ∷ below) h =
        let t = free_blocks below h in
        record t {
          world = sys.free block block_default_size t.world;
          mem_total = less t.mem_total block_default_size;
        }

    unfoldable pub kl_mem_destroy : Heap W → Heap W
    unfolding free_blocks
    kl_mem_destroy h = if h.init then record (free_blocks h.undes_bin h) { init = false } else h

    -- KL_mallopt of M_ENABLED
    unfoldable pub kl_mallopt : Enabled → Heap W → Heap W
    unfolding kl_mem_init kl_mem_destroy
    kl_mallopt off h = kl_mem_destroy (record h { enabled = off })
    kl_mallopt on h = record (kl_mem_init h) { enabled = on }
    kl_mallopt pause h = record h { enabled = pause }
