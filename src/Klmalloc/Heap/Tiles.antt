-- ===== src/Klmalloc/Heap/Tiles.antt =====
-- A block of src/klmalloc/klmalloc.c as the sequence of its chunks, with their headers and footers.
use sbma.Common.{
  ℕ, ◌+◌, ◌-◌, ◌%◌, ◌≤◌, ◌<◌, ◌≡◌, ◌≢◌, refl, ◌∙◌, Bool, if◌then◌else◌, update, List, [], ◌∷◌,
  arith,
}
use sbma.Klmalloc.{put_bin, del_bin, Placed, placed, dropped, refused}
use sbma.Klmalloc.Chunks.{put_bin-IsLast}

pub record Chunk : Type 0 where
  pub size : ℕ
  pub used : Bool

-- The chunk stands at `a`: its size before and, unless it is in use, also behind its bytes.
pub record IsChunk (words : ℕ → ℕ) (a : ℕ) (t : Chunk) : Type 0 where
  pub large : 32 ≤ t.size
  pub aligned : t.size % 8 ≡ 0
  pub header : words a ≡ t.size
  pub footer : words (a + t.size - 8) ≡ (if t.used then 0 else t.size)

-- The chunks end at `a`, the last one first, and start at `beg`.
abbrev pub EndAt : (ℕ → ℕ) → ℕ → List Chunk → ℕ → Type 0
EndAt words beg [] a = a ≡ beg
EndAt words beg (t ∷ ts) a =
    (beg + t.size ≤ a) × IsChunk words (a - t.size) t × EndAt words beg ts (a - t.size)

-- The chunks start at `a`, and end at `end`.
abbrev pub StartAt : (ℕ → ℕ) → ℕ → List Chunk → ℕ → Type 0
StartAt words end [] a = a ≡ end
StartAt words end (t ∷ ts) a =
    (a + t.size ≤ end) × IsChunk words a t × StartAt words end ts (a + t.size)

module _ (words : ℕ → ℕ) (x v : ℕ) where
  IsChunk-update :
      (a : ℕ) (t : Chunk)
      → IsChunk words a t
      → x ≢ a
      → x ≢ a + t.size - 8
      → IsChunk (update words x v) a t
  IsChunk-update a t c out out' = record {
    large = c.large;
    aligned = c.aligned;
    header = ground (arith, c.header);
    footer = ground (arith, c.footer);
  }

  pub EndAt-update :
      (beg : ℕ) (ts : List Chunk) (a : ℕ)
      → EndAt words beg ts a
      → a ≤ x
      → EndAt (update words x v) beg ts a
  EndAt-update beg [] a e le = e
  EndAt-update beg (t ∷ ts) a (fits, c, rest) le = (
    fits,
    IsChunk-update (a - t.size) t c (omega (arith, c.large)) (omega (arith, c.large)),
    EndAt-update beg ts (a - t.size) rest (omega arith),
  )

  pub StartAt-update :
      (end : ℕ) (ts : List Chunk) (a : ℕ)
      → StartAt words end ts a
      → x < a
      → StartAt (update words x v) end ts a
  StartAt-update end [] a e lt = e
  StartAt-update end (t ∷ ts) a (fits, c, rest) lt = (
    fits,
    IsChunk-update a t c (omega (arith, c.large)) (omega (arith, c.large)),
    StartAt-update end ts (a + t.size) rest (omega arith),
  )

-- Chunks stay where the words of their bytes do.
module _ (words words' : ℕ → ℕ) where
  IsChunk-same :
      (a : ℕ) (t : Chunk)
      → IsChunk words a t
      → words' a ≡ words a
      → words' (a + t.size - 8) ≡ words (a + t.size - 8)
      → IsChunk words' a t
  IsChunk-same a t c e e' = record {
    large = c.large;
    aligned = c.aligned;
    header = e ∙ c.header;
    footer = e' ∙ c.footer;
  }

  pub EndAt-same :
      (beg : ℕ) (ts : List Chunk) (a : ℕ)
      → EndAt words beg ts a
      → ((x : ℕ) → beg ≤ x → x < a → words' x ≡ words x)
      → EndAt words' beg ts a
  EndAt-same beg [] a e same = e
  EndAt-same beg (t ∷ ts) a (fits, c, rest) same = (
    fits,
    IsChunk-same (a - t.size) t c (same (a - t.size) (omega arith) (omega (arith, c.large)))
        (same (a - t.size + t.size - 8) (omega (arith, c.large)) (omega (arith, c.large))),
    EndAt-same beg ts (a - t.size) rest (λ x low high. same x low (omega arith)),
  )

  pub StartAt-same :
      (end : ℕ) (ts : List Chunk) (a : ℕ)
      → StartAt words end ts a
      → ((x : ℕ) → a ≤ x → x < end → words' x ≡ words x)
      → StartAt words' end ts a
  StartAt-same end [] a e same = e
  StartAt-same end (t ∷ ts) a (fits, c, rest) same = (
    fits,
    IsChunk-same a t c (same a (omega arith) (omega (arith, c.large)))
        (same (a + t.size - 8) (omega (arith, c.large)) (omega (arith, c.large))),
    StartAt-same end ts (a + t.size) rest (λ x low high. same x (omega arith) high),
  )

pub EndAt-le : (words : ℕ → ℕ) (beg : ℕ) (ts : List Chunk) (a : ℕ) → EndAt words beg ts a → beg ≤ a
EndAt-le words beg [] a e = omega arith
EndAt-le words beg (t ∷ ts) a (fits, _, _) = omega arith

pub StartAt-le :
    (words : ℕ → ℕ) (end : ℕ) (ts : List Chunk) (a : ℕ) → StartAt words end ts a → a ≤ end
StartAt-le words end [] a e = omega arith
StartAt-le words end (t ∷ ts) a (fits, _, _) = omega arith

-- The list of the free chunks of a size.
bin_of : Placed → ℕ
bin_of (placed b) = b
bin_of dropped = 0
bin_of refused = 0

pub class : ℕ → ℕ
unfolding bin_of
class n = bin_of (put_bin n)

pub put_bin-class : (n : ℕ) → 32 ≤ n → n < 1048576 → put_bin n ≡ placed (class n)
unfolding class
put_bin-class n low high = let (b, e, _, _) = put_bin-IsLast n low high in rw e refl

pub del_bin-class : (n : ℕ) → 32 ≤ n → n < 1048576 → del_bin n ≡ placed (class n)
unfolding class
del_bin-class n low high = let (b, e, e', _) = put_bin-IsLast n low high in rw (e', e) refl
