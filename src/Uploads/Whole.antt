-- ===== src/Uploads/Whole.antt =====
-- The chunks of an upload put together: their order, their number and the bytes they make.
use bom_media_api.Common.{
  ℕ, suc, ◌+◌, ◌-◌, ◌*◌, ◌<◌, ◌≤◌, ◌≡◌, inl, inr, ap, none, List, [], ◌∷◌, ltb, ◌==◌, length,
  length-append, All, arith, Bool-cases,
}
use native.Mathlib.Nat.{mul-le-mul_left, mul-suc}
use bom_media_api.Uploads.Sessions.{Chunk}
use bom_media_api.Uploads.Chunks.{expected_size, find_chunk, insert_chunk}
use bom_media_api.Uploads.Completion.{merge_chunks_to_final_file}

-- In the order of their indices, from a number on.
abbrev pub IsAscending : ℕ → List Chunk → Type 0
IsAscending k [] = Unit
IsAscending k (c ∷ cs) = (k ≤ c.chunk_index) × IsAscending (suc c.chunk_index) cs

IsAscending-weaken : (j k : ℕ) (cs : List Chunk) → j ≤ k → IsAscending k cs → IsAscending j cs
IsAscending-weaken j k [] h a = tt
IsAscending-weaken j k (c ∷ cs) h (l, a) = (omega arith, a)

-- A chunk whose index is not there yet finds its place.
pub insert_chunk-IsAscending :
    (k : ℕ) (c : Chunk) (cs : List Chunk)
    → find_chunk c.chunk_index cs ≡ none
    → k ≤ c.chunk_index
    → IsAscending k cs
    → IsAscending k (insert_chunk c cs)
unfolding find_chunk insert_chunk
insert_chunk-IsAscending k c [] e h a = (h, tt)
insert_chunk-IsAscending k c (d ∷ ds) e h (l, a) =
    elim (Bool-cases (ltb c.chunk_index d.chunk_index)) [
      | inl b ↦ rw b (h, (ground arith, a))
      | inr b ↦
          rw b
            (l, insert_chunk-IsAscending (suc d.chunk_index) c ds (ground arith) (ground arith) a)
    ]

pub insert_chunk-All :
    (P : Chunk → Type 0) (c : Chunk) (cs : List Chunk) → P c → All P cs → All P (insert_chunk c cs)
unfolding insert_chunk
insert_chunk-All P c [] p a = (p, tt)
insert_chunk-All P c (d ∷ ds) p (q, a) = elim (Bool-cases (ltb c.chunk_index d.chunk_index)) [
  | inl b ↦ rw b (p, (q, a))
  | inr b ↦ rw b (q, insert_chunk-All P c ds p a)
]

module _ (total m size : ℕ) where
  -- A chunk with an index in range and the size that it must have.
  abbrev pub IsExpected : Chunk → Type 0
  IsExpected c =
      (c.chunk_index < suc m) × (length c.content ≡ expected_size total (suc m) size c.chunk_index)

  -- The bytes from a chunk on are those of the chunk and those behind it.
  expected_size-rest :
      (i : ℕ)
      → i ≤ m
      → total ≤ size * suc m
      → size * m < total
      → expected_size total (suc m) size i + (total - size * suc i) ≡ total - size * i
  expected_size-rest i h upper lower = elim (Bool-cases (suc i == suc m)) [
    | inl b ↦
        let same : i ≡ m = ground (arith, b) in rw b (omega (arith, ap (λ j. size * suc j) same))
    | inr b ↦
        let less : suc i ≤ m = ground (arith, b, h) in
        rw b (omega (arith, mul-le-mul_left size less, mul-suc size i))
  ]

  length-IsAscending :
      (k : ℕ) (cs : List Chunk)
      → k ≤ suc m
      → IsAscending k cs
      → All IsExpected cs
      → k + length cs ≤ suc m
  length-IsAscending k [] h a e = omega arith
  length-IsAscending k (c ∷ cs) h (l, a) ((i, _), e) =
      omega (arith, length-IsAscending (suc c.chunk_index) cs (omega arith) a e)

  -- If there are as many chunks as indices from a number on, the first has this number.
  pub first_index :
      (k : ℕ) (c : Chunk) (cs : List Chunk)
      → IsAscending k (c ∷ cs)
      → All IsExpected (c ∷ cs)
      → k + length (c ∷ cs) ≡ suc m
      → c.chunk_index ≡ k
  first_index k c cs (l, a) ((i, _), e) n =
      omega (arith, length-IsAscending (suc c.chunk_index) cs (omega arith) a e)

  -- As many chunks as there are indices from a number on have the bytes from there on.
  pub length-merge_from :
      (k : ℕ) (cs : List Chunk)
      → total ≤ size * suc m
      → size * m < total
      → IsAscending k cs
      → All IsExpected cs
      → k + length cs ≡ suc m
      → length (merge_chunks_to_final_file cs) ≡ total - size * k
  unfolding merge_chunks_to_final_file
  length-merge_from k [] upper lower a e n =
      let same : k ≡ suc m = omega arith in omega (arith, ap (λ j. size * j) same)
  length-merge_from k (c ∷ cs) upper lower (l, a) ((i, s), e) n =
      let here = first_index k c cs (l, a) ((i, s), e) n in
      let rest = length-merge_from (suc c.chunk_index) cs upper lower a e (omega arith) in
      omega (
        arith,
        length-append c.content (merge_chunks_to_final_file cs),
        s,
        rest,
        expected_size-rest c.chunk_index (omega arith) upper lower,
        ap (λ j. size * j) here,
      )
