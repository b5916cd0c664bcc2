-- ===== src/Uploads/Pieces.antt =====
-- The pieces of a file as chunks, sent in their order.
use bom_media_api.Common.{
  ℕ, zero, suc, ◌-◌, ◌*◌, ◌<◌, ◌≤◌, ◌≡◌, inl, inr, refl, ap, sym, ◌∙◌, true, none, some, is_some,
  List, [], ◌∷◌, ◌++◌, ltb, ◌==◌, if◌then◌else◌, length, length-append, All, All-append, arith,
  Text, Bool-cases,
}
use native.Mathlib.Nat.{mul-suc, mul-le-mul_left}
use bom_media_api.Uploads.Sessions.{Chunk, Env}
use bom_media_api.Uploads.Steps.{Step, cleans, receives, commits}
use bom_media_api.Uploads.Completion.{merge_chunks_to_final_file, has_indices}
use bom_media_api.Uploads.Chunks.{find_chunk, insert_chunk, expected_size}
use bom_media_api.Uploads.Roundtrip.{take, skip, piece, take-append-drop, length-skip}

pub append_nil : (xs : List ℕ) → xs ++ [] ≡ xs
append_nil [] = refl
append_nil (x ∷ xs) = ap (λ ws. x ∷ ws) (append_nil xs)

append_assoc : (xs ys zs : List ℕ) → (xs ++ ys) ++ zs ≡ xs ++ (ys ++ zs)
append_assoc [] ys zs = refl
append_assoc (x ∷ xs) ys zs = ap (λ ws. x ∷ ws) (append_assoc xs ys zs)

below_suc :
    (k : ℕ) (cs : List Chunk)
    → All (λ (d : Chunk). d.chunk_index < k) cs
    → All (λ (d : Chunk). d.chunk_index < suc k) cs
below_suc k [] a = tt
below_suc k (c ∷ cs) (l, a) = (omega (arith, l), below_suc k cs a)

length-take_short : (n : ℕ) (xs : List ℕ) → length xs ≤ n → length (take n xs) ≡ length xs
length-take_short zero [] h = refl
length-take_short zero (x ∷ xs) h = ground (arith, h)
length-take_short (suc n) [] h = refl
length-take_short (suc n) (x ∷ xs) h = omega (arith, length-take_short n xs (omega (arith, h)))

length-take_long : (n : ℕ) (xs : List ℕ) → n ≤ length xs → length (take n xs) ≡ n
length-take_long zero xs h = refl
length-take_long (suc n) [] h = ground (arith, h)
length-take_long (suc n) (x ∷ xs) h = omega (arith, length-take_long n xs (omega (arith, h)))

pub length-take_le : (n : ℕ) (xs : List ℕ) → length (take n xs) ≤ n
length-take_le zero xs = omega arith
length-take_le (suc n) [] = omega arith
length-take_le (suc n) (x ∷ xs) = omega (arith, length-take_le n xs)

-- A chunk behind all others is written behind them.
pub insert_chunk-last :
    (c : Chunk) (cs : List Chunk)
    → All (λ (d : Chunk). d.chunk_index < c.chunk_index) cs
    → insert_chunk c cs ≡ cs ++ (c ∷ [])
unfolding insert_chunk
insert_chunk-last c [] h = refl
insert_chunk-last c (d ∷ ds) (l, h) = ground (arith, l, insert_chunk-last c ds h)

find_chunk-last :
    (i : ℕ) (c : Chunk) (cs : List Chunk)
    → find_chunk i (cs ++ (c ∷ [])) ≡ (elim (find_chunk i cs) [
      | some d ↦ some d
      | none ↦ if c.chunk_index == i then some c else none
    ])
unfolding find_chunk
find_chunk-last i c [] = ground arith
find_chunk-last i c (d ∷ ds) = ground (arith, find_chunk-last i c ds)

merge-append :
    (cs : List Chunk) (c : Chunk)
    → (rest : List ℕ)
    → merge_chunks_to_final_file (cs ++ (c ∷ [])) ++ rest
      ≡ merge_chunks_to_final_file cs ++ (c.content ++ rest)
unfolding merge_chunks_to_final_file
merge-append [] c rest = append_assoc c.content [] rest
merge-append (d ∷ ds) c rest =
    append_assoc d.content (merge_chunks_to_final_file (ds ++ (c ∷ []))) rest
    ∙ (ap (λ xs. d.content ++ xs) (merge-append ds c rest)
        ∙ sym (append_assoc d.content (merge_chunks_to_final_file ds) (c.content ++ rest)))

module _ (env : Env) (admin : Text) (cleaned times : ℕ → ℕ) (size : ℕ) (file : List ℕ) where
  unfoldable pub sent_chunk : ℕ → Chunk
  sent_chunk k = record {
    chunk_index = k;
    content = piece size k file;
    checksum_sha256 = env.sha256 (piece size k file);
  }

  -- The first pieces, as rows.
  unfoldable pub sent : ℕ → List Chunk
  sent zero = []
  sent (suc k) = sent k ++ (sent_chunk k ∷ [])

  -- Each piece is sent and its row is written, from a number on: the request of a piece starts with
  -- the clean-up of stale uploads, and ends with the transaction.
  abbrev pub send_from : (left k : ℕ) → List Step
  send_from zero k = []
  send_from (suc left) k =
      cleans (cleaned k)
      ∷ receives admin
          (record {
            chunk_index = k;
            checksum_sha256 = none;
            file = piece size k file;
            has_capacity = true;
          })
          (times k)
      ∷ commits 0
      ∷ send_from left (suc k)

  pub sent-below : (k : ℕ) → All (λ (d : Chunk). d.chunk_index < k) (sent k)
  unfolding sent sent_chunk
  sent-below zero = tt
  sent-below (suc k) =
      All-append (λ (d : Chunk). d.chunk_index < suc k) (sent k) (sent_chunk k ∷ [])
        (below_suc k (sent k) (sent-below k)) (omega arith, tt)

  pub length-sent : (k : ℕ) → length (sent k) ≡ k
  unfolding sent
  length-sent zero = refl
  length-sent (suc k) = omega (arith, length-append (sent k) (sent_chunk k ∷ []), length-sent k)

  pub find_chunk-sent : (j k : ℕ) → is_some (find_chunk j (sent k)) ≡ ltb j k
  unfolding sent sent_chunk find_chunk
  find_chunk-sent j zero = ground arith
  find_chunk-sent j (suc k) =
      ground (arith, find_chunk-last j (sent_chunk k) (sent k), find_chunk-sent j k)

  pub has_indices-sent : (i k : ℕ) → i ≤ k → has_indices i (sent k) ≡ true
  unfolding has_indices
  has_indices-sent zero k h = refl
  has_indices-sent (suc i) k h =
      ground (arith, has_indices-sent i k (omega (arith, h)), find_chunk-sent i k, h)

  pub merge-sent : (k : ℕ) → merge_chunks_to_final_file (sent k) ++ skip size k file ≡ file
  unfolding sent merge_chunks_to_final_file sent_chunk
  merge-sent zero = refl
  merge-sent (suc k) =
      merge-append (sent k) (sent_chunk k) (skip size (suc k) file)
      ∙ (ap (λ xs. merge_chunks_to_final_file (sent k) ++ xs)
            (take-append-drop size (skip size k file))
          ∙ merge-sent k)

  pub length-piece :
      (total m k : ℕ)
      → length file ≡ total
      → total ≤ size * suc m
      → size * m < total
      → k < suc m
      → length (piece size k file) ≡ expected_size total (suc m) size k
  length-piece total m k same upper lower h = elim (Bool-cases (suc k == suc m)) [
    | inl b ↦
        let last : k ≡ m = ground (arith, b) in
        rw b (
          length-take_short size (skip size k file) (
            omega (
              arith,
              length-skip size k file,
              ap (λ j. size * suc j) last,
              mul-suc size k,
              same,
              upper,
            ))
          ∙ (length-skip size k file ∙ ap (λ n. n - size * k) same))
    | inr b ↦
        let less : suc k ≤ m = ground (arith, b, h) in
        rw b (
          length-take_long size (skip size k file) (
            omega (
              arith,
              length-skip size k file,
              mul-le-mul_left size less,
              mul-suc size k,
              same,
              lower,
            )))
  ]
