-- ===== src/Uploads/Roundtrip.antt =====
-- A file that is cut into pieces and uploaded comes out as it was.
use bom_media_api.Common.{
  ℕ, zero, suc, ◌+◌, ◌-◌, ◌*◌, ◌<◌, ◌≤◌, ◌≡◌, refl, ap, sym, ◌∙◌, some, List, [], ◌∷◌, ◌++◌, length,
  All, arith, Text,
}
use native.Mathlib.Nat.{mul-suc}
use bom_media_api.Uploads.Sessions.{
  Chunk, Session, Video, Env, InitRequest, opened, init_local_video_upload,
}
use bom_media_api.Uploads.Steps.{Step, run, receives}
use bom_media_api.Uploads.Completion.{merge_chunks_to_final_file}
use bom_media_api.Uploads.Whole.{IsAscending, IsExpected, first_index}
use bom_media_api.Uploads.Invariant.{IsFit, opened-IsValid}
use bom_media_api.Uploads.Owned.{run-IsValid}
use bom_media_api.Uploads.Complete.{All-first, ceil_div-bounds, init_local_video_upload-columns}

abbrev pub take : ℕ → List ℕ → List ℕ
take zero xs = []
take (suc n) [] = []
take (suc n) (x ∷ xs) = x ∷ take n xs

abbrev pub drop : ℕ → List ℕ → List ℕ
drop zero xs = xs
drop (suc n) [] = []
drop (suc n) (x ∷ xs) = drop n xs

-- What is left behind a number of pieces, and the piece with an index.
abbrev pub skip : ℕ → ℕ → List ℕ → List ℕ
skip size zero file = file
skip size (suc k) file = drop size (skip size k file)

abbrev pub piece : ℕ → ℕ → List ℕ → List ℕ
piece size k file = take size (skip size k file)

pub take-append-drop : (n : ℕ) (xs : List ℕ) → take n xs ++ drop n xs ≡ xs
take-append-drop zero xs = refl
take-append-drop (suc n) [] = refl
take-append-drop (suc n) (x ∷ xs) = ap (λ ys. x ∷ ys) (take-append-drop n xs)

length-drop : (n : ℕ) (xs : List ℕ) → length (drop n xs) ≡ length xs - n
length-drop zero xs = omega arith
length-drop (suc n) [] = omega arith
length-drop (suc n) (x ∷ xs) = omega (arith, length-drop n xs)

pub length-skip : (size k : ℕ) (file : List ℕ) → length (skip size k file) ≡ length file - size * k
length-skip size zero file = omega arith
length-skip size (suc k) file =
    omega (arith, length-drop size (skip size k file), length-skip size k file, mul-suc size k)

pub empty_of_length : (xs : List ℕ) → length xs ≡ 0 → xs ≡ []
empty_of_length [] h = refl
empty_of_length (x ∷ xs) h = ground (arith, h)

module _ (total m size : ℕ) (file : List ℕ) where
  abbrev IsPiece : ℕ → List ℕ → Type 0
  IsPiece i content = content ≡ piece size i file

  abbrev IsFile : List ℕ → Type 0
  IsFile content = content ≡ file

  -- The pieces from a number on make what is left behind the others.
  merge_from :
      (k : ℕ) (cs : List Chunk)
      → length file ≤ size * suc m
      → IsAscending k cs
      → All (IsFit total m size IsPiece IsFile) cs
      → k + length cs ≡ suc m
      → merge_chunks_to_final_file cs ≡ skip size k file
  unfolding merge_chunks_to_final_file
  merge_from k [] upper a e n =
      let same : k ≡ suc m = omega (arith, n) in
      sym (
        empty_of_length (skip size k file)
          (omega (arith, length-skip size k file, ap (λ j. size * j) same, upper)))
  merge_from k (c ∷ cs) upper (l, a) ((e, p), es) n =
      let here =
        first_index total m size k c cs (l, a)
          (
            e,
            All-first (IsExpected total m size) (λ (d : Chunk). IsPiece d.chunk_index d.content) cs
                es,
          )
          n in
      let rest = merge_from (suc c.chunk_index) cs upper a es (omega (arith, here, n)) in
      ap (λ xs. xs ++ merge_chunks_to_final_file cs) p
      ∙ (ap (λ xs. piece size c.chunk_index file ++ xs) rest
          ∙ (take-append-drop size (skip size c.chunk_index file)
              ∙ ap (λ j. skip size j file) here))

-- A request that sends a chunk sends the piece of the file with its index.
abbrev pub IsSent : ℕ → List ℕ → Step → Type 0
IsSent size file (receives admin dto now) = dto.file ≡ piece size dto.chunk_index file
IsSent size file _ = Unit

-- A video is the file that was uploaded: if each chunk that any request sends is the piece of the file
-- with its index, then whatever the order of the requests and however they interleave, every video
-- that is made of the upload is the file, byte by byte. The file has the announced length, and the
-- announced sizes are positive.
pub run-roundtrip :
    (env : Env) (dto : InitRequest) (admin : Text) (now : ℕ) (u : Session) (steps : List Step)
    → (file : List ℕ) → init_local_video_upload env dto admin now ≡ some u
    → 0 < dto.chunk_size_bytes
    → 0 < dto.total_bytes
    → length file ≡ dto.total_bytes
    → All (IsSent dto.chunk_size_bytes file) steps
    → All (λ (v : Video). v.content ≡ file) (run env (opened u) steps).videos
run-roundtrip env dto admin now u steps file e s t same sent =
    let (m, n, upper, _) = ceil_div-bounds dto.total_bytes dto.chunk_size_bytes s t in
    let (tb, tc, cs, none_yet) = init_local_video_upload-columns env dto admin now u e in
    let total = dto.total_bytes in
    let size = dto.chunk_size_bytes in
    let (_, _, _, _, videos, _) =
      run-IsValid total m size (IsPiece total m size file) (IsFile total m size file)
        (λ cs a l k.
          merge_from total m size file 0 cs (omega (arith, upper, same)) a l (omega (arith, k)))
        env (opened u) steps sent
        (opened-IsValid total m size (IsPiece total m size file) (IsFile total m size file) u tb
          (tc ∙ n) cs none_yet) in
    videos
