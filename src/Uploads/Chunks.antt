-- ===== src/Uploads/Chunks.antt =====
-- uploadLocalVideoChunk of src/videos/videos.service.ts, cut where it waits: the checks against the row that
-- was read, and the transaction.
use bom_media_api.Common.{
  ℕ, zero, suc, ◌+◌, ◌-◌, ◌*◌, Bool, true, ◌&&◌, not, Option, none, some, List, [], ◌∷◌, ltb, leb,
  ◌==◌, if◌then◌else◌, length, Text, text_eq,
}
use bom_media_api.Uploads.Sessions.{
  Chunk, Env, Outcome, Saved, Session, State, VideoUploadSessionStatus, already, checksum_mismatch,
  chunk_empty, chunk_too_large, different_metadata, done, index_out_of_range, is_active,
  no_longer_active, no_space, not_active, not_found, pending, refused, session_expired,
  size_mismatch, unknown_request,
}

-- `validateLocalChunkRequest`: the size that a chunk must have.
abbrev pub expected_size : ℕ → ℕ → ℕ → ℕ → ℕ
expected_size total n size index = if suc index == n then total - size * index else size

pub record ChunkRequest : Type 0 where
  pub chunk_index : ℕ
  pub checksum_sha256 : Option Text
  pub file : List ℕ
  pub has_capacity : Bool

unfoldable pub find_chunk : ℕ → List Chunk → Option Chunk
find_chunk i [] = none
find_chunk i (c ∷ cs) = let rest = find_chunk i cs in if c.chunk_index == i then some c else rest

abbrev pub is_checksum : Env → Option Text → Text → Bool
is_checksum env none t = true
is_checksum env (some s) t = text_eq t (env.to_lower_case s)

-- The checks of a chunk against the row that was read, in their order; none if its file is to be saved.
unfoldable pub check_chunk : Env → Session → ChunkRequest → Option Outcome
unfolding find_chunk text_eq
check_chunk env u dto =
    if not (ltb dto.chunk_index u.total_chunks)
    then some (refused index_out_of_range)
    else if not (
        length dto.file
        == expected_size u.total_bytes u.total_chunks u.chunk_size_bytes dto.chunk_index)
    then some (refused size_mismatch)
    else if not dto.has_capacity
    then some (refused no_space)
    else elim (find_chunk dto.chunk_index u.chunks) [
      | some c ↦
          if length c.content == length dto.file
            && is_checksum env dto.checksum_sha256 c.checksum_sha256
          then some already
          else some (refused different_metadata)
      | none ↦
          if is_checksum env dto.checksum_sha256 (env.sha256 dto.file)
          then none
          else some (refused checksum_mismatch)
    ]

abbrev pub checksum_of : Env → ChunkRequest → Text
checksum_of env dto = elim dto.checksum_sha256 [
  | none ↦ env.sha256 dto.file
  | some t ↦ env.to_lower_case t
]

abbrev pub save_chunk : Text → Chunk → Option Outcome → State → State × Outcome
save_chunk admin c (some o) s = (s, o)
save_chunk admin c none s =
    (record s { saving = record { admin_id = admin; chunk = c } ∷ s.saving }, pending)

-- `uploadLocalVideoChunk` up to its transaction, with `validateLocalChunkFile` and
-- `getOwnedActiveUploadSession`.
unfoldable pub receive_chunk : Env → Text → ChunkRequest → ℕ → State → State × Outcome
unfolding check_chunk text_eq
receive_chunk env admin dto now s =
    if length dto.file == 0
    then (s, refused chunk_empty)
    else if ltb env.get_chunk_size_bytes (length dto.file)
    then (s, refused chunk_too_large)
    else if not (text_eq s.upload.admin_id admin)
    then (s, refused not_found)
    else if not (is_active s.upload.status)
    then (s, refused not_active)
    else if leb s.upload.expires_at now
    then (record s { expiring = suc s.expiring }, refused session_expired)
    else save_chunk admin
        (record {
          chunk_index = dto.chunk_index;
          content = dto.file;
          checksum_sha256 = checksum_of env dto;
        })
        (check_chunk env s.upload dto) s

-- The update of a row that was found expired, which has no condition on the status.
unfoldable pub expire_read : State → State
expire_read s = elim s.expiring [
  | zero ↦ s
  | suc n ↦ record s {
    expiring = n;
    upload = record s.upload { status = VideoUploadSessionStatus.expired };
  }
]

unfoldable pub insert_chunk : Chunk → List Chunk → List Chunk
insert_chunk c [] = c ∷ []
insert_chunk c (d ∷ ds) =
    let rest = insert_chunk c ds in if ltb c.chunk_index d.chunk_index then c ∷ d ∷ ds else d ∷ rest

-- The transaction of a chunk on the row: the index is unique within the upload, and the upload must
-- still be active.
abbrev pub add_unless_found : Saved → Session → Option Chunk → Session × Outcome
add_unless_found r u (some c) =
    if length c.content == length r.chunk.content
      && text_eq c.checksum_sha256 r.chunk.checksum_sha256
    then (u, already)
    else (u, refused different_metadata)
add_unless_found r u none =
    if text_eq u.admin_id r.admin_id && is_active u.status
    then (
      record u { received_chunks = u.received_chunks + 1; chunks = insert_chunk r.chunk u.chunks },
      done,
    )
    else (u, refused no_longer_active)

unfoldable pub add_chunk : Saved → Session → Session × Outcome
unfolding find_chunk insert_chunk text_eq
add_chunk r u = add_unless_found r u (find_chunk r.chunk.chunk_index u.chunks)

-- The request that is taken out of those in flight.
unfoldable pub taken {ℓ} : {A : Type ℓ} → ℕ → List A → Option (A × List A)
taken k [] = none
taken zero (x ∷ xs) = some (x, xs)
taken (suc k) (x ∷ xs) = elim (taken k xs) [ none ↦ none | some (y, ys) ↦ some (y, x ∷ ys) ]

unfoldable pub commit_chunk : ℕ → State → State × Outcome
unfolding taken add_chunk
commit_chunk k s = elim (taken k s.saving) [
  | none ↦ (s, refused unknown_request)
  | some (r, rest) ↦ let m = add_chunk r s.upload in (record s { saving = rest; upload = m.0 }, m.1)
]
