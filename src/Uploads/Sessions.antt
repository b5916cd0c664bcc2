-- ===== src/Uploads/Sessions.antt =====
-- The row of a chunked upload of src/videos/videos.service.ts and the requests in flight, and
-- initLocalVideoUpload. A stored file is the list of its bytes.
use bom_media_api.Common.{
  ℕ, ◌+◌, ◌-◌, ◌/◌, Bool, true, false, not, Option, none, some, List, [], ltb, ◌==◌, if◌then◌else◌,
  Text,
}

pub data VideoUploadSessionStatus : Type 0 where
  active completing completed aborted expired failed : VideoUploadSessionStatus

-- A VideoUploadSessionChunk with the file under its storage key, whose size is `sizeBytes`.
pub record Chunk : Type 0 where
  pub chunk_index : ℕ
  pub content : List ℕ
  pub checksum_sha256 : Text

-- A VideoUploadSession; its chunks are in the order of their indices.
pub record Session : Type 0 where
  pub admin_id : Text
  pub status : VideoUploadSessionStatus
  pub total_bytes : ℕ
  pub total_chunks : ℕ
  pub chunk_size_bytes : ℕ
  pub received_chunks : ℕ
  pub checksum_sha256 : Option Text
  pub expires_at : ℕ
  pub created_at : ℕ
  pub video_id : Option Text
  pub chunks : List Chunk

pub record Video : Type 0 where
  pub id : Text
  pub content : List ℕ
  pub checksum_sha256 : Text

-- A chunk whose file is saved and whose row is not written yet.
pub record Saved : Type 0 where
  pub admin_id : Text
  pub chunk : Chunk

-- The upload; the requests that found it expired, those that saved a chunk, those that checked it for
-- completion and those that own its completion, each with the row as it was read; the videos made.
pub record State : Type 0 where
  pub upload : Session
  pub expiring : ℕ
  pub saving : List Saved
  pub checked : List Session
  pub completing : List Session
  pub videos : List Video

pub data Error : Type 0 where
  mime_type_unsupported too_large chunk_too_large total_chunks_mismatch chunk_empty not_found
        not_active session_expired index_out_of_range size_mismatch no_space different_metadata
        checksum_mismatch no_longer_active cannot_complete missing_chunks in_progress no_chunks
        final_checksum_mismatch final_file_invalid lost_ownership unknown_request :
      Error

pub data Outcome : Type 0 where
  done already pending : Outcome
  refused : Error → Outcome

-- SHA-256 in hex, `toLowerCase`, and the configured limits.
pub record Env : Type 0 where
  pub sha256 : List ℕ → Text
  pub to_lower_case : Text → Text
  pub get_upload_max_bytes : ℕ
  pub get_chunk_size_bytes : ℕ
  pub get_upload_session_ttl_ms : ℕ
  pub get_stale_upload_max_age_ms : ℕ

abbrev pub is_active : VideoUploadSessionStatus → Bool
is_active VideoUploadSessionStatus.active = true
is_active _ = false

abbrev pub is_completing : VideoUploadSessionStatus → Bool
is_completing VideoUploadSessionStatus.completing = true
is_completing _ = false

abbrev pub is_active_or_failed : VideoUploadSessionStatus → Bool
is_active_or_failed VideoUploadSessionStatus.active = true
is_active_or_failed VideoUploadSessionStatus.failed = true
is_active_or_failed _ = false

-- `updateMany` on the row, where its status is such.
abbrev pub set_status_where :
    (VideoUploadSessionStatus → Bool) → VideoUploadSessionStatus → Session → Session
set_status_where p status u = if p u.status then record u { status = status } else u

-- The fields of the request are checked by the DTO: the numbers are integers, and at least 1. Whether
-- the type of the file and its name are supported is an argument.
pub record InitRequest : Type 0 where
  pub is_supported : Bool
  pub total_bytes : ℕ
  pub total_chunks : ℕ
  pub chunk_size_bytes : ℕ
  pub checksum_sha256 : Option Text

abbrev pub map_text : (Text → Text) → Option Text → Option Text
map_text f none = none
map_text f (some t) = some (f t)

-- `Math.ceil(a / b)`.
abbrev pub ceil_div : ℕ → ℕ → ℕ
ceil_div a b = (a + (b - 1)) / b

-- `validateLocalVideoUploadInit`, for a request that the DTO lets through.
unfoldable pub validate_local_video_upload_init : Env → InitRequest → Option Error
validate_local_video_upload_init env dto =
    if not dto.is_supported
    then some mime_type_unsupported
    else if ltb env.get_upload_max_bytes dto.total_bytes
    then some too_large
    else if ltb env.get_chunk_size_bytes dto.chunk_size_bytes
    then some chunk_too_large
    else if not (dto.total_chunks == ceil_div dto.total_bytes dto.chunk_size_bytes)
    then some total_chunks_mismatch
    else none

-- `initLocalVideoUpload`: the row that it writes.
unfoldable pub init_local_video_upload : Env → InitRequest → Text → ℕ → Option Session
unfolding validate_local_video_upload_init
init_local_video_upload env dto admin now = elim (validate_local_video_upload_init env dto) [
  | some e ↦ none
  | none ↦ some (record {
    admin_id = admin;
    status = VideoUploadSessionStatus.active;
    total_bytes = dto.total_bytes;
    total_chunks = dto.total_chunks;
    chunk_size_bytes = dto.chunk_size_bytes;
    received_chunks = 0;
    checksum_sha256 = map_text env.to_lower_case dto.checksum_sha256;
    expires_at = now + env.get_upload_session_ttl_ms;
    created_at = now;
    video_id = none;
    chunks = [];
  })
]

abbrev pub opened : Session → State
opened u = record {
  upload = u;
  expiring = 0;
  saving = [];
  checked = [];
  completing = [];
  videos = [];
}
