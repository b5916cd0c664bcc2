-- ===== src/Uploads/Completion.antt =====
-- completeLocalVideoUpload of src/videos/videos.service.ts, cut where it waits, mergeChunksToFinalFile of
-- src/videos/storage/local-video-storage.service.ts, cancelLocalVideoUpload and the clean-up.
use bom_media_api.Common.{
  ℕ, zero, suc, ◌-◌, Bool, true, false, ◌&&◌, ◌||◌, not, Option, none, some, List, [], ◌∷◌, ◌++◌,
  ltb, leb, ◌==◌, if◌then◌else◌, length, Text, text_eq,
}
use bom_media_api.Uploads.Sessions.{
  Chunk, Env, Error, Outcome, Session, State, VideoUploadSessionStatus, already, cannot_complete,
  done, final_checksum_mismatch, final_file_invalid, in_progress, is_active, is_active_or_failed,
  is_completing, lost_ownership, missing_chunks, no_chunks, not_found, pending, refused,
  session_expired, set_status_where, unknown_request,
}
use bom_media_api.Uploads.Chunks.{find_chunk, taken}

-- `ensureAllUploadChunksPresent`; the indices below a number.
unfoldable pub has_indices : ℕ → List Chunk → Bool
unfolding find_chunk
has_indices zero cs = true
has_indices (suc n) cs =
    let rest = has_indices n cs in elim (find_chunk n cs) [ none ↦ false | some _ ↦ rest ]

unfoldable pub ensure_all_upload_chunks_present : Session → Bool
unfolding has_indices
ensure_all_upload_chunks_present u =
    length u.chunks == u.total_chunks && has_indices u.total_chunks u.chunks

-- `completeLocalVideoUpload` up to its claim: an upload that is complete answers its video.
unfoldable pub check_completion : Text → ℕ → State → State × Outcome
unfolding ensure_all_upload_chunks_present text_eq
check_completion admin now s =
    if not (text_eq s.upload.admin_id admin)
    then (s, refused not_found)
    else if is_completed s.upload && is_some_video s.upload.video_id
    then (s, already)
    else if not (is_active s.upload.status)
    then (s, refused cannot_complete)
    else if leb s.upload.expires_at now
    then (
      record s { upload = set_status_where is_active VideoUploadSessionStatus.expired s.upload },
      refused session_expired,
    )
    else if ensure_all_upload_chunks_present s.upload
    then (record s { checked = s.upload ∷ s.checked }, pending)
    else (s, refused missing_chunks)
  where
    is_completed : Session → Bool
    is_completed u = elim u.status [ VideoUploadSessionStatus.completed ↦ true | _ ↦ false ]

    is_some_video : Option Text → Bool
    is_some_video none = false
    is_some_video (some _) = true

-- The claim of a completion, by the row as it is now.
unfoldable pub claim_completion : ℕ → State → State × Outcome
unfolding taken
claim_completion k s = elim (taken k s.checked) [
  | none ↦ (s, refused unknown_request)
  | some (u, rest) ↦
      if is_active s.upload.status
      then (
        record s {
          checked = rest;
          completing = u ∷ s.completing;
          upload = record s.upload { status = VideoUploadSessionStatus.completing };
        },
        pending,
      )
      else (record s { checked = rest }, refused in_progress)
]

-- `mergeChunksToFinalFile`.
unfoldable pub merge_chunks_to_final_file : List Chunk → List ℕ
merge_chunks_to_final_file [] = []
merge_chunks_to_final_file (c ∷ cs) = c.content ++ merge_chunks_to_final_file cs

abbrev pub requested_checksum : Env → Option Text → Session → Option Text
requested_checksum env none u = u.checksum_sha256
requested_checksum env (some t) u = some (env.to_lower_case t)

abbrev pub is_requested : Option Text → Text → Bool
is_requested none t = true
is_requested (some s) t = text_eq s t

-- A failure of the owner of a completion.
abbrev pub fail_completion : State → Error → State × Outcome
fail_completion s e = (
  record s { upload = set_status_where is_completing VideoUploadSessionStatus.failed s.upload },
  refused e,
)

-- The rest of `completeLocalVideoUpload` for a row that was read: the merge, the checksum, what else
-- may fail before the transaction, and the transaction.
unfoldable pub complete_owned : Env → Text → Option Text → Bool → Session → State → State × Outcome
unfolding merge_chunks_to_final_file text_eq
complete_owned env video_id checksum is_valid u s =
    let content = merge_chunks_to_final_file u.chunks in
    if length u.chunks == 0
    then fail_completion s no_chunks
    else if not (is_requested (requested_checksum env checksum u) (env.sha256 content))
    then fail_completion s final_checksum_mismatch
    else if not is_valid
    then fail_completion s final_file_invalid
    else if is_completing s.upload.status
    then (
      record s {
        videos =
            record { id = video_id; content = content; checksum_sha256 = env.sha256 content }
            ∷ s.videos;
        upload = record s.upload {
          status = VideoUploadSessionStatus.completed;
          video_id = some video_id;
          checksum_sha256 = some (env.sha256 content);
          received_chunks = u.total_chunks;
          chunks = [];
        };
      },
      done,
    )
    else fail_completion s lost_ownership

unfoldable pub finish_completion : Env → ℕ → Text → Option Text → Bool → State → State × Outcome
unfolding taken complete_owned
finish_completion env k video_id checksum is_valid s = elim (taken k s.completing) [
  | none ↦ (s, refused unknown_request)
  | some (u, rest) ↦
      complete_owned env video_id checksum is_valid u (record s { completing = rest })
]

-- `cancelLocalVideoUpload`.
unfoldable pub cancel_local_video_upload : Text → State → State × Outcome
unfolding text_eq
cancel_local_video_upload admin s =
    if not (text_eq s.upload.admin_id admin)
    then (s, refused not_found)
    else if is_completing s.upload.status
    then (s, refused in_progress)
    else (
      record s {
        upload = set_status_where is_active_or_failed VideoUploadSessionStatus.aborted s.upload;
      },
      done,
    )

-- `cleanupStaleLocalUploadSessions` on this upload, if its two queries pick it, which each take 20 rows.
unfoldable pub cleanup_stale : Env → ℕ → State → State
cleanup_stale env now s =
    if ltb s.upload.expires_at now
      || ltb s.upload.created_at (now - env.get_stale_upload_max_age_ms)
    then record s {
      upload = set_status_where is_active_or_failed VideoUploadSessionStatus.expired s.upload;
    }
    else s
